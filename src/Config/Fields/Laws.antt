-- ===== src/Config/Fields/Laws.antt =====
-- How the field sets of config/load.ts stand to one another.
use warehousd.Prelude.{
  String, ◌≡◌, ◌∙◌, Bool, true, not, ◌&&◌, Option, none, some, List, [], ◌∷◌, keys_where, includes,
  includes-filter, filter, arith,
}
use warehousd.Config.Posture.{
  ReadPosture, Access, PostureInput, word, axes, other, normalize_posture, unmask_level-eq-allow,
  read_level,
}
use warehousd.Config.{FieldConfig, CollectionConfig, WarehousdConfig, find_collection}
use warehousd.Config.Fields.{
  is_masked, is_grantable, is_unmaskable, fields_of, grantable_fields, unmaskable_fields,
  masked_fields_for,
}

-- A posture that offers the raw value is masked.
unmask-mask :
    (p : PostureInput)
    → (normalize_posture p).unmask ≡ Access.allow
    → (normalize_posture p).read ≡ ReadPosture.mask
unfolding normalize_posture
unmask-mask (word s) h = cc
unmask-mask other h = cc
unmask-mask (axes r w u) h = (unmask_level-eq-allow (read_level r) u h).0

unmaskable-masked : (f : FieldConfig) → is_unmaskable f ≡ true → is_masked f ≡ true
unmaskable-masked f h = ground (arith, unmask-mask f.posture)

masked-grantable : (f : FieldConfig) → is_masked f ≡ true → is_grantable f ≡ true
masked-grantable f h = ground arith

keys_where_mono :
    (p q : FieldConfig → Bool) (fs : List (String × FieldConfig)) (n : String)
    → ((f : FieldConfig) → p f ≡ true → q f ≡ true)
    → includes (keys_where p fs) n ≡ true
    → includes (keys_where q fs) n ≡ true
keys_where_mono p q [] n imp h = h
keys_where_mono p q ((k, f) ∷ fs) n imp h = ground (arith, imp f, keys_where_mono p q fs n imp)

-- A field whose raw value may be granted is masked for a grant that does not carry it, and may be
-- granted.
pub unmaskable_fields_lem :
    (cfg : WarehousdConfig) (collection : String) (n : String)
    → includes (unmaskable_fields cfg collection) n ≡ true
    → (includes (masked_fields_for cfg collection []) n ≡ true)
      × (includes (grantable_fields cfg collection) n ≡ true)
unfolding unmaskable_fields masked_fields_for grantable_fields
unmaskable_fields_lem cfg collection n h = go (find_collection cfg collection) h
  where
    go :
        (o : Option CollectionConfig)
        → includes (fields_of is_unmaskable o) n ≡ true
        → (includes (filter (λ m. not (includes [] m)) (fields_of is_masked o)) n ≡ true)
          × (includes (fields_of is_grantable o) n ≡ true)
    go none k = cc
    go (some c) k =
        let masked = keys_where_mono is_unmaskable is_masked c.fields n unmaskable-masked k in
        (
          includes-filter (λ m. not (includes [] m)) (keys_where is_masked c.fields) n
              ∙ ground (arith, masked),
          keys_where_mono is_masked is_grantable c.fields n masked-grantable masked,
        )

-- A field is transformed for a caller exactly when its posture is `mask` and the grant does not
-- carry its raw value.
pub masked_fields_for_lem :
    (cfg : WarehousdConfig) (collection : String) (unmasked : List String) (n : String)
    → includes (masked_fields_for cfg collection unmasked) n
      ≡ (includes (masked_fields_for cfg collection []) n && not (includes unmasked n))
unfolding masked_fields_for
masked_fields_for_lem cfg collection unmasked n =
    let fs = fields_of is_masked (find_collection cfg collection) in
    ground (
      arith,
      includes-filter (λ (m : String). not (includes unmasked m)) fs n,
      includes-filter (λ (m : String). not (includes [] m)) fs n,
    )
