-- ===== src/Config/Fields.antt =====
-- The field sets of config/load.ts, the kinds of config/kinds, and config/collection.ts.
pub mod Laws
use warehousd.Prelude.{
  ℕ, String, Bool, true, false, not, ◌&&◌, Option, none, some, List, [], ◌∷◌, lookup, keys,
  keys_where, includes, filter, if◌then◌else◌,
}
use warehousd.Config.Posture.{ReadPosture, Access, NormalizedPosture, normalize_posture}
use warehousd.Config.{
  FieldConfig, Kind, dataset, file, CollectionConfig, WarehousdConfig, find_collection,
}

abbrev pub is_masked : FieldConfig → Bool
is_masked f = elim (normalize_posture f.posture).read [ ReadPosture.mask ↦ true | _ ↦ false ]

abbrev pub is_grantable : FieldConfig → Bool
is_grantable f = elim (normalize_posture f.posture).read [ ReadPosture.deny ↦ false | _ ↦ true ]

abbrev pub is_writable : FieldConfig → Bool
is_writable f = elim (normalize_posture f.posture).write [ Access.allow ↦ true | _ ↦ false ]

abbrev pub is_unmaskable : FieldConfig → Bool
is_unmaskable f = elim (normalize_posture f.posture).unmask [ Access.allow ↦ true | _ ↦ false ]

-- The names of the fields that satisfy a test, none for an unknown collection.
abbrev pub fields_of : (FieldConfig → Bool) → Option CollectionConfig → List String
fields_of p none = []
fields_of p (some c) = keys_where p c.fields

unfoldable pub grantable_fields : WarehousdConfig → String → List String
unfolding find_collection
grantable_fields cfg collection = fields_of is_grantable (find_collection cfg collection)

unfoldable pub unmaskable_fields : WarehousdConfig → String → List String
unfolding find_collection
unmaskable_fields cfg collection = fields_of is_unmaskable (find_collection cfg collection)

unfoldable pub writable_fields : WarehousdConfig → String → List String
unfolding find_collection
writable_fields cfg collection = fields_of is_writable (find_collection cfg collection)

unfoldable pub masked_fields_for : WarehousdConfig → String → List String → List String
unfolding find_collection
masked_fields_for cfg collection unmasked =
    filter (λ n. not (includes unmasked n)) (fields_of is_masked (find_collection cfg collection))

-- What the kind of a collection supports, before any grant.
abbrev pub kind_verbs : CollectionConfig → List String
kind_verbs c =
    if c.writable
    then elim c.kind [ dataset ↦ "create" ∷ "update" ∷ "delete" ∷ [] | file ↦ "create" ∷ [] ]
    else []

abbrev pub verbs_of : Option CollectionConfig → List String
verbs_of none = []
verbs_of (some c) = kind_verbs c

unfoldable pub supported_verbs : WarehousdConfig → String → List String
unfolding find_collection
supported_verbs cfg collection = verbs_of (find_collection cfg collection)

-- The first field that is marked `pk`.
first_pk : List (String × FieldConfig) → Option String
first_pk [] = none
first_pk ((n, f) ∷ fs) = if f.pk then some n else first_pk fs

unfoldable pub pk_of : CollectionConfig → Option String
unfolding first_pk
pk_of c = elim c.kind [ dataset ↦ first_pk c.fields | file ↦ none ]

unfoldable pub identity_field : CollectionConfig → Option String
unfolding first_pk
identity_field c = elim c.kind [ dataset ↦ first_pk c.fields | file ↦ some "path" ]

-- Field by field: a `view_join` or a relation has no column on the base table.
abbrev pub is_stored : FieldConfig → Bool
is_stored f = not f.view_join && not f.relation

abbrev pub data_cols_of : CollectionConfig → List String
data_cols_of c = keys_where is_stored c.fields

-- The collections that a proposal can live in.
unfoldable pub revisable_collections : WarehousdConfig → List String
revisable_collections cfg =
    keys_where (λ c. c.writable && includes (kind_verbs c) "update") cfg.collections
