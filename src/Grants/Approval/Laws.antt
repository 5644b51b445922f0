-- ===== src/Grants/Approval/Laws.antt =====
-- What the checks of an approval establish.
use warehousd.Prelude.{
  String, ◌≡◌, ◌≢◌, refl, true, false, not, Option, none, some, List, [], ◌∷◌, includes, filter,
  is_empty, is_some, eq_iff, subset, arith,
}
use warehousd.Context.{live}
use warehousd.Config.{WarehousdConfig, find_collection}
use warehousd.Config.Fields.{grantable_fields, unmaskable_fields}
use warehousd.Value.{Platform}
use warehousd.Grants.Table.{GrantRow}
use warehousd.Grants.Manage.{validate_verbs}
use warehousd.Grants.Manage.Laws.{HasValidVerbs, validate_verbs-HasValidVerbs}
use warehousd.Grants.Approval.{Decision, check_filters, check_decision}

is_empty-outside :
    (allowed fields : List String)
    → is_empty (filter (λ f. not (includes allowed f)) fields) ≡ subset fields allowed
is_empty-outside allowed [] = refl
is_empty-outside allowed (f ∷ fs) = ground (arith, is_empty-outside allowed fs)

-- A decision that the configuration and segregation of duties allow.
pub record IsAllowed (cfg : WarehousdConfig) (platform : Platform) (grant : GrantRow) (d : Decision)
    : Type 0 where
  pub four_eyes : grant.env ≡ live → grant.user_id ≢ d.by
  pub verbs_valid : HasValidVerbs cfg grant.collection d.verbs d.allowed_fields
  pub grantable : subset d.allowed_fields (grantable_fields cfg grant.collection) ≡ true
  pub raw_within : subset d.unmasked_fields d.allowed_fields ≡ true
  pub raw_offered : subset d.unmasked_fields (unmaskable_fields cfg grant.collection) ≡ true
  pub evaluable :
      check_filters platform (find_collection cfg grant.collection) d.document_filters ≡ true

none_of_not_some {ℓ} : {A : Type ℓ} (o : Option A) → is_some o ≡ false → o ≡ none
none_of_not_some none h = refl
none_of_not_some (some a) h = cc

-- A decision that passes the checks of an approval is not the asker's own on live, has valid verbs,
-- grants only grantable fields, unmasks only fields among them that may be unmasked, and has
-- filters that can be evaluated.
pub check_decision-IsAllowed :
    (cfg : WarehousdConfig) (platform : Platform) (grant : GrantRow) (d : Decision)
    → check_decision cfg platform grant d ≡ none
    → IsAllowed cfg platform grant d
unfolding check_decision
check_decision-IsAllowed cfg platform grant d h = record {
  four_eyes = λ on e. ground (arith, eq_iff grant.user_id d.by);
  verbs_valid = validate_verbs-HasValidVerbs d.verbs cfg grant.collection d.allowed_fields (
      none_of_not_some (validate_verbs d.verbs cfg grant.collection d.allowed_fields)
        (ground arith));
  grantable =
      ground (arith, is_empty-outside (grantable_fields cfg grant.collection) d.allowed_fields);
  raw_within = ground (arith, is_empty-outside d.allowed_fields d.unmasked_fields);
  raw_offered =
      ground (arith, is_empty-outside (unmaskable_fields cfg grant.collection) d.unmasked_fields);
  evaluable = ground arith;
}
