-- ===== src/Grants/Manage/Laws.antt =====
-- What validated verbs and requests satisfy.
use warehousd.Prelude.{
  String, ◌≡◌, ◌≢◌, inl, inr, Bool, true, false, not, ◌&&◌, none, List, [], ◌∷◌, includes, find,
  any, is_some, ◌==◌, eq_iff, arith, Bool-cases, Option-cases,
}
use warehousd.Config.{WarehousdConfig, find_collection}
use warehousd.Config.Fields.{writable_fields, supported_verbs}
use warehousd.Grants.Manage.{
  grant_verbs, mutating_verbs, unknown_verb, unsupported_verb, mutates, validate_verbs,
}

none_found :
    (p : String → Bool) (xs : List String) (x : String)
    → find p xs ≡ none
    → includes xs x ≡ true
    → p x ≡ false
none_found p [] x h m = cc
none_found p (y ∷ xs) x h m = elim (Bool-cases (p y)) [
  | inl e ↦ absurd (ground arith)
  | inr e ↦ elim (Bool-cases (y == x)) [
    | inl same ↦ let eq : y ≡ x = (eq_iff y x).0 same in rw eq at e
    | inr other ↦ none_found p xs x (ground arith) (ground arith)
  ]
]

-- The verbs of a grant that passed validation.
pub record HasValidVerbs (cfg : WarehousdConfig) (collection : String) (verbs : List String)
    (allowed_fields : List String) : Type 0 where
  pub nonempty : verbs ≢ []
  pub known : (v : String) → includes verbs v ≡ true → includes grant_verbs v ≡ true
  pub approve_reads : includes verbs "approve" ≡ true → includes verbs "read" ≡ true
  pub supported :
      (v : String)
      → includes verbs v ≡ true
      → includes mutating_verbs v ≡ true
      → includes (supported_verbs cfg collection) v ≡ true
  pub writes_something :
      mutates verbs ≡ true → any (includes (writable_fields cfg collection)) allowed_fields ≡ true
  pub configured : is_some (find_collection cfg collection) ≡ true

-- Validated verbs are known, `approve` comes with `read`, every verb that changes data is one that
-- the collection supports, and then at least one field of the grant is writable.
pub validate_verbs-HasValidVerbs :
    (verbs : List String) (cfg : WarehousdConfig) (collection : String) (allowed : List String)
    → validate_verbs verbs cfg collection allowed ≡ none
    → HasValidVerbs cfg collection verbs allowed
unfolding validate_verbs
validate_verbs-HasValidVerbs verbs cfg collection allowed h =
    elim (Option-cases (unknown_verb verbs)) [
      | inr (v, e) ↦ absurd (ground arith)
      | inl known ↦ elim (Option-cases (unsupported_verb (supported_verbs cfg collection) verbs)) [
        | inr (v, e) ↦ absurd (ground arith)
        | inl supported ↦ record {
          nonempty = λ e. ground arith;
          known = λ v m.
              ground
                (arith, none_found (λ (u : String). not (includes grant_verbs u)) verbs v known m);
          approve_reads = λ m. ground arith;
          supported = λ v m k. ground (
            arith,
            none_found
                (λ (u : String).
                  includes mutating_verbs u && not (includes (supported_verbs cfg collection) u))
                verbs v supported m,
          );
          writes_something = λ m. ground arith;
          configured = ground arith;
        }
      ]
    ]
