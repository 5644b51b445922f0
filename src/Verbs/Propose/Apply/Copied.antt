-- ===== src/Verbs/Propose/Apply/Copied.antt =====
-- What a row says into which columns were copied: of its fields, and of the filters of a grant.
use mathlib.Core.List.{Memᴰ}
use warehousd.Prelude.{
  String, ◌≡◌, ◌≢◌, ◌⊎◌, refl, sym, ap, ◌∙◌, subst, inl, inr, Bool, true, false, Option, none, some,
  List, [], ◌∷◌, lookup, lookup-insert, includes, any, all, or_default, if◌then◌else◌, ◌==◌, arith,
  eq_iff, Bool-cases, false≢true,
}
use warehousd.Config.{FieldType, CollectionConfig}
use warehousd.Value.{Scalar, Value, one, Document, DocumentFilter, Platform, elements, get}
use warehousd.Grants.Filters.{acl_column, wanted, type_of, same, matches_filter}
use warehousd.Grants.Filters.Scan.{Text}
use warehousd.Grants.Filters.Canonical.{canonicalize}
use warehousd.Verbs.Propose.Decision.{copy_columns}
use warehousd.Verbs.Propose.Apply.{with_list}

pub get-copy_columns_any :
    (cols : List String) (row : Document) (f : String)
    → get f (copy_columns cols row) ≡ (if includes cols f then get f row else one Scalar.undefined)
unfolding copy_columns
get-copy_columns_any [] row f = refl
get-copy_columns_any (g ∷ cols) row f = elim (Bool-cases (g == f)) [
  | inl e ↦
      let at_f : g ≡ f = ground (arith, eq_iff g f) in
      rw (e, if◌then◌else◌) (ap (λ x. get x row) at_f)
  | inr e ↦ rw (e, if◌then◌else◌) (get-copy_columns_any cols row f)
]

pub get-with_list :
    (o : Option Value) (d : Document) (f : String)
    → f ≢ acl_column
    → get f (with_list o d) ≡ get f d
get-with_list none d f h = refl
get-with_list (some v) d f h =
    ap (λ (x : Option Value). or_default x (one Scalar.undefined)) (lookup-insert f acl_column v d)
    ∙ rw (apart (Bool-cases (acl_column == f)), if◌then◌else◌) refl
  where
    apart : ((acl_column == f) ≡ true) ⊎ ((acl_column == f) ≡ false) → (acl_column == f) ≡ false
    apart (inl y) = absurd (h (sym (ground (arith, eq_iff acl_column f))))
    apart (inr n) = n

-- Whether a filter holds of the value of its field.
abbrev holds_of : Platform → CollectionConfig → DocumentFilter → Value → Bool
holds_of platform c f value =
    let type = type_of (lookup f.field c.fields) in
    any
      (λ v.
        any (λ a. same (canonicalize platform type v) (canonicalize platform type a))
          (elements value))
      (wanted f)

holds_of-undefined :
    (platform : Platform) (c : CollectionConfig) (f : DocumentFilter)
    → holds_of platform c f (one Scalar.undefined) ≡ false
unfolding canonicalize
holds_of-undefined platform c f = at_values (wanted f)
  where
    type : Option FieldType
    type = type_of (lookup f.field c.fields)

    nothing : (o : Option Text) → any (λ a. same o none) (Scalar.undefined ∷ []) ≡ false
    nothing none = refl
    nothing (some t) = refl

    at_values :
        (vs : List Scalar)
        → any
            (λ v.
              any
                (λ a. same (canonicalize platform type v) (canonicalize platform type a))
                (Scalar.undefined ∷ []))
            vs
          ≡ false
    at_values [] = refl
    at_values (v ∷ vs) = ground (arith, nothing (canonicalize platform type v), at_values vs)

-- A filter that passes a row into which the columns were copied passes the columns.
pub matches_copied :
    (platform : Platform) (c : CollectionConfig) (f : DocumentFilter) (row columns : Document)
    (cols : List String)
    → get f.field row
      ≡ (if includes cols f.field then get f.field columns else one Scalar.undefined)
    → matches_filter platform row c f ≡ true
    → matches_filter platform columns c f ≡ true
unfolding matches_filter
matches_copied platform c f row columns cols at h = elim (Bool-cases (includes cols f.field)) [
  | inl y ↦
      let same_value : get f.field row ≡ get f.field columns = at ∙ rw (y, if◌then◌else◌) refl in
      subst (λ v. holds_of platform c f v ≡ true) same_value h
  | inr n ↦
      let gone : get f.field row ≡ one Scalar.undefined = at ∙ rw (n, if◌then◌else◌) refl in
      absurd (
        false≢true (
          sym (holds_of-undefined platform c f)
          ∙ subst (λ v. holds_of platform c f v ≡ true) gone h))
]

pub all-member :
    (p : DocumentFilter → Bool) (fs : List DocumentFilter) (f : DocumentFilter)
    → all p fs ≡ true
    → Memᴰ f fs
    → p f ≡ true
all-member p [] f h m = elim m [ ]
all-member p (x ∷ fs) f h (Memᴰ.head k) =
    let here : p x ≡ true = ground arith in subst (λ z. p z ≡ true) (sym k) here
all-member p (x ∷ fs) f h (Memᴰ.tail m) = all-member p fs f (ground arith) m
