-- ===== src/Grants/Filters/Laws.antt =====
-- What the filters of a grant promise: validation leaves nothing uninterpretable, filters only
-- narrow, and an access list that was not read denies.
use warehousd.Prelude.{
  String, ◌≡◌, refl, sym, ap, ◌∙◌, subst, ◌⊎◌, inl, inr, ◌↔◌, Bool, true, false, not, ◌&&◌, ◌||◌,
  Option, none, some, List, [], ◌∷◌, ◌++◌, lookup, any, all, all-append, is_some, includes,
  any-includes, arith, All, Option-cases, Bool-cases, if◌then◌else◌, &&-true, false≢true,
}
use warehousd.Config.{FieldType, FieldConfig, CollectionConfig}
use warehousd.Value.{Scalar, Value, one, many, Document, get, elements, DocumentFilter, Platform}
use warehousd.Acl.Principals.{acl_admits}
use warehousd.Grants.Filters.Canonical.{canonicalize}
use warehousd.Grants.Filters.{
  FilterValidationError, wanted, comparable, object_prototype, no_attributes, field_at, check_field,
  validate_document_filters, type_of, same, matches_filter, matches_filters, acl_column,
  principals_of, column_admits, admits, admits_post_image,
}

-- What a collection says of a field: its own entry or, where it has none, the bare property that the
-- prototype of an object answers with.
abbrev pub IsRead : CollectionConfig → String → FieldConfig → Type 0
IsRead c name config =
    (lookup name c.fields ≡ some config)
    ⊎ ((lookup name c.fields ≡ none)
        × (includes object_prototype name ≡ true)
        × (config ≡ no_attributes))

-- A filter that validation can answer: its field is read and is no view join and no relation, and
-- each of its values is null or compares exactly.
pub record IsEvaluable (platform : Platform) (c : CollectionConfig) (f : DocumentFilter)
    : Type 0 where
  pub config : FieldConfig
  pub found : IsRead c f.field config
  pub stored : (config.view_join ≡ false) × (config.relation ≡ false)
  pub exact : all (comparable platform config.type) (wanted f) ≡ true

field_at-IsRead :
    (c : CollectionConfig) (name : String) (config : FieldConfig)
    → field_at c name ≡ some config
    → IsRead c name config
unfolding field_at
field_at-IsRead c name config h = elim (Option-cases (lookup name c.fields)) [
  | inr (own, e) ↦ inl (e ∙ (rw (e, field_at) at h))
  | inl e ↦ elim (Bool-cases (includes object_prototype name)) [
    | inr n ↦ absurd (none_at (rw (e, field_at, n, if◌then◌else◌) at h))
    | inl y ↦ inr (e, y, at_none (rw (e, field_at, y, if◌then◌else◌) at h))
  ]
]
  where
    none_at : ◌≡◌ {A = Option FieldConfig} none (some config) → ⊥
    none_at k = cc

    at_none : some no_attributes ≡ some config → config ≡ no_attributes
    at_none k = cc

IsRead-field_at :
    (c : CollectionConfig) (name : String) (config : FieldConfig)
    → IsRead c name config
    → field_at c name ≡ some config
unfolding field_at
IsRead-field_at c name config (inl e) = rw (e, field_at) refl
IsRead-field_at c name config (inr (e, y, k)) =
    rw (e, field_at, y, if◌then◌else◌) (ap (λ x. some x) (sym k))

module _ (platform : Platform) (c : CollectionConfig) where
  check_field-IsEvaluable :
      (f : DocumentFilter)
      → check_field platform f (field_at c f.field) ≡ none
      → IsEvaluable platform c f
  check_field-IsEvaluable f h = elim (Option-cases (field_at c f.field)) [
    | inl missing ↦ absurd (cc (rw missing at h))
    | inr (config, found) ↦
        let h' : check_field platform f (some config) ≡ none = rw found at h in
        record {
          config = config;
          found = field_at-IsRead c f.field config found;
          stored = (ground arith, ground arith);
          exact = ground arith;
        }
  ]

  IsEvaluable-check_field :
      (f : DocumentFilter)
      → IsEvaluable platform c f
      → check_field platform f (field_at c f.field) ≡ none
  IsEvaluable-check_field f e =
      subst (λ o. check_field platform f o ≡ none)
        (sym (IsRead-field_at c f.field e.config e.found)) (rw e.exact (ground (arith, e.stored)))

  first_error-none :
      (o rest : Option FilterValidationError)
      → elim o [ none ↦ rest | some e ↦ some e ] ≡ none
      → (o ≡ none) × (rest ≡ none)
  first_error-none none rest h = (refl, h)
  first_error-none (some e) rest h = absurd (some_none h)
    where
      some_none : some e ≡ none → ⊥
      some_none k = cc

  no_error :
      (o rest : Option FilterValidationError)
      → o ≡ none
      → rest ≡ none
      → elim o [ none ↦ rest | some e ↦ some e ] ≡ none
  no_error none rest h k = k
  no_error (some e) rest h k = h

  -- Validation accepts a list of filters exactly when every filter is on a field that the collection
  -- declares and that is no view join and no relation, or on a name that it does not declare and that
  -- every object inherits, and each of its values is null or has a canonical text for the type.
  pub validate_document_filters_iff :
      (fs : List DocumentFilter)
      → (validate_document_filters platform fs c ≡ none) ↔ All (IsEvaluable platform c) fs
  unfolding validate_document_filters
  validate_document_filters_iff [] = (λ h. tt, λ h. refl)
  validate_document_filters_iff (f ∷ fs) =
      let (to, from) = validate_document_filters_iff fs in
      (
        λ h.
            let (here, rest) = first_error-none (check_field platform f (field_at c f.field)) _ h in
            (check_field-IsEvaluable f here, to rest),
        λ e.
            no_error (check_field platform f (field_at c f.field)) _ (IsEvaluable-check_field f e.0)
              (from e.1),
      )

  -- Whatever it is compared with, a value with no canonical text is the same as nothing.
  same-none :
      (type : Option FieldType) (held : List Scalar)
      → any (λ a. same none (canonicalize platform type a)) held ≡ false
  same-none type [] = refl
  same-none type (a ∷ held) = same-none type held

  any-same-none :
      (type : Option FieldType) (vs held : List Scalar)
      → any (λ v. is_some (canonicalize platform type v)) vs ≡ false
      → any
          (λ v. any (λ a. same (canonicalize platform type v) (canonicalize platform type a)) held)
          vs
        ≡ false
  any-same-none type [] held h = refl
  any-same-none type (v ∷ vs) held h = elim (Option-cases (canonicalize platform type v)) [
    | inl e ↦ rw e (ground (arith, same-none type held, any-same-none type vs held))
    | inr (t, e) ↦ absurd (ground arith)
  ]

  -- A filter none of whose values has a canonical text, null among them, reaches no document.
  pub matches_filter_closed :
      (row : Document) (f : DocumentFilter)
      → any (λ v. is_some (canonicalize platform (type_of (lookup f.field c.fields)) v)) (wanted f)
        ≡ false
      → matches_filter platform row c f ≡ false
  unfolding matches_filter
  matches_filter_closed row f h =
      any-same-none (type_of (lookup f.field c.fields)) (wanted f) (elements (get f.field row)) h

  -- Filters are joined by "and": a grant with more of them reaches no more documents.
  pub admits-append :
      (row : Document) (fs gs : List DocumentFilter) (principals : List String)
      → admits platform row (fs ++ gs) principals c
        ≡ (admits platform row fs principals c && admits_post_image platform row gs c)
  unfolding admits admits_post_image matches_filters
  admits-append row fs gs principals =
      ground (arith, all-append (matches_filter platform row c) fs gs)

-- A document that its access list opens to a caller: the list is null or empty, or it names one of
-- the caller's principals.
abbrev pub IsOpenTo : List String → Value → Type 0
IsOpenTo principals (one Scalar.null) = Unit
IsOpenTo principals (one Scalar.undefined) = Unit
IsOpenTo principals (one _) = ⊥
IsOpenTo principals (many ss) =
    (ss ≡ [])
    ⊎ ((names : List String) × (p : String) × (principals_of ss ≡ some names)
        × (includes names p ≡ true)
        × (includes principals p ≡ true))

principals_of-some-nil : (ss : List Scalar) → principals_of ss ≡ some [] → ss ≡ []
principals_of-some-nil [] h = refl
principals_of-some-nil (Scalar.str s ∷ ss) h = absurd (ground arith)
principals_of-some-nil (s ∷ ss) h = cc

or_of_not : (a b : Bool) → a ≡ true → not a || b ≡ true → b ≡ true
or_of_not a b on h = ground arith

module _ (principals : List String) where
  many-IsOpenTo :
      (ss : List Scalar) (names : List String)
      → principals_of ss ≡ some names
      → acl_admits (some names) principals ≡ true
      → IsOpenTo principals (many ss)
  unfolding acl_admits
  many-IsOpenTo ss [] e h = inl (principals_of-some-nil ss e)
  many-IsOpenTo ss (n ∷ names) e h =
      let (p, in_names, held) = any-includes (n ∷ names) principals h in
      inr (n ∷ names, p, e, in_names, held)

  column_admits-IsOpenTo :
      (v : Value) → column_admits (some v) principals ≡ true → IsOpenTo principals v
  column_admits-IsOpenTo (one Scalar.null) h = tt
  column_admits-IsOpenTo (one Scalar.undefined) h = tt
  column_admits-IsOpenTo (one s) h = cc
  column_admits-IsOpenTo (many ss) h = elim (Option-cases (principals_of ss)) [
    | inl e ↦ absurd (false≢true (rw (e, column_admits) at h))
    | inr (names, e) ↦ many-IsOpenTo ss names e (rw (e, column_admits) at h)
  ]

  -- On a collection with access lists, a document is admitted only if its list was read with it
  -- and opens it to the caller; a row without the column is refused.
  pub admits-IsOpenTo :
      (platform : Platform) (row : Document) (fs : List DocumentFilter) (c : CollectionConfig)
      → c.acl ≡ true
      → admits platform row fs principals c ≡ true
      → (v : Value) × (lookup acl_column row ≡ some v) × IsOpenTo principals v
  unfolding admits
  admits-IsOpenTo platform row fs c on h = elim (Option-cases (lookup acl_column row)) [
    | inl e ↦ absurd (ground arith)
    | inr (v, e) ↦ (v, e, column_admits-IsOpenTo v (column_true v e))
  ]
    where
      column_true :
          (v : Value) → lookup acl_column row ≡ some v → column_admits (some v) principals ≡ true
      column_true v e =
          subst (λ o. column_admits o principals ≡ true) e
            (or_of_not c.acl (column_admits (lookup acl_column row) principals) on
              (&&-true (matches_filters platform row fs c)
                (not c.acl || column_admits (lookup acl_column row) principals) h).1)
