-- ===== src/Verbs/Mutate/Admission.antt =====
-- What holds when a mutation reaches the writer of a dataset.
use warehousd.Prelude.{
  String, ◌≡◌, refl, subst, ◌⊎◌, inl, inr, Bool, true, false, Option, none, some, List, [], ◌∷◌,
  keys, lookup, includes, is_some, ◌==◌, arith, eq_iff, Bool-cases, Option-cases,
}
use warehousd.Context.{Env, BrokerContext}
use warehousd.Config.{FieldConfig, CollectionConfig, chunked}
use warehousd.Config.Fields.{is_stored, is_writable, identity_field}
use warehousd.Grants.Filters.{validate_document_filters}
use warehousd.Grants.Eval.{ActiveGrant, granted, load_active_grant}
use warehousd.Audit.{AuditWriter, Trail, no_detail}
use warehousd.Verbs.Guard.{
  VerbDeps, Granted, Resolved, resolved, refusal, fault, GuardOptions, resolve_granted,
}
use warehousd.Verbs.Guard.Laws.{resolve_granted-Passed}
use warehousd.Verbs.Mutate.Intent.{MutationIntent, collection_of, op_of, values_of}
use warehousd.Verbs.Mutate.Dispatch.{
  dataset_writer, handed_to, is_malformed, is_create, is_identity, structure_check,
  check_known_field, check_stated_field, check_stated, on_granted, on_resolved, dispatch_mutation,
}

-- A stated field may be written: it is stored, and it is writable and within the grant, or the
-- document's identity on a create.
pub record MayState (c : CollectionConfig) (grant : ActiveGrant) (creates : Bool) (f : String)
    (field : FieldConfig) : Type 0 where
  pub declared : lookup f c.fields ≡ some field
  pub stored : is_stored field ≡ true
  pub permitted :
      ((is_identity (identity_field c) f ≡ true) × (creates ≡ true))
      ⊎ ((is_identity (identity_field c) f ≡ false)
          × (is_writable field ≡ true)
          × (includes grant.allowed_fields f ≡ true))

check_known_field-MayState :
    (c : CollectionConfig) (grant : ActiveGrant) (creates : Bool) (f : String) (field : FieldConfig)
    → lookup f c.fields ≡ some field
    → check_known_field c grant creates f field ≡ none
    → MayState c grant creates f field
check_known_field-MayState c grant creates f field l h = record {
  declared = l;
  stored = ground arith;
  permitted = elim (Bool-cases (is_identity (identity_field c) f)) [
    | inl e ↦ inl (e, ground arith)
    | inr e ↦ inr (e, ground arith, ground arith)
  ];
}

-- The fields of a write pass the check only if each of them may be stated.
check_stated-MayState :
    (c : CollectionConfig) (grant : ActiveGrant) (creates : Bool) (fs : List String) (f : String)
    → check_stated c grant creates fs ≡ none
    → includes fs f ≡ true
    → (field : FieldConfig) × MayState c grant creates f field
unfolding check_stated
check_stated-MayState c grant creates [] f h m = absurd (cc)
check_stated-MayState c grant creates (g ∷ fs) f h m =
    elim (Option-cases (check_stated_field c grant creates g (lookup g c.fields))) [
      | inr (why, e) ↦ absurd (ground arith)
      | inl e ↦ elim (Bool-cases (g == f)) [
        | inr n ↦ check_stated-MayState c grant creates fs f (ground arith) (ground arith)
        | inl y ↦ elim (Option-cases (lookup g c.fields)) [
          | inl l ↦ absurd (ground arith)
          | inr (field, l) ↦
              let same : g ≡ f = ground (arith, eq_iff g f) in
              subst (λ x. (k : FieldConfig) × MayState c grant creates x k) same
                (field, check_known_field-MayState c grant creates g field l (ground arith))
        ]
      ]
    ]

module _ (d : VerbDeps) (has_write_pool : Env → Bool) (w : AuditWriter) (ctx : BrokerContext)
    (intent : MutationIntent) where
  -- What a dataset's writer can rely on.
  pub record IsAdmitted (c : CollectionConfig) (grant : ActiveGrant) : Type 0 where
    pub active :
        load_active_grant d.grants d.memberships d.now ctx (collection_of intent) ≡ granted grant
    pub carries_op : includes grant.verbs (op_of intent) ≡ true
    pub supported : structure_check d intent c ≡ none
    pub evaluable : is_some (validate_document_filters d.platform grant.document_filter c) ≡ false
    pub direct : (grant.mode == "proposal_only") ≡ false
    pub pool : has_write_pool ctx.env ≡ true
    pub rows : chunked c ≡ false
    pub fields :
        (f : String)
        → includes (keys (values_of intent)) f ≡ true
        → (field : FieldConfig) × MayState c grant (is_create intent) f field

  -- The tests of a mutation, one by one: the writer is reached when each of them is passed.
  on_granted-IsAdmitted :
      (g : Granted) (c : CollectionConfig) (grant : ActiveGrant) (trail trail' : Trail)
      → load_active_grant d.grants d.memberships d.now ctx (collection_of intent) ≡ granted g.grant
      → includes g.grant.verbs (op_of intent) ≡ true
      → structure_check d intent g.collection ≡ none
      → on_granted d has_write_pool w ctx intent g trail
        ≡ (handed_to (dataset_writer c grant), trail')
      → (g.collection ≡ c) × (g.grant ≡ grant) × IsAdmitted g.collection g.grant
  on_granted-IsAdmitted g c grant trail trail' active verb structure h =
      at_filters
        (is_some (validate_document_filters d.platform g.grant.document_filter g.collection)) refl
    where
      checks : Option String
      checks = check_stated g.collection g.grant (is_create intent) (keys (values_of intent))

      at_stated :
          is_some (validate_document_filters d.platform g.grant.document_filter g.collection)
            ≡ false
          → (g.grant.mode == "proposal_only") ≡ false
          → has_write_pool ctx.env ≡ true
          → (o : Option String) → checks ≡ o
          → (g.collection ≡ c) × (g.grant ≡ grant) × IsAdmitted g.collection g.grant
      at_stated f m p (some why) e = absurd (ground arith)
      at_stated f m p none e = elim (Bool-cases (chunked g.collection)) [
        | inl k ↦ absurd (ground arith)
        | inr k ↦ (
          ground arith,
          ground arith,
          record {
            active = active;
            carries_op = verb;
            supported = structure;
            evaluable = f;
            direct = m;
            pool = p;
            rows = k;
            fields = λ x m'.
                check_stated-MayState g.collection g.grant (is_create intent)
                  (keys (values_of intent)) x e m';
          },
        )
      ]

      at_filters :
          (b : Bool)
          → is_some (validate_document_filters d.platform g.grant.document_filter g.collection) ≡ b
          → (g.collection ≡ c) × (g.grant ≡ grant) × IsAdmitted g.collection g.grant
      at_filters true e = absurd (ground arith)
      at_filters false e = elim (Bool-cases (g.grant.mode == "proposal_only")) [
        | inl m ↦ absurd (elim (Bool-cases (chunked g.collection)) [
          | inl k ↦ ground arith
          | inr k ↦ ground arith
        ])
        | inr m ↦ elim (Bool-cases (has_write_pool ctx.env)) [
          | inr p ↦ absurd (ground arith)
          | inl p ↦ at_stated e m p checks refl
        ]
      ]

  -- A mutation reaches the writer of a dataset only when the caller's active grant carries the
  -- operation, the collection supports it, the grant's filters can be evaluated, the grant writes
  -- directly, the environment has a pool for writes, and each field that it states may be stated
  -- under that grant.
  pub dispatch_mutation-IsAdmitted :
      (c : CollectionConfig) (grant : ActiveGrant) (trail trail' : Trail)
      → dispatch_mutation d has_write_pool w ctx intent trail
        ≡ (handed_to (dataset_writer c grant), trail')
      → IsAdmitted c grant
  unfolding dispatch_mutation
  dispatch_mutation-IsAdmitted c grant trail trail' h = elim (Bool-cases (is_malformed intent)) [
    | inl e ↦ absurd (ground arith)
    | inr e ↦
        at_resolved (resolve_granted d w ctx (collection_of intent) (op_of intent) options trail)
          refl (ground arith)
  ]
    where
      options : GuardOptions
      options = record {
        collection_check = structure_check d intent;
        fields = [];
        detail = no_detail;
        check_filters = false;
      }

      at_resolved :
          (r : Resolved × Trail)
          → resolve_granted d w ctx (collection_of intent) (op_of intent) options trail ≡ r
          → on_resolved d has_write_pool w ctx intent r
            ≡ (handed_to (dataset_writer c grant), trail')
          → IsAdmitted c grant
      at_resolved (refusal r, t) e k = absurd (ground arith)
      at_resolved (fault id, t) e k = absurd (ground arith)
      at_resolved (resolved g, t) e k =
          let (p, _) =
            resolve_granted-Passed d w ctx (collection_of intent) (op_of intent) options trail g t
              e in
          let (same, same', admitted) =
            on_granted-IsAdmitted g c grant t trail' p.active p.carries_verb p.structural k in
          subst (λ x. IsAdmitted x grant) same
            (subst (λ x. IsAdmitted g.collection x) same' admitted)
