-- ===== src/Verbs/Guard/Laws.antt =====
-- What a verb knows once the guard let it through, and what a caller can learn from a refusal.
use warehousd.Prelude.{
  String, ◌≡◌, refl, sym, subst, ◌⊎◌, inl, inr, true, false, ◌&&◌, Option, none, some, includes,
  is_some, arith, Bool-cases, Option-cases,
}
use warehousd.Context.{BrokerContext}
use warehousd.Config.{CollectionConfig, find_collection}
use warehousd.Grants.Filters.{validate_document_filters}
use warehousd.Grants.Eval.{ActiveGrant, Loaded, no_grant, granted, rebuild, load_active_grant}
use warehousd.Audit.{Trail, AuditWriter}
use warehousd.Verbs.Guard.{
  VerbDeps, Granted, resolved, GuardOptions, acl_opts, mask_plan, all_allowed, refused_with,
  check_grant, on_loaded, resolve_granted,
}

-- Everything that holds when a verb goes on.
pub record Passed (d : VerbDeps) (ctx : BrokerContext) (collection verb : String)
    (opts : GuardOptions) (r : Granted) : Type 0 where
  pub found : find_collection d.cfg collection ≡ some r.collection
  pub structural : opts.collection_check r.collection ≡ none
  pub active : load_active_grant d.grants d.memberships d.now ctx collection ≡ granted r.grant
  pub carries_verb : includes r.grant.verbs verb ≡ true
  pub fields_allowed : all_allowed r.grant.allowed_fields opts.fields ≡ true
  pub evaluable :
      opts.check_filters ≡ true
      → validate_document_filters d.platform r.grant.document_filter r.collection ≡ none
  pub masks : r.plan ≡ mask_plan d.cfg collection r.collection r.grant.unmasked_fields
  pub lists : r.acl_principals ≡ acl_opts r.collection r.grant

none_of_not_some {ℓ} : {A : Type ℓ} (o : Option A) → is_some o ≡ false → o ≡ none
none_of_not_some none h = refl
none_of_not_some (some a) h = cc

module _ (d : VerbDeps) (w : AuditWriter) (ctx : BrokerContext) (collection : String)
    (verb : String) (opts : GuardOptions) (trail : Trail) where
  check_grant-Passed :
      (c : CollectionConfig) (g : ActiveGrant) (r : Granted) (trail' : Trail)
      → find_collection d.cfg collection ≡ some c
      → opts.collection_check c ≡ none
      → load_active_grant d.grants d.memberships d.now ctx collection ≡ granted g
      → check_grant d w ctx collection verb opts c g trail ≡ (resolved r, trail')
      → Passed d ctx collection verb opts r × (trail' ≡ trail)
  unfolding check_grant
  check_grant-Passed c g r trail' f s l h = elim (Bool-cases (includes g.verbs verb)) [
    | inr e ↦ absurd (ground arith)
    | inl e ↦ elim (Bool-cases (all_allowed g.allowed_fields opts.fields)) [
      | inr e' ↦ absurd (ground arith)
      | inl e' ↦
          elim (Bool-cases (
            opts.check_filters
            && is_some (validate_document_filters d.platform g.document_filter c))) [
              | inl e'' ↦ absurd (ground arith)
              | inr e'' ↦
                  let built : Granted = record {
                    collection = c;
                    grant = g;
                    plan = mask_plan d.cfg collection c g.unmasked_fields;
                    acl_principals = acl_opts c g;
                  } in
                  let same : built ≡ r = ground arith in
                  let kept : trail ≡ trail' = ground arith in
                  (
                    subst (Passed d ctx collection verb opts) same (record {
                      found = f;
                      structural = s;
                      active = l;
                      carries_verb = e;
                      fields_allowed = e';
                      evaluable = λ on.
                          none_of_not_some
                            (validate_document_filters d.platform g.document_filter c)
                            (ground arith);
                      masks = refl;
                      lists = refl;
                    }),
                    sym kept,
                  )
            ]
    ]
  ]

  -- A verb goes on only when the collection exists, no structural question refuses it, the loaded
  -- grant carries the verb and every named field, and its filters can be evaluated if they are to
  -- be checked; masks and access list are those of that grant, and nothing was written to the trail.
  pub resolve_granted-Passed :
      (r : Granted) (trail' : Trail)
      → resolve_granted d w ctx collection verb opts trail ≡ (resolved r, trail')
      → Passed d ctx collection verb opts r × (trail' ≡ trail)
  unfolding resolve_granted
  resolve_granted-Passed r trail' h = elim (Option-cases (find_collection d.cfg collection)) [
    | inl f ↦ absurd (ground arith)
    | inr (c, f) ↦ elim (Option-cases (opts.collection_check c)) [
      | inr (reason, s) ↦ absurd (ground arith)
      | inl s ↦
          at_loaded c f s (load_active_grant d.grants d.memberships d.now ctx collection) refl
            (ground arith)
    ]
  ]
    where
      at_loaded :
          (c : CollectionConfig)
          → find_collection d.cfg collection ≡ some c
          → opts.collection_check c ≡ none
          → (l : Loaded) → load_active_grant d.grants d.memberships d.now ctx collection ≡ l
          → on_loaded d w ctx collection verb opts c l trail ≡ (resolved r, trail')
          → Passed d ctx collection verb opts r × (trail' ≡ trail)
      at_loaded c f s no_grant e k = absurd (ground arith)
      at_loaded c f s (rebuild id) e k = absurd (ground arith)
      at_loaded c f s (granted g) e k = check_grant-Passed c g r trail' f s e k

-- A caller cannot tell whether a grant without `read` exists: with no grant, and with one that does
-- not carry the verb, a read gets the same refusal, and the same row is written.
pub read_refusal_uniform :
    (d : VerbDeps) (w : AuditWriter) (ctx : BrokerContext) (collection : String)
    (opts : GuardOptions) (trail : Trail) (c : CollectionConfig)
    → find_collection d.cfg collection ≡ some c
    → opts.collection_check c ≡ none
    → ((load_active_grant d.grants d.memberships d.now ctx collection ≡ no_grant)
        ⊎ ((g : ActiveGrant) × (load_active_grant d.grants d.memberships d.now ctx collection
              ≡ granted g)
            × (includes g.verbs "read" ≡ false)))
    → resolve_granted d w ctx collection "read" opts trail
      ≡ refused_with d w ctx collection "read" opts "no_grant" opts.detail trail
unfolding resolve_granted
read_refusal_uniform d w ctx collection opts trail c f s (inl l) = rw f (rw s (rw l refl))
read_refusal_uniform d w ctx collection opts trail c f s (inr (g, l, v)) =
    rw f (rw s (rw l (rw v refl)))
