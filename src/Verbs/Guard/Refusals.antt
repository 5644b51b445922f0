-- ===== src/Verbs/Guard/Refusals.antt =====
-- Every refusal of the guard went through the audit, and which reasons there are.
use warehousd.Prelude.{
  String, ◌≡◌, ◌≢◌, refl, subst, ◌⊎◌, inl, inr, ◌&&◌, some, includes, ◌==◌, eq_iff, is_some, arith,
  Bool-cases, Option-cases,
}
use warehousd.Context.{BrokerContext}
use warehousd.Config.{CollectionConfig, find_collection}
use warehousd.Grants.Filters.{validate_document_filters}
use warehousd.Grants.Eval.{ActiveGrant, Loaded, no_grant, granted, rebuild, load_active_grant}
use warehousd.Audit.{AuditDetail, Trail, AuditWriter, AuditedRefusal, refuse}
use warehousd.Audit.Laws.{refuse_stands}
use warehousd.Verbs.Guard.{
  VerbDeps, refusal, GuardOptions, all_allowed, missing_verb, verb_detail, with_grant, refused_with,
  check_grant, on_loaded, resolve_granted,
}

-- The reasons that the guard itself gives to a verb.
abbrev pub IsGuardReason : String → String → Type 0
IsGuardReason verb reason =
    (reason ≡ "unknown_collection")
    ⊎ (reason ≡ "no_grant")
    ⊎ ((verb ≢ "read") × (reason ≡ "verb_denied"))
    ⊎ (reason ≡ "field_denied")
    ⊎ (reason ≡ "invalid_intent")

module _ (d : VerbDeps) (w : AuditWriter) (ctx : BrokerContext) (collection : String)
    (verb : String) (opts : GuardOptions) (trail : Trail) where
  -- A refusal as the audit left it: written, if it could be, under its own reason, which is the
  -- guard's or the structural question's.
  pub record Audited (r : AuditedRefusal) (trail' : Trail) : Type 0 where
    pub detail : AuditDetail
    pub through_audit : refuse w (some collection) r.reason detail trail ≡ (r, trail')
    pub by_rule :
        IsGuardReason verb r.reason
        ⊎ ((c : CollectionConfig) × (opts.collection_check c ≡ some r.reason))

  refused_with-Audited :
      (reason : String) (detail : AuditDetail) (r : AuditedRefusal) (trail' : Trail)
      → (IsGuardReason verb reason
          ⊎ ((c : CollectionConfig) × (opts.collection_check c ≡ some reason)))
      → refused_with d w ctx collection verb opts reason detail trail ≡ (refusal r, trail')
      → Audited r trail'
  refused_with-Audited reason detail r trail' rule h =
      let result : refuse w (some collection) reason detail trail ≡ (r, trail') = ground arith in
      let (kept, _) = refuse_stands w (some collection) reason detail trail in
      let same : reason ≡ r.reason = ground (arith, kept) in
      record {
        detail = detail;
        through_audit =
            subst (λ x. refuse w (some collection) x detail trail ≡ (r, trail')) same result;
        by_rule =
            subst
              (λ x.
                IsGuardReason verb x
                ⊎ ((c : CollectionConfig) × (opts.collection_check c ≡ some x)))
              same rule;
      }

  missing_verb-IsGuardReason : IsGuardReason verb (missing_verb verb)
  missing_verb-IsGuardReason = elim (Bool-cases (verb == "read")) [
    | inl e ↦ rw e (inr (inl refl))
    | inr e ↦ rw e (inr (inr (inl (λ h. ground (arith, eq_iff verb "read"), refl))))
  ]

  check_grant-Audited :
      (c : CollectionConfig) (g : ActiveGrant) (r : AuditedRefusal) (trail' : Trail)
      → check_grant d w ctx collection verb opts c g trail ≡ (refusal r, trail')
      → Audited r trail'
  unfolding check_grant
  check_grant-Audited c g r trail' h = elim (Bool-cases (includes g.verbs verb)) [
    | inr e ↦
        refused_with-Audited (missing_verb verb) (verb_detail verb opts.detail g) r trail'
          (inl missing_verb-IsGuardReason) (ground arith)
    | inl e ↦ elim (Bool-cases (all_allowed g.allowed_fields opts.fields)) [
      | inr e' ↦
          refused_with-Audited "field_denied" (with_grant opts.detail g) r trail'
            (inl (inr (inr (inr (inl refl))))) (ground arith)
      | inl e' ↦
          elim (Bool-cases (
            opts.check_filters
            && is_some (validate_document_filters d.platform g.document_filter c))) [
              | inl e'' ↦
                  refused_with-Audited "invalid_intent" (with_grant opts.detail g) r trail'
                    (inl (inr (inr (inr (inr refl))))) (ground arith)
              | inr e'' ↦ absurd (ground arith)
            ]
    ]
  ]

  -- Every refusal went through the audit under the reason that the caller gets, and that reason is
  -- one of the guard's five or the structural question's; `verb_denied` is not among them on a read.
  pub resolve_granted-Audited :
      (r : AuditedRefusal) (trail' : Trail)
      → resolve_granted d w ctx collection verb opts trail ≡ (refusal r, trail')
      → Audited r trail'
  unfolding resolve_granted
  resolve_granted-Audited r trail' h = elim (Option-cases (find_collection d.cfg collection)) [
    | inl f ↦
        refused_with-Audited "unknown_collection" opts.detail r trail' (inl (inl refl))
          (ground arith)
    | inr (c, f) ↦ elim (Option-cases (opts.collection_check c)) [
      | inr (reason, s) ↦
          refused_with-Audited reason opts.detail r trail' (inr (c, s)) (ground arith)
      | inl s ↦
          at_loaded c (load_active_grant d.grants d.memberships d.now ctx collection) (ground arith)
    ]
  ]
    where
      at_loaded :
          (c : CollectionConfig) (l : Loaded)
          → on_loaded d w ctx collection verb opts c l trail ≡ (refusal r, trail')
          → Audited r trail'
      at_loaded c no_grant k =
          refused_with-Audited "no_grant" opts.detail r trail' (inl (inr (inl refl))) k
      at_loaded c (rebuild id) k = absurd (ground arith)
      at_loaded c (granted g) k = check_grant-Audited c g r trail' k
