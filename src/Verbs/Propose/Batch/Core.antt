-- ===== src/Verbs/Propose/Batch/Core.antt =====
-- A batch is decided as one chain of decisions, or nothing of it is.
use warehousd.Prelude.{
  String, ◌≡◌, refl, Bool, true, false, not, Option, none, some, List, map, length, is_empty, ltb,
  arith, by_test,
}
use warehousd.Context.{Env, BrokerContext}
use warehousd.Grants.Eval.{ActiveGrant}
use warehousd.Grants.Eval.Batch.{BatchLoaded, found, rebuild_one, load_active_grants}
use warehousd.Audit.{AuditWriter, Trail}
use warehousd.Verbs.Guard.{VerbDeps}
use warehousd.Verbs.Mutate.Intent.{WriteDeps}
use warehousd.Verbs.Propose.Tables.{
  Tables, BatchDecision, Pending, DecisionOutcome, BatchResult, decided, undecided, Progress,
  finished, aborted, faulted,
}
use warehousd.Verbs.Propose.Decide.Laws.{Chain, Finished, decide_all-Chain}
use warehousd.Verbs.Propose.Batch.{
  repeats, max_batch_decisions, locate, names_of, audit_all, on_audited, on_progress, on_grants,
  decide_proposals,
}

module _ (d : VerbDeps) (e : WriteDeps) (draw : String → String) (has_write_pool : Env → Bool)
    (w : AuditWriter) (ctx : BrokerContext) where
  -- What a batch that is decided has passed, and the chain of its decisions.
  pub record IsRun (decisions : List BatchDecision) (before after : Tables) : Type 0 where
    pub grants : List (String × ActiveGrant)
    pub outcomes : List DecisionOutcome
    pub loaded :
        load_active_grants d.grants d.memberships d.now ctx (
          names_of d e draw has_write_pool w ctx
            (locate d e draw has_write_pool w ctx decisions before))
        ≡ found grants
    pub chain :
        Chain d e draw ctx
          (locate d e draw has_write_pool w ctx decisions before)
          grants
          decisions
          outcomes
          before
          after

  abbrev pub IsEnvelope : List BatchDecision → Type 0
  IsEnvelope decisions =
      (is_empty decisions ≡ false)
      × (ltb max_batch_decisions (length decisions) ≡ false)
      × (repeats (map (λ (b : BatchDecision). b.proposal_id) decisions) ≡ false)
      × (has_write_pool ctx.env ≡ true)

  -- A batch that is decided is a run, and one that is not leaves the tables as they were.
  abbrev pub Runs : List BatchDecision → Tables → BatchResult × Tables × Trail → Type 0
  Runs decisions before (decided os, after, trail) =
      IsEnvelope decisions × IsRun decisions before after
  Runs decisions before (undecided why id os, after, trail) = after ≡ before

  abbrev RunsOn :
      List (String × Pending)
      → List (String × ActiveGrant)
      → List BatchDecision
      → Tables
      → BatchResult × Tables × Trail
      → Type 0
  RunsOn located grants decisions before (decided os, after, trail) =
      (os' : List DecisionOutcome) × Chain d e draw ctx located grants decisions os' before after
  RunsOn located grants decisions before (undecided why id os, after, trail) = after ≡ before

  on_progress-RunsOn :
      (located : List (String × Pending)) (grants : List (String × ActiveGrant))
      (decisions : List BatchDecision) (before : Tables) (trail : Trail) (p : Progress)
      → Finished d e draw ctx located grants decisions before p
      → RunsOn located grants decisions before
          (on_progress d e draw has_write_pool w ctx located grants decisions before trail p)
  on_progress-RunsOn located grants decisions before trail (finished os after) h =
      at_audit (audit_all d e draw has_write_pool w ctx located grants os trail)
    where
      at_audit :
          (o : Option (List DecisionOutcome) × Trail)
          → RunsOn located grants decisions before
              (on_audited d e draw has_write_pool w ctx located grants decisions before after o)
      at_audit (none, t) = refl
      at_audit (some os', t) = (os, h)
  on_progress-RunsOn located grants decisions before trail (aborted f) h = refl
  on_progress-RunsOn located grants decisions before trail faulted h = refl

  RunsOn-Runs :
      (grants : List (String × ActiveGrant)) (decisions : List BatchDecision) (before : Tables)
      (o : BatchResult × Tables × Trail)
      → IsEnvelope decisions
      → load_active_grants d.grants d.memberships d.now ctx (
          names_of d e draw has_write_pool w ctx
            (locate d e draw has_write_pool w ctx decisions before))
        ≡ found grants
      → RunsOn (locate d e draw has_write_pool w ctx decisions before) grants decisions before o
      → Runs decisions before o
  RunsOn-Runs grants decisions before (decided os, after, trail) k l (os', h) =
      (k, record { grants = grants; outcomes = os'; loaded = l; chain = h })
  RunsOn-Runs grants decisions before (undecided why id os, after, trail) k l h = h

  -- A batch of decisions is either decided as a whole or not at all: when it is, it had between one
  -- and a hundred different proposals and the environment a pool for writes, and all the decisions
  -- went through one after the other; when it is not, for whichever reason and at whichever point,
  -- the revisions of every collection and the change log are as they were.
  pub decide_proposals-Runs :
      (decisions : List BatchDecision) (s : Tables) (trail : Trail)
      → Runs decisions s (decide_proposals d e draw has_write_pool w ctx decisions s trail)
  unfolding decide_proposals
  decide_proposals-Runs decisions s trail =
      by_test (Runs decisions s) (is_empty decisions) _ _ (λ _. refl)
        (λ a.
          by_test (Runs decisions s) (ltb max_batch_decisions (length decisions)) _ _ (λ _. refl)
            (λ b.
              by_test (Runs decisions s)
                (repeats (map (λ (x : BatchDecision). x.proposal_id) decisions)) _ _ (λ _. refl)
                (λ f.
                  by_test (Runs decisions s) (not (has_write_pool ctx.env)) _ _ (λ _. refl)
                    (λ p.
                      at_grants (a, b, f, ground arith)
                        (load_active_grants d.grants d.memberships d.now ctx (
                          names_of d e draw has_write_pool w ctx
                            (locate d e draw has_write_pool w ctx decisions s)))
                        refl))))
    where
      at_grants :
          IsEnvelope decisions
          → (o : BatchLoaded)
          → load_active_grants d.grants d.memberships d.now ctx (
              names_of d e draw has_write_pool w ctx
                (locate d e draw has_write_pool w ctx decisions s))
            ≡ o
          → Runs decisions s (
              on_grants d e draw has_write_pool w ctx
                (locate d e draw has_write_pool w ctx decisions s)
                decisions
                s
                trail
                o)
      at_grants k rebuild_one h = refl
      at_grants k (found grants) h =
          let located = locate d e draw has_write_pool w ctx decisions s in
          RunsOn-Runs grants decisions s _ k h (
            on_progress-RunsOn located grants decisions s trail _
              (decide_all-Chain d e draw ctx located grants decisions s))
