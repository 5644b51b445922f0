-- ===== src/Verbs/Propose/Batch.antt =====
-- decideProposals of packages/broker/src/verbs/propose.ts: the atomic driver of decisions. The audit
-- trail is written outside the transaction and stands either way; the id of the batch is the
-- writer's.
pub mod Core
pub mod Laws
use warehousd.Prelude.{
  ℕ, String, Bool, false, not, ◌||◌, Option, none, some, List, [], ◌∷◌, map, length, lookup,
  includes, is_empty, distinct, or_default, ltb, if◌then◌else◌, ◌==◌,
}
use warehousd.Context.{Env, BrokerContext}
use warehousd.Grants.Eval.{ActiveGrant}
use warehousd.Grants.Eval.Batch.{BatchLoaded, found, rebuild_one, load_active_grants}
use warehousd.Audit.{
  AuditGrant, AuditDetail, AuditWriter, AuditedAllow, recorded, unrecorded, Trail, no_detail, allow,
  refuse,
}
use warehousd.Verbs.Guard.{VerbDeps, audit_grant}
use warehousd.Verbs.Mutate.Intent.{WriteDeps}
use warehousd.Verbs.Propose.Tables.{
  Tables, BatchDecision, Pending, DecisionOutcome, DeclinedOutcome, BatchResult, decided, undecided,
  FailedDecision, Progress, finished, aborted, faulted, load_pending_many,
}
use warehousd.Verbs.Propose.Decide.{decide_all}

abbrev pub max_batch_decisions : ℕ
max_batch_decisions = 100

pub repeats : List String → Bool
repeats [] = false
repeats (x ∷ xs) = includes xs x || repeats xs

module _ (d : VerbDeps) (e : WriteDeps) (draw : String → String) (has_write_pool : Env → Bool)
    (w : AuditWriter) (ctx : BrokerContext) where
  abbrev pub collection_at : List (String × Pending) → String → Option String
  collection_at located id = elim (lookup id located) [ none ↦ none | some p ↦ some p.collection ]

  abbrev pub grant_at :
      List (String × Pending) → List (String × ActiveGrant) → String → Option AuditGrant
  grant_at located grants id = elim (lookup id located) [
    | none ↦ none
    | some p ↦ elim (lookup p.collection grants) [ none ↦ none | some g ↦ some (audit_grant g) ]
  ]

  abbrev pub grant_detail : Option AuditGrant → AuditDetail
  grant_detail g = record no_detail { grant = g }

  abbrev pub on_recorded :
      DecisionOutcome → AuditedAllow → Option (List DecisionOutcome) → Option (List DecisionOutcome)
  on_recorded o unrecorded rest = none
  on_recorded o (recorded id) none = none
  on_recorded o (recorded id) (some os) = some (record o { audit_id = id } ∷ os)

  -- assertRecorded stops at the first row that the trail did not take.
  unfoldable pub audit_all :
      List (String × Pending)
      → List (String × ActiveGrant)
      → List DecisionOutcome
      → Trail
      → Option (List DecisionOutcome) × Trail
  unfolding allow
  audit_all located grants [] trail = (some [], trail)
  audit_all located grants (o ∷ os) trail =
      let (a, trail') =
        allow w (collection_at located o.proposal_id)
          (grant_detail (grant_at located grants o.proposal_id)) trail in
      elim a [
        | unrecorded ↦ (none, trail')
        | recorded id ↦
            let (rest, trail'') = audit_all located grants os trail' in
            (on_recorded o (recorded id) rest, trail'')
      ]

  abbrev pub reason_for : Option FailedDecision → BatchDecision → String
  reason_for none dcn = "batch_aborted"
  reason_for (some f) dcn = if dcn.proposal_id == f.proposal_id then f.reason else "batch_aborted"

  -- After the rollback: one row for each decision of the input, in its order.
  unfoldable pub refuse_all :
      List (String × Pending)
      → List (String × ActiveGrant)
      → Option FailedDecision
      → List BatchDecision
      → Trail
      → List DeclinedOutcome × Trail
  unfolding refuse
  refuse_all located grants failed [] trail = ([], trail)
  refuse_all located grants failed (dcn ∷ rest) trail =
      let why = reason_for failed dcn in
      let (r, trail') =
        refuse w (some (or_default (collection_at located dcn.proposal_id) "*")) why
          (grant_detail (grant_at located grants dcn.proposal_id)) trail in
      let (os, trail'') = refuse_all located grants failed rest trail' in
      (
        record {
          proposal_id = dcn.proposal_id;
          action = dcn.action;
          reason = why;
          audit_id = r.audit_id;
        }
            ∷ os,
        trail'',
      )

  abbrev pub failed_id : Option FailedDecision → Option String
  failed_id none = none
  failed_id (some f) = some f.proposal_id

  abbrev pub abort_reason : Option FailedDecision → String
  abort_reason none = "internal_error"
  abort_reason (some f) = f.reason

  abbrev pub roll_back :
      List (String × Pending)
      → List (String × ActiveGrant)
      → Option FailedDecision
      → List BatchDecision
      → Tables
      → Trail
      → BatchResult × Tables × Trail
  roll_back located grants failed decisions before trail =
      let (os, trail') = refuse_all located grants failed decisions trail in
      (undecided (abort_reason failed) (failed_id failed) os, before, trail')

  abbrev pub on_audited :
      List (String × Pending)
      → List (String × ActiveGrant)
      → List BatchDecision
      → Tables
      → Tables
      → Option (List DecisionOutcome) × Trail
      → BatchResult × Tables × Trail
  on_audited located grants decisions before after (none, trail) =
      roll_back located grants none decisions before trail
  on_audited located grants decisions before after (some os, trail) = (decided os, after, trail)

  abbrev pub on_progress :
      List (String × Pending)
      → List (String × ActiveGrant)
      → List BatchDecision
      → Tables
      → Trail
      → Progress
      → BatchResult × Tables × Trail
  on_progress located grants decisions before trail (finished os after) =
      on_audited located grants decisions before after (audit_all located grants os trail)
  on_progress located grants decisions before trail (aborted f) =
      roll_back located grants (some f) decisions before trail
  on_progress located grants decisions before trail faulted =
      roll_back located grants none decisions before trail

  -- A grant row of the old shape makes the loader throw before anything is resolved.
  abbrev pub on_grants :
      List (String × Pending)
      → List BatchDecision
      → Tables
      → Trail
      → BatchLoaded
      → BatchResult × Tables × Trail
  on_grants located decisions s trail rebuild_one = roll_back [] [] none decisions s trail
  on_grants located decisions s trail (found grants) =
      on_progress located grants decisions s trail
        (decide_all d e draw ctx located grants decisions s)

  abbrev collection_of : Pending → String
  collection_of p = p.collection

  abbrev pub locate : List BatchDecision → Tables → List (String × Pending)
  locate decisions s =
      load_pending_many d e ctx s (map (λ (b : BatchDecision). b.proposal_id) decisions)

  abbrev pub names_of : List (String × Pending) → List String
  names_of located = distinct (map (λ (x : String × Pending). x.1.collection) located)

  abbrev pub refuse_envelope : String → Tables → Trail → BatchResult × Tables × Trail
  refuse_envelope why s trail =
      let (r, trail') = refuse w (some "*") why no_detail trail in
      (undecided why none [], s, trail')

  unfoldable pub decide_proposals :
      List BatchDecision → Tables → Trail → BatchResult × Tables × Trail
  unfolding refuse repeats load_pending_many load_active_grants decide_all refuse_all audit_all
  decide_proposals decisions s trail =
      if is_empty decisions
      then refuse_envelope "invalid_intent" s trail
      else if ltb max_batch_decisions (length decisions)
      then refuse_envelope "invalid_intent" s trail
      else if repeats (map (λ (b : BatchDecision). b.proposal_id) decisions)
      then refuse_envelope "invalid_intent" s trail
      else if not (has_write_pool ctx.env)
      then refuse_envelope "not_writable" s trail
      else let located = locate decisions s in
        on_grants located decisions s trail
          (load_active_grants d.grants d.memberships d.now ctx (names_of located))
