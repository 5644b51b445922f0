-- ===== src/Verbs/Propose/Decide.antt =====
-- The loop of decideProposals of packages/broker/src/verbs/propose.ts: one decision after the other.
pub mod Laws
pub mod Invariants
pub mod History
use warehousd.Prelude.{String, Option, none, some, List, [], ◌∷◌, ◌++◌, lookup, insert}
use warehousd.Context.{BrokerContext}
use warehousd.Config.{CollectionConfig, find_collection}
use warehousd.Grants.Eval.{ActiveGrant}
use warehousd.Revisions.{RevisionRow, RevisionTable}
use warehousd.Verbs.Guard.{VerbDeps}
use warehousd.Verbs.Mutate.Intent.{WriteDeps}
use warehousd.Verbs.Propose.Decision.{
  approve, reject, Authorized, authorized, denied, authorize_decision,
}
use warehousd.Verbs.Propose.Apply.{
  Applied, done, stopped, lost_race, fault, apply_approval, apply_rejection,
}
use warehousd.Verbs.Propose.Tables.{
  Tables, BatchDecision, Pending, DecisionOutcome, Step, stepped, aborts, faults, Progress,
  finished, aborted, faulted, table_of,
}

-- What the guard reads, what a write asks of its surroundings, and the uuid that the platform draws
-- for the revision which replaces a proposal.
module _ (d : VerbDeps) (e : WriteDeps) (draw : String → String) (ctx : BrokerContext) where
  abbrev pub with_rev : String → WriteDeps
  with_rev rev = record e { new_rev = rev }

  abbrev pub apply_decision :
      BatchDecision
      → String
      → CollectionConfig
      → ActiveGrant
      → RevisionRow
      → String
      → RevisionTable
      → Applied
  apply_decision dcn name c grant proposal pk rows = elim dcn.action [
    | approve ↦ apply_approval (with_rev (draw dcn.proposal_id)) ctx name c grant pk proposal rows
    | reject ↦ apply_rejection (with_rev (draw dcn.proposal_id)) ctx name c grant pk proposal rows
  ]

  abbrev pub fails : BatchDecision → String → Step
  fails dcn why = aborts (record { proposal_id = dcn.proposal_id; reason = why })

  abbrev pub on_applied : BatchDecision → String → Tables → Applied → Step
  on_applied dcn name s (done id rev rows entry) =
      stepped
        (record {
          proposal_id = dcn.proposal_id;
          action = dcn.action;
          document_id = id;
          rev = rev;
          audit_id = none;
        })
        (record { tables = insert name rows s.tables; change_log = s.change_log ++ entry ∷ [] })
  on_applied dcn name s (stopped why) = fails dcn why
  on_applied dcn name s lost_race = fails dcn "conflict"
  on_applied dcn name s fault = faults

  abbrev pub on_authorized :
      BatchDecision
      → Pending
      → Option CollectionConfig
      → Option ActiveGrant
      → Tables
      → Authorized
      → Step
  on_authorized dcn p c grant s (denied why g) = fails dcn why
  on_authorized dcn p (some c) (some grant) s (authorized pk) =
      on_applied dcn p.collection s
        (apply_decision dcn p.collection c grant p.row pk (table_of p.collection s))
  on_authorized dcn p _ _ s (authorized pk) = faults

  abbrev pub on_located :
      BatchDecision → List (String × ActiveGrant) → Tables → Option Pending → Step
  on_located dcn grants s none = fails dcn "not_found"
  on_located dcn grants s (some p) =
      let c = find_collection d.cfg p.collection in
      let grant = lookup p.collection grants in
      on_authorized dcn p c grant s (authorize_decision e.platform ctx c grant p.row dcn.action)

  unfoldable pub decide_one :
      List (String × Pending) → List (String × ActiveGrant) → BatchDecision → Tables → Step
  unfolding authorize_decision apply_approval apply_rejection
  decide_one located grants dcn s = on_located dcn grants s (lookup dcn.proposal_id located)

  abbrev pub prepend : DecisionOutcome → Progress → Progress
  prepend o (finished os s) = finished (o ∷ os) s
  prepend o (aborted f) = aborted f
  prepend o faulted = faulted

  -- One decision after the other, each on the tables that the one before it left.
  unfoldable pub decide_all :
      List (String × Pending) → List (String × ActiveGrant) → List BatchDecision → Tables → Progress
  unfolding decide_one
  decide_all located grants [] s = finished [] s
  decide_all located grants (dcn ∷ rest) s = elim (decide_one located grants dcn s) [
    | stepped o s' ↦ prepend o (decide_all located grants rest s')
    | aborts f ↦ aborted f
    | faults ↦ faulted
  ]
