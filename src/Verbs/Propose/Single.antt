-- ===== src/Verbs/Propose/Single.antt =====
-- approveProposal and rejectProposal of packages/broker/src/verbs/propose.ts: batches of one decision.
use warehousd.Prelude.{String, Bool, ◌≡◌, refl, Option, none, some, List, [], ◌∷◌, All}
use warehousd.Context.{Env, BrokerContext}
use warehousd.Audit.{AuditWriter, Trail}
use warehousd.Verbs.Guard.{VerbDeps}
use warehousd.Verbs.Mutate.Intent.{WriteDeps}
use warehousd.Verbs.Propose.Decision.{ProposalAction, approve, reject}
use warehousd.Verbs.Propose.Tables.{
  Tables, BatchDecision, DecisionOutcome, DeclinedOutcome, BatchResult, decided, undecided,
}
use warehousd.Verbs.Propose.Batch.{decide_proposals}
use warehousd.Verbs.Propose.Batch.Laws.{IsDecided, decide_proposals_four_eyes}

pub data DecisionResult : Type 0 where
  approved_as : String → String → Option String → DecisionResult
  not_approved : String → Option String → DecisionResult

pub data RejectionResult : Type 0 where
  retired : Option String → RejectionResult
  not_retired : String → Option String → RejectionResult

abbrev first_audit : List DeclinedOutcome → Option String
first_audit [] = none
first_audit (o ∷ os) = o.audit_id

-- An outcome without a revision is the source's defensive refusal.
abbrev on_rev : DecisionOutcome → Option String → DecisionResult
on_rev o none = not_approved "internal_error" o.audit_id
on_rev o (some rev) = approved_as o.document_id rev o.audit_id

abbrev approval_answer : BatchResult → DecisionResult
approval_answer (undecided why id os) = not_approved why (first_audit os)
approval_answer (decided []) = not_approved "internal_error" none
approval_answer (decided (o ∷ os)) = on_rev o o.rev

abbrev rejection_answer : BatchResult → RejectionResult
rejection_answer (undecided why id os) = not_retired why (first_audit os)
rejection_answer (decided []) = not_retired "internal_error" none
rejection_answer (decided (o ∷ os)) = retired o.audit_id

abbrev one_decision : String → ProposalAction → List BatchDecision
one_decision id action = record { proposal_id = id; action = action } ∷ []

module _ (d : VerbDeps) (e : WriteDeps) (draw : String → String) (has_write_pool : Env → Bool)
    (w : AuditWriter) (ctx : BrokerContext) where
  unfoldable pub approve_proposal : Tables → String → Trail → DecisionResult × Tables × Trail
  unfolding decide_proposals
  approve_proposal s id trail =
      let (r, after, trail') =
        decide_proposals d e draw has_write_pool w ctx (one_decision id approve) s trail in
      (approval_answer r, after, trail')

  unfoldable pub reject_proposal : Tables → String → Trail → RejectionResult × Tables × Trail
  unfolding decide_proposals
  reject_proposal s id trail =
      let (r, after, trail') =
        decide_proposals d e draw has_write_pool w ctx (one_decision id reject) s trail in
      (rejection_answer r, after, trail')

  -- An approval goes through only for a second person whose grant carries `approve`.
  approve_proposal_four_eyes :
      (s : Tables) (id : String) (trail : Trail) (doc rev : String) (audit_id : Option String)
      → (approve_proposal s id trail).0 ≡ approved_as doc rev audit_id
      → All (IsDecided d e draw has_write_pool w ctx s) (one_decision id approve)
  unfolding approve_proposal
  approve_proposal_four_eyes s id trail doc rev audit_id h =
      at_batch (decide_proposals d e draw has_write_pool w ctx (one_decision id approve) s trail).0
        refl h
    where
      at_batch :
          (r : BatchResult)
          → (decide_proposals d e draw has_write_pool w ctx (one_decision id approve) s trail).0 ≡ r
          → approval_answer r ≡ approved_as doc rev audit_id
          → All (IsDecided d e draw has_write_pool w ctx s) (one_decision id approve)
      at_batch (undecided why failed os) k q = absurd (cc)
      at_batch (decided os) k q =
          decide_proposals_four_eyes d e draw has_write_pool w ctx (one_decision id approve) s trail
            os k
