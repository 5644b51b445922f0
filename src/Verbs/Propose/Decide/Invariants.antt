-- ===== src/Verbs/Propose/Decide/Invariants.antt =====
-- What a decision leaves of the tables.
use warehousd.Prelude.{
  String, ◌≡◌, ap, ◌∙◌, subst, List, [], lookup, insert, lookup-insert, or_default, if◌then◌else◌,
  ◌==◌, arith,
}
use warehousd.Context.{BrokerContext}
use warehousd.Config.{CollectionConfig}
use warehousd.Grants.Eval.{ActiveGrant}
use warehousd.Revisions.{RevisionTable}
use warehousd.Verbs.Guard.{VerbDeps}
use warehousd.Verbs.Mutate.Intent.{WriteDeps}
use warehousd.Verbs.Propose.Decision.{ProposalAction, approve, reject}
use warehousd.Verbs.Propose.Apply.{apply_approval, apply_rejection}
use warehousd.Verbs.Propose.Apply.Marks.{Settles}
use warehousd.Verbs.Propose.Apply.Tables.{Leaves, apply_approval-Settles, apply_rejection-Settles}
use warehousd.Verbs.Propose.Tables.{Tables, BatchDecision, Pending, DecisionOutcome, table_of}
use warehousd.Verbs.Propose.Decide.{with_rev, apply_decision}
use warehousd.Verbs.Propose.Decide.Laws.{IsStep}

table_of-insert :
    (name coll : String) (rows : RevisionTable) (tables : List (String × RevisionTable))
    → or_default (lookup name (insert coll rows tables)) []
      ≡ (if coll == name then rows else or_default (lookup name tables) [])
table_of-insert name coll rows tables = ground (arith, lookup-insert name coll rows tables)

module _ (d : VerbDeps) (e : WriteDeps) (draw : String → String) (ctx : BrokerContext)
    (located : List (String × Pending)) (grants : List (String × ActiveGrant)) where
  module _ (dcn : BatchDecision) (p : Pending) (c : CollectionConfig) (grant : ActiveGrant)
      (pk : String) (o : DecisionOutcome) (before after : Tables) where
    abbrev Step : Type 0
    Step = IsStep d e draw ctx located grants dcn p c grant pk o before after

    -- What either decision leaves, the step leaves.
    step-Leaves :
        (Q : RevisionTable → Type 0)
        → Leaves Q (
            apply_approval
              (with_rev d e draw ctx (draw dcn.proposal_id))
              ctx
              p.collection
              c
              grant
              pk
              p.row
              (table_of p.collection before))
        → Leaves Q (
            apply_rejection
              (with_rev d e draw ctx (draw dcn.proposal_id))
              ctx
              p.collection
              c
              grant
              pk
              p.row
              (table_of p.collection before))
        → (h : Step) → Q h.rows
    step-Leaves Q on_approve on_reject h = subst (Leaves Q) h.worked (at_action dcn.action)
      where
        at_action :
            (a : ProposalAction)
            → Leaves Q (
                apply_decision d e draw ctx
                  (record dcn { action = a })
                  p.collection
                  c
                  grant
                  p.row
                  pk
                  (table_of p.collection before))
        at_action approve = on_approve
        at_action reject = on_reject

    pub step-table :
        (h : Step) (name : String)
        → table_of name after ≡ (if p.collection == name then h.rows else table_of name before)
    step-table h name =
        ap (table_of name) h.left ∙ table_of-insert name p.collection h.rows before.tables

    pub step-Settles : (h : Step) → Settles p.row.rev (table_of p.collection before) h.rows
    step-Settles h =
        let e' = with_rev d e draw ctx (draw dcn.proposal_id) in
        step-Leaves (Settles p.row.rev (table_of p.collection before))
          (apply_approval-Settles e' ctx p.collection c grant pk p.row
            (table_of p.collection before))
          (apply_rejection-Settles e' ctx p.collection c grant pk p.row
            (table_of p.collection before))
          h
