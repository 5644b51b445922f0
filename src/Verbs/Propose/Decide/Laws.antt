-- ===== src/Verbs/Propose/Decide/Laws.antt =====
-- What each decision of a batch has passed when the loop is finished.
use warehousd.Prelude.{String, ◌≡◌, refl, Option, none, some, List, [], ◌∷◌, ◌++◌, lookup, insert}
use warehousd.Context.{BrokerContext}
use warehousd.Config.{CollectionConfig, find_collection}
use warehousd.Grants.Eval.{ActiveGrant}
use warehousd.Revisions.{RevisionTable}
use warehousd.Verbs.Guard.{VerbDeps}
use warehousd.Verbs.Mutate.Intent.{ChangeLogEntry, WriteDeps}
use warehousd.Verbs.Propose.Decision.{Authorized, authorized, denied, authorize_decision}
use warehousd.Verbs.Propose.Decision.Laws.{MayDecide, authorize_decision-MayDecide}
use warehousd.Verbs.Propose.Apply.{Applied, done, stopped, lost_race, fault}
use warehousd.Verbs.Propose.Tables.{
  Tables, BatchDecision, Pending, DecisionOutcome, Step, stepped, aborts, faults, Progress,
  finished, aborted, faulted, table_of,
}
use warehousd.Verbs.Propose.Decide.{
  apply_decision, on_applied, on_authorized, on_located, decide_one, prepend, decide_all,
}

module _ (d : VerbDeps) (e : WriteDeps) (draw : String → String) (ctx : BrokerContext)
    (located : List (String × Pending)) (grants : List (String × ActiveGrant)) where
  -- The proposal was located, its collection and a grant on it were found, and they allow it.
  pub record IsCleared (dcn : BatchDecision) (p : Pending) (c : CollectionConfig)
      (grant : ActiveGrant) (pk : String) : Type 0 where
    pub found : lookup dcn.proposal_id located ≡ some p
    pub declared : find_collection d.cfg p.collection ≡ some c
    pub active : lookup p.collection grants ≡ some grant
    pub permitted : MayDecide e.platform ctx c grant p.row dcn.action pk

  -- The decision did its work on the table of the proposal's collection, and that table and the
  -- change log are all that changed.
  pub record IsStep (dcn : BatchDecision) (p : Pending) (c : CollectionConfig) (grant : ActiveGrant)
      (pk : String) (o : DecisionOutcome) (before after : Tables) : Type 0 where
    pub rows : RevisionTable
    pub entry : ChangeLogEntry
    pub worked :
        apply_decision d e draw ctx dcn p.collection c grant p.row pk (table_of p.collection before)
        ≡ done o.document_id o.rev rows entry
    pub named : o.proposal_id ≡ dcn.proposal_id
    pub left : after ≡ record {
      tables = insert p.collection rows before.tables;
      change_log = before.change_log ++ entry ∷ [];
    }

  abbrev pub Made : BatchDecision → DecisionOutcome → Tables → Tables → Type 0
  Made dcn o before after =
      (p : Pending) × (c : CollectionConfig) × (grant : ActiveGrant) × (pk : String) × IsCleared dcn
        p c grant pk
      × IsStep dcn p c grant pk o before after

  abbrev pub Stepped : BatchDecision → Tables → Step → Type 0
  Stepped dcn before (stepped o after) = Made dcn o before after
  Stepped dcn before (aborts f) = Unit
  Stepped dcn before faults = Unit

  on_applied-Stepped :
      (dcn : BatchDecision) (p : Pending) (c : CollectionConfig) (grant : ActiveGrant) (pk : String)
      (s : Tables) (a : Applied)
      → IsCleared dcn p c grant pk
      → apply_decision d e draw ctx dcn p.collection c grant p.row pk (table_of p.collection s) ≡ a
      → Stepped dcn s (on_applied d e draw ctx dcn p.collection s a)
  on_applied-Stepped dcn p c grant pk s (done id rev rows entry) k h = (
    p,
    c,
    grant,
    pk,
    k,
    record { rows = rows; entry = entry; worked = h; named = refl; left = refl },
  )
  on_applied-Stepped dcn p c grant pk s (stopped why) k h = tt
  on_applied-Stepped dcn p c grant pk s lost_race k h = tt
  on_applied-Stepped dcn p c grant pk s fault k h = tt

  on_authorized-Stepped :
      (dcn : BatchDecision) (p : Pending) (oc : Option CollectionConfig) (og : Option ActiveGrant)
      (s : Tables) (a : Authorized)
      → lookup dcn.proposal_id located ≡ some p
      → find_collection d.cfg p.collection ≡ oc
      → lookup p.collection grants ≡ og
      → authorize_decision e.platform ctx oc og p.row dcn.action ≡ a
      → Stepped dcn s (on_authorized d e draw ctx dcn p oc og s a)
  on_authorized-Stepped dcn p oc og s (denied why g) l f k h = tt
  on_authorized-Stepped dcn p none none s (authorized pk) l f k h = tt
  on_authorized-Stepped dcn p none (some g) s (authorized pk) l f k h = tt
  on_authorized-Stepped dcn p (some c) none s (authorized pk) l f k h = tt
  on_authorized-Stepped dcn p (some c) (some g) s (authorized pk) l f k h =
      on_applied-Stepped dcn p c g pk s _
        (record {
          found = l;
          declared = f;
          active = k;
          permitted =
              authorize_decision-MayDecide e.platform ctx (some c) (some g) p.row dcn.action pk h;
        })
        refl

  decide_one-Stepped :
      (dcn : BatchDecision) (s : Tables)
      → Stepped dcn s (decide_one d e draw ctx located grants dcn s)
  unfolding decide_one
  decide_one-Stepped dcn s = at_found (lookup dcn.proposal_id located) refl
    where
      at_found :
          (o : Option Pending)
          → lookup dcn.proposal_id located ≡ o
          → Stepped dcn s (on_located d e draw ctx dcn grants s o)
      at_found none h = tt
      at_found (some p) h =
          on_authorized-Stepped dcn p (find_collection d.cfg p.collection)
            (lookup p.collection grants) s _ h refl refl refl

  -- The decisions of a finished loop as one chain of steps from the first tables to the last.
  pub data Chain : List BatchDecision → List DecisionOutcome → Tables → Tables → Type 0 where
    stop : (s : Tables) → Chain [] [] s s
    link :
        (dcn : BatchDecision) (rest : List BatchDecision) (o : DecisionOutcome)
        (os : List DecisionOutcome) (before between after : Tables)
        → Made dcn o before between
        → Chain rest os between after
        → Chain (dcn ∷ rest) (o ∷ os) before after

  abbrev pub Finished : List BatchDecision → Tables → Progress → Type 0
  Finished decisions before (finished os after) = Chain decisions os before after
  Finished decisions before (aborted f) = Unit
  Finished decisions before faulted = Unit

  prepend-Finished :
      (dcn : BatchDecision) (rest : List BatchDecision) (o : DecisionOutcome)
      (before between : Tables) (p : Progress)
      → Made dcn o before between
      → Finished rest between p
      → Finished (dcn ∷ rest) before (prepend d e draw ctx o p)
  prepend-Finished dcn rest o before between (finished os after) m h =
      link dcn rest o os before between after m h
  prepend-Finished dcn rest o before between (aborted f) m h = tt
  prepend-Finished dcn rest o before between faulted m h = tt

  -- A loop that comes to its end is one chain of steps, each of a decision that was cleared, on the
  -- tables that the step before it left.
  pub decide_all-Chain :
      (decisions : List BatchDecision) (s : Tables)
      → Finished decisions s (decide_all d e draw ctx located grants decisions s)
  unfolding decide_all
  decide_all-Chain [] s = stop s
  decide_all-Chain (dcn ∷ rest) s =
      at_step (decide_all-Chain rest) (decide_one d e draw ctx located grants dcn s)
        (decide_one-Stepped dcn s)
    where
      at_step :
          ((between : Tables)
            → Finished rest between (decide_all d e draw ctx located grants rest between))
          → (o : Step) → Stepped dcn s o
          → Finished (dcn ∷ rest) s (elim o [
            | stepped x s' ↦ prepend d e draw ctx x (decide_all d e draw ctx located grants rest s')
            | aborts f ↦ aborted f
            | faults ↦ faulted
          ])
      at_step ih (stepped o between) h = prepend-Finished dcn rest o s between _ h (ih between)
      at_step ih (aborts f) h = tt
      at_step ih faults h = tt
