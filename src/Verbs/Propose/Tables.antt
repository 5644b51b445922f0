-- ===== src/Verbs/Propose/Tables.antt =====
-- The tables that the decisions work on, and loadPendingMany of
-- packages/broker/src/verbs/propose.ts.
pub mod Laws
use warehousd.Prelude.{
  String, Bool, not, ◌&&◌, Option, none, some, List, [], ◌∷◌, ◌++◌, length, lookup, includes,
  is_some, or_default, nat_eq, if◌then◌else◌, ◌==◌,
}
use warehousd.Context.{BrokerContext}
use warehousd.Config.{CollectionConfig, find_collection}
use warehousd.Config.Fields.{pk_of, revisable_collections}
use warehousd.Revisions.{RevisionRow, RevisionTable}
use warehousd.Verbs.Guard.{VerbDeps}
use warehousd.Verbs.Mutate.Intent.{ChangeLogEntry, WriteDeps}
use warehousd.Verbs.Mutate.Dataset.{with_acl}
use warehousd.Verbs.Propose.Decision.{ProposalAction}
use warehousd.Verbs.Propose.Dataset.{is_pending}

-- The revision tables of one environment, by collection, and the change log.
pub record Tables : Type 0 where
  pub tables : List (String × RevisionTable)
  pub change_log : List ChangeLogEntry

pub record BatchDecision : Type 0 where
  pub proposal_id : String
  pub action : ProposalAction

pub record Pending : Type 0 where
  pub collection : String
  pub row : RevisionRow

pub record DecisionOutcome : Type 0 where
  pub proposal_id : String
  pub action : ProposalAction
  pub document_id : String
  pub rev : Option String
  pub audit_id : Option String

pub record DeclinedOutcome : Type 0 where
  pub proposal_id : String
  pub action : ProposalAction
  pub reason : String
  pub audit_id : Option String

pub data BatchResult : Type 0 where
  decided : List DecisionOutcome → BatchResult
  undecided : String → Option String → List DeclinedOutcome → BatchResult

-- The proposal whose refusal aborted the batch, and why.
pub record FailedDecision : Type 0 where
  pub proposal_id : String
  pub reason : String

pub data Step : Type 0 where
  stepped : DecisionOutcome → Tables → Step
  aborts : FailedDecision → Step
  faults : Step

pub data Progress : Type 0 where
  finished : List DecisionOutcome → Tables → Progress
  aborted : FailedDecision → Progress
  faulted : Progress

abbrev pub table_of : String → Tables → RevisionTable
table_of name s = or_default (lookup name s.tables) []

abbrev pub with_key :
    WriteDeps → String → String → CollectionConfig → Option String → RevisionRow → RevisionRow
with_key e ws coll c none r = r
with_key e ws coll c (some pk) r = record r { columns = with_acl e ws coll c pk r }

-- The row as `loadPendingMany` selects it, with its access list.
abbrev pub selected : WriteDeps → String → String → CollectionConfig → RevisionRow → RevisionRow
selected e ws coll c r = with_key e ws coll c (pk_of c) r

module _ (d : VerbDeps) (e : WriteDeps) (ctx : BrokerContext) where
  abbrev pub is_asked : List String → RevisionRow → Bool
  is_asked ids r = r.workspace_id == ctx.workspace_id && includes ids r.rev && is_pending r.status

  abbrev pub entry_of : String → CollectionConfig → RevisionRow → String × Pending
  entry_of coll c r =
      (r.rev, record { collection = coll; row = selected e ctx.workspace_id coll c r })

  pub collect :
      List String
      → String
      → CollectionConfig
      → RevisionTable
      → List (String × Pending)
      → List (String × Pending)
  collect ids coll c [] out = out
  collect ids coll c (r ∷ rows) out = collect ids coll c rows (
      if is_asked ids r && not (is_some (lookup r.rev out))
      then out ++ entry_of coll c r ∷ []
      else out)

  abbrev pub collect_from :
      List String
      → Tables
      → String
      → Option CollectionConfig
      → List (String × Pending)
      → List (String × Pending)
  collect_from ids s coll none out = out
  collect_from ids s coll (some c) out = collect ids coll c (table_of coll s) out

  load_from : List String → Tables → List String → List (String × Pending) → List (String × Pending)
  unfolding collect
  load_from ids s [] out = out
  load_from ids s (coll ∷ colls) out =
      if nat_eq (length out) (length ids)
      then out
      else load_from ids s colls (collect_from ids s coll (find_collection d.cfg coll) out)

  unfoldable pub load_pending_many : Tables → List String → List (String × Pending)
  unfolding load_from
  load_pending_many s ids = load_from ids s (revisable_collections d.cfg) []
