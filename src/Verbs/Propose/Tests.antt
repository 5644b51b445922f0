-- ===== src/Verbs/Propose/Tests.antt =====
-- Runs of verbs/propose.ts, and its theorems at the scenario: ann proposes a new name, and bob, who
-- holds `approve`, decides.
use warehousd.Prelude.{
  ap, ◌∙◌, sym, arith, false≢true, ◌==◌, String, ◌≡◌, ◌≢◌, refl, Bool, true, false, none, some,
  List, [], ◌∷◌, All, includes, if◌then◌else◌, ◌==◌,
}
use warehousd.Context.{Env, BrokerContext}
use warehousd.Config.{find_collection}
use warehousd.Config.Posture.{normalize_posture}
use warehousd.Config.Fields.{pk_of, revisable_collections}
use warehousd.Value.{Scalar, one, get}
use warehousd.Grants.Table.{absent, GrantRow}
use warehousd.Grants.Filters.{admits, admits_post_image, validate_document_filters}
use warehousd.Grants.Eval.{ActiveGrant}
use warehousd.Revisions.{
  RevisionOp, RevisionStatus, RevisionRow, RevisionTable, current_revision, next_data_row,
  insert_revision, demote_revision,
}
use warehousd.Audit.{Trail, AuditWriter, allow_mutation}
use warehousd.Verbs.Guard.{VerbDeps}
use warehousd.Verbs.Mutate.Intent.{ChangeLogEntry, WriteDeps}
use warehousd.Verbs.Propose.Decision.{
  copy_columns, approve, authorized, authorize_decision, merged_columns, base_of,
}
use warehousd.Verbs.Propose.Decision.Laws.{
  MayDecide, authorize_decision-MayDecide, merged_columns_lem,
}
use warehousd.Verbs.Propose.Dataset.{parked, propose_dataset}
use warehousd.Verbs.Propose.Dataset.Laws.{
  Answers, IsProposed, propose_dataset_lem, propose_dataset_invisible,
}
use warehousd.Verbs.Propose.Apply.{done, changed_since, apply_approval}
use warehousd.Revisions.Current.{HasOneCurrent}
use warehousd.Scenario.Keys.{same_text-IsKeyEquality}
use mathlib.Core.List.{Memᴰ}
use warehousd.Verbs.Propose.Apply.Outcome.{
  IsUnmoved, IsBasis, approved_row, Ends, apply_approval-Ends,
}
use warehousd.Verbs.Propose.Apply.Success.{apply_approval-succeeds}
use warehousd.Verbs.Propose.Review.{
  ShownProposal, shown, ProposalSummary, listed, get_proposal, list_proposals,
}
use warehousd.Verbs.Propose.Review.Laws.{IsShown, get_proposal-Reviews}
use warehousd.Verbs.Propose.Single.{approved_as, retired, approve_proposal, reject_proposal}
use warehousd.Verbs.Propose.Tables.{
  Tables, BatchDecision, DecisionOutcome, BatchResult, Pending, DeclinedOutcome, decided, undecided,
}
use warehousd.Verbs.Propose.Decide.History.{KeepsTable}
use warehousd.Verbs.Propose.Batch.{decide_proposals}
use warehousd.Verbs.Propose.Batch.Core.{Runs, decide_proposals-Runs}
use warehousd.Verbs.Propose.Batch.Laws.{
  IsDecided, made, located, decide_proposals_four_eyes, decide_proposals-KeepsTable,
}
use warehousd.Scenario.{
  people, ann, active, deps, writer, write_deps, same_text, first, store, rename, given,
}

abbrev pools : Env → Bool
pools env = true

abbrev bob : BrokerContext
bob = record ann { user_id = "bob" }

abbrev bob_grant : GrantRow
bob_grant = record given {
  id = "g3";
  user_id = "bob";
  verbs = some ("read" ∷ "approve" ∷ []);
  principal = some "user:bob";
  document_filter = absent;
}

abbrev bob_deps : VerbDeps
bob_deps = record deps { grants = bob_grant ∷ [] }

abbrev bob_writer : AuditWriter
bob_writer = record writer { ctx = bob; batch_id = some "b1" }

abbrev draw : String → String
draw id = "r3"

abbrev proposal : RevisionRow
proposal = record {
  rev = "r2";
  seq = 2;
  by = "ann";
  op = RevisionOp.update;
  status = RevisionStatus.pending;
  fields = "name" ∷ [];
  base = some 1;
  current = false;
  workspace_id = "default";
  columns =
      ("id", one (Scalar.str "p1"))
      ∷ ("name", one (Scalar.str "anna"))
      ∷ ("email", one (Scalar.str "ann@example.org"))
      ∷ ("salary", one (Scalar.str "1"))
      ∷ [];
}

abbrev tables : Tables
tables = record { tables = ("people", first ∷ proposal ∷ []) ∷ []; change_log = [] }

abbrev yes_please : List BatchDecision
yes_please = record { proposal_id = "r2"; action = approve } ∷ []

parked_run :
    (propose_dataset write_deps writer ann people active (rename none "ann") pools store []).0
    ≡ parked "r2" (some "a1")
unfolding propose_dataset pk_of current_revision admits admits_post_image next_data_row
    insert_revision allow_mutation
parked_run = refl

abbrev outcome : DecisionOutcome
outcome = record {
  proposal_id = "r2";
  action = approve;
  document_id = "p1";
  rev = some "r3";
  audit_id = some "a1";
}

decided_run :
    (decide_proposals bob_deps write_deps draw pools bob_writer bob yes_please tables []).0
    ≡ decided (outcome ∷ [])
unfolding decide_proposals revisable_collections find_collection pk_of validate_document_filters
    admits changed_since admits_post_image demote_revision
decided_run = refl

-- The proposer may not decide, whatever they hold.
abbrev ann_deps : VerbDeps
ann_deps = record deps {
  grants = record bob_grant { user_id = "ann"; principal = some "user:ann" } ∷ [];
}

abbrev declined_outcome : DeclinedOutcome
declined_outcome = record {
  proposal_id = "r2";
  action = approve;
  reason = "self_approval_denied";
  audit_id = some "a1";
}

own_run :
    (decide_proposals ann_deps write_deps draw pools writer ann yes_please tables []).0
    ≡ undecided "self_approval_denied" (some "r2") (declined_outcome ∷ [])
unfolding decide_proposals revisable_collections find_collection pk_of
own_run = refl

propose_dataset_example :
    Answers write_deps writer ann people active
      (rename none "ann")
      (IsProposed write_deps writer ann people active (rename none "ann") pools store)
      store
      (propose_dataset write_deps writer ann people active (rename none "ann") pools store [])
propose_dataset_example =
    propose_dataset_lem write_deps writer ann people active (rename none "ann") pools store []

propose_dataset_invisible_example :
    current_revision same_text "id" "default"
      (one (Scalar.str "p1"))
      (propose_dataset write_deps writer ann people active
        (rename none "ann")
        pools
        store
        []).1.revisions
    ≡ current_revision same_text "id" "default" (one (Scalar.str "p1")) store.revisions
propose_dataset_invisible_example =
    propose_dataset_invisible write_deps writer ann people active (rename none "ann") pools store []
      "id" "default" (one (Scalar.str "p1"))

abbrev approver : ActiveGrant
approver = record active {
  id = "g3";
  document_filter = [];
  verbs = "read" ∷ "approve" ∷ [];
  principals = "user:bob" ∷ [];
  principal = "user:bob";
}

authorized_run :
    authorize_decision write_deps.platform bob (some people) (some approver) proposal approve
    ≡ authorized "id"
unfolding authorize_decision pk_of validate_document_filters
authorized_run = refl

authorize_decision-MayDecide_example :
    MayDecide write_deps.platform bob people approver proposal approve "id"
authorize_decision-MayDecide_example =
    authorize_decision-MayDecide write_deps.platform bob (some people) (some approver) proposal
      approve "id" authorized_run

merged_columns_example : get "name" (merged_columns people proposal (some first)) ≡ (
    if includes proposal.fields "name"
    then get "name" proposal.columns
    else get "name" (base_of proposal (some first)).columns)
merged_columns_example = merged_columns_lem people proposal (some first) "name" refl

abbrev redrawn : WriteDeps
redrawn = record write_deps { new_rev = "r3" }

other_rev : ◌≢◌ {A = String} "r3" "r2"
other_rev e = false≢true (ap (λ (x : String). x == "r2") e)

new_rev-fresh : redrawn.new_rev ≢ proposal.rev
new_rev-fresh = other_rev

apply_approval-Ends_example :
    Ends redrawn bob "people" people approver "id" proposal
      (first ∷ proposal ∷ [])
      (apply_approval redrawn bob "people" people approver "id" proposal (first ∷ proposal ∷ []))
apply_approval-Ends_example =
    apply_approval-Ends redrawn bob "people" people approver "id" proposal (first ∷ proposal ∷ [])
      new_rev-fresh

unmoved : IsUnmoved redrawn bob "people" people approver "id" proposal (first ∷ proposal ∷ [])
unmoved base f r b n (Memᴰ.head e) place key status later =
    ground (arith, ap (λ (x : RevisionRow). x.fields) e)
unmoved base f r b n (Memᴰ.tail (Memᴰ.head e)) place key status later =
    absurd (apart (sym (ap (λ (x : RevisionRow). x.status) e) ∙ status))
  where
    apart : RevisionStatus.pending ≡ RevisionStatus.approved → ⊥
    apart k = cc
unmoved base f r b n (Memᴰ.tail (Memᴰ.tail m)) place key status later = elim m [ ]

basis :
    IsBasis redrawn bob "people" people approver "id" proposal (first ∷ proposal ∷ []) (some first)
unfolding current_revision admits
basis = (changed, refl, refl, unmoved)
  where
    changed : RevisionOp.update ≡ RevisionOp.create → ⊥
    changed k = cc

apply_approval-succeeds_example :
    (id : String) × (after : RevisionTable) × (entry : ChangeLogEntry) × (apply_approval redrawn bob
        "people" people approver "id" proposal
        (first ∷ proposal ∷ [])
      ≡ done id (some "r3") after entry)
    × HasOneCurrent same_text "id" after
    × (current_revision same_text "id" "default" (one (Scalar.str "p1")) after
        ≡ some (approved_row redrawn bob "people" people approver "id" proposal (some first)))
unfolding admits_post_image
apply_approval-succeeds_example =
    apply_approval-succeeds redrawn bob "people" people approver "id" proposal
      (first ∷ proposal ∷ []) first same_text-IsKeyEquality new_rev-fresh
      ((λ _. refl), ((λ t. absurd (cc)), tt)) basis (λ _. refl) refl refl refl

decide_proposals-Runs_example :
    Runs bob_deps write_deps draw pools bob_writer bob yes_please tables
      (decide_proposals bob_deps write_deps draw pools bob_writer bob yes_please tables [])
decide_proposals-Runs_example =
    decide_proposals-Runs bob_deps write_deps draw pools bob_writer bob yes_please tables []

decide_proposals_four_eyes_example :
    All (IsDecided bob_deps write_deps draw pools bob_writer bob tables) yes_please
decide_proposals_four_eyes_example =
    decide_proposals_four_eyes bob_deps write_deps draw pools bob_writer bob yes_please tables []
      (outcome ∷ []) decided_run

abbrev answer : BatchResult × Tables × Trail
answer = decide_proposals bob_deps write_deps draw pools bob_writer bob yes_please tables []

abbrev pending_ones : List (String × Pending)
pending_ones = located bob_deps write_deps draw pools bob_writer bob yes_please tables

decide_proposals-KeepsTable_example :
    KeepsTable bob_deps write_deps draw bob pending_ones [] "people"
      (made bob_deps write_deps draw pools bob_writer bob yes_please tables answer.0)
      tables
      answer.1
decide_proposals-KeepsTable_example =
    decide_proposals-KeepsTable bob_deps write_deps draw pools bob_writer bob yes_please tables []
      "people"

get_proposal-Reviews_example :
    IsShown bob_deps write_deps pools bob_writer bob tables "r2"
      (get_proposal bob_deps write_deps pools bob_writer bob tables "r2" []).0
get_proposal-Reviews_example =
    get_proposal-Reviews bob_deps write_deps pools bob_writer bob tables "r2" []

abbrev seen : ShownProposal
seen = record {
  collection = "people";
  op = "update";
  document_id = "p1";
  proposed_by = "ann";
  fields = "name" ∷ [];
  values = ("name", one (Scalar.str "anna")) ∷ [];
  masked_fields = "email" ∷ [];
  fields_returned = "name" ∷ [];
  audit_id = some "a1";
}

seen_run : (get_proposal bob_deps write_deps pools bob_writer bob tables "r2" []).0 ≡ shown seen
unfolding get_proposal revisable_collections validate_document_filters admits pk_of copy_columns
    normalize_posture
seen_run = refl

abbrev listed_one : ProposalSummary
listed_one = record {
  proposal_id = "r2";
  collection = "people";
  op = "update";
  fields = "name" ∷ [];
  proposed_by = "ann";
  document_id = "p1";
}

listed_run :
    (list_proposals bob_deps write_deps pools bob_writer bob tables none none []).0
    ≡ listed (listed_one ∷ []) (some "a1")
unfolding list_proposals find_collection validate_document_filters admits pk_of copy_columns
listed_run = refl

approve_run :
    (approve_proposal bob_deps write_deps draw pools bob_writer bob tables "r2" []).0
    ≡ approved_as "p1" "r3" (some "a1")
unfolding approve_proposal revisable_collections find_collection pk_of validate_document_filters
    admits changed_since admits_post_image demote_revision
approve_run = refl

reject_run :
    (reject_proposal bob_deps write_deps draw pools bob_writer bob tables "r2" []).0
    ≡ retired (some "a1")
unfolding reject_proposal revisable_collections find_collection pk_of
reject_run = refl
