-- ===== src/Verbs/Propose/Dataset.antt =====
-- proposeDataset of packages/broker/src/verbs/propose.ts: a write under a grant that may only
-- propose is parked as a pending revision. The transaction is that of the direct write: it commits
-- its store or, where it throws, leaves the store as it was.
pub mod Drafts
pub mod Laws
use warehousd.Prelude.{
  ℕ, ◌+◌, String, Bool, true, false, not, ◌&&◌, ◌||◌, Option, none, some, List, [], ◌∷◌, ◌++◌, any,
  keys, if◌then◌else◌, ◌==◌,
}
use warehousd.Context.{Env, BrokerContext}
use warehousd.Config.{CollectionConfig}
use warehousd.Config.Fields.{pk_of}
use warehousd.Value.{Scalar, Value, one, Document, get}
use warehousd.Grants.Filters.{admits, admits_post_image}
use warehousd.Grants.Eval.{ActiveGrant}
use warehousd.Revisions.{
  RevisionOp, RevisionStatus, pending, RevisionRow, RevisionTable, next_data_row, insert_revision,
  current_revision,
}
use warehousd.Audit.{
  AuditWriter, AuditedAllow, AuditedRefusal, recorded, unrecorded, Trail, allow_mutation,
}
use warehousd.Verbs.Guard.{audit_grant}
use warehousd.Verbs.Mutate.Intent.{
  MutationIntent, create, update, delete, collection_of, op_of, id_of, values_of, ChangeLogEntry,
  Store, WriteDeps, refuse_intent,
}
use warehousd.Verbs.Mutate.Dataset.{
  coerce_values, with_acl, with_id, is_undefined, is_delete, first_met,
}

-- A write that waits, by the id of its revision and of its audit row, or a refusal.
pub data ProposeResult : Type 0 where
  parked : String → Option String → ProposeResult
  declined : AuditedRefusal → ProposeResult

pub data Proposing : Type 0 where
  commits : ProposeResult → Store → Trail → Proposing
  throws : Trail → Proposing

abbrev pub is_pending : RevisionStatus → Bool
is_pending pending = true
is_pending _ = false

-- The columns of a pending revision, besides those that say which document it is for.
pub record Draft : Type 0 where
  pub seq : ℕ
  pub op : RevisionOp
  pub fields : List String
  pub base : Option ℕ
  pub columns : Document

module _ (e : WriteDeps) (w : AuditWriter) (ctx : BrokerContext) (c : CollectionConfig)
    (grant : ActiveGrant) (intent : MutationIntent) where
  abbrev pub decline : String → Store → Trail → Proposing
  decline why store trail =
      let (r, trail') = refuse_intent w intent (some (audit_grant grant)) why trail in
      commits (declined r) store trail'

  abbrev pub unless_met : Option String → Store → Trail → Proposing → Proposing
  unless_met none store trail next = next
  unless_met (some why) store trail next = decline why store trail

  -- assertRecorded
  abbrev pub assert_parked : Store → AuditedAllow × Trail → Proposing
  assert_parked store (recorded id, trail) = commits (parked e.new_rev id) store trail
  assert_parked store (unrecorded, trail) = throws trail

  -- The change log's entry and the audit row, once the pending revision is in the table.
  abbrev pub record_proposal :
      String → List String → Option RevisionTable → Store → Trail → Proposing
  record_proposal document_id fields none store trail = throws trail
  record_proposal document_id fields (some revisions) store trail =
      let entry : ChangeLogEntry = record {
        workspace_id = ctx.workspace_id;
        collection = collection_of intent;
        document_id = document_id;
        rev = e.new_rev;
        op = op_of intent;
        status = "pending";
        by = ctx.user_id;
      } in
      assert_parked (record { revisions = revisions; change_log = store.change_log ++ entry ∷ [] })
        (allow_mutation w (collection_of intent) (op_of intent) (id_of intent)
          (some (audit_grant grant)) fields trail)

  -- Never current: it is invisible to every read until it is approved.
  abbrev pub pending_revision : Draft → RevisionRow
  pending_revision d = record {
    rev = e.new_rev;
    seq = d.seq;
    by = ctx.user_id;
    op = d.op;
    status = pending;
    fields = d.fields;
    base = d.base;
    current = false;
    workspace_id = ctx.workspace_id;
    columns = d.columns;
  }

  abbrev pub park : String → String → Draft → Store → Trail → Proposing
  park pk document_id d store trail =
      record_proposal document_id d.fields
        (insert_revision e.same_key pk c (pending_revision d) store.revisions) store trail

  -- A revision that holds the key already, or is proposed for it.
  abbrev pub is_clash : String → Value → RevisionRow → Bool
  is_clash pk id r =
      r.workspace_id == ctx.workspace_id
      && e.same_key (get pk r.columns) id
      && (r.current || is_pending r.status)

  abbrev pub create_declines : String → Document → Store → List (Bool × String)
  create_declines pk coerced store =
      (is_undefined (get pk coerced), "invalid_intent")
      ∷ (
        not (admits_post_image e.platform (next_data_row c none coerced) grant.document_filter c),
        "not_found",
      )
      ∷ (any (is_clash pk (get pk coerced)) store.revisions, "conflict")
      ∷ []

  abbrev pub create_draft : Document → Draft
  create_draft coerced = record {
    seq = 1;
    op = RevisionOp.create;
    fields = keys coerced;
    base = none;
    columns = coerced;
  }

  abbrev pub propose_create : String → Document → Store → Trail → Proposing
  propose_create pk coerced store trail =
      unless_met (first_met (create_declines pk coerced store)) store trail
        (park pk (e.conversions.text_of (get pk coerced)) (create_draft coerced) store trail)

  abbrev pub revise_declines : String → Document → RevisionRow → List (Bool × String)
  revise_declines pk coerced current =
      (
        not (
            admits e.platform (with_acl e ctx.workspace_id (collection_of intent) c pk current)
              grant.document_filter grant.principals c),
        "not_found",
      )
      ∷ (
        not (is_delete intent)
            && not (
                admits_post_image e.platform (next_data_row c (some current.columns) coerced)
                  grant.document_filter c),
        "not_found",
      )
      ∷ []

  abbrev pub revise_draft : Document → RevisionRow → Draft
  revise_draft coerced current = record {
    seq = current.seq + 1;
    op = if is_delete intent then RevisionOp.delete else RevisionOp.update;
    fields = if is_delete intent then [] else keys coerced;
    base = some current.seq;
    columns = next_data_row c (some current.columns) coerced;
  }

  abbrev pub propose_on :
      String → String → Document → Option RevisionRow → Store → Trail → Proposing
  propose_on pk id coerced none store trail = decline "not_found" store trail
  propose_on pk id coerced (some current) store trail =
      unless_met (first_met (revise_declines pk coerced current)) store trail
        (park pk id (revise_draft coerced current) store trail)

  abbrev pub find_base : String → String → Store → Option RevisionRow
  find_base pk id store =
      current_revision e.same_key pk ctx.workspace_id (one (Scalar.str id)) store.revisions

  abbrev pub proposing : MutationIntent → String → Document → Store → Trail → Proposing
  proposing (create _ _) pk coerced store trail =
      propose_create pk (with_id e w ctx c grant intent pk coerced) store trail
  proposing (update _ id expect _) pk coerced store trail =
      propose_on pk id coerced (find_base pk id store) store trail
  proposing (delete _ id expect) pk coerced store trail =
      propose_on pk id coerced (find_base pk id store) store trail

  abbrev pub settle_transaction : Store → Proposing → ProposeResult × Store × Trail
  settle_transaction before (commits result store trail) = (result, store, trail)
  settle_transaction before (throws trail) =
      let (r, trail') = refuse_intent w intent (some (audit_grant grant)) "internal_error" trail in
      (declined r, before, trail')

  module _ (has_write_pool : Env → Bool) where
    abbrev pub on_coerced : String → Option Document → Store → Trail → ProposeResult × Store × Trail
    on_coerced pk none store trail = settle_transaction store (decline "invalid_value" store trail)
    on_coerced pk (some coerced) store trail =
        if has_write_pool ctx.env
        then settle_transaction store (proposing intent pk coerced store trail)
        else settle_transaction store (decline "not_writable" store trail)

    abbrev pub on_pk : Option String → Store → Trail → ProposeResult × Store × Trail
    on_pk none store trail = settle_transaction store (decline "invalid_intent" store trail)
    on_pk (some pk) store trail = on_coerced pk (coerce_values e c (values_of intent)) store trail

    unfoldable pub propose_dataset : Store → Trail → ProposeResult × Store × Trail
    unfolding coerce_values
    propose_dataset store trail = on_pk (pk_of c) store trail
