-- ===== src/Verbs/Propose/Apply.antt =====
-- resolveBase, commitRevision, applyApproval and applyRejection of
-- packages/broker/src/verbs/propose.ts: what one decision does inside the transaction. `rows` is the
-- table of the proposal's collection, and `proposal` the pending row with its access list.
pub mod Laws
pub mod Marks
pub mod Copied
pub mod Outcome
pub mod Success
pub mod Tables
use warehousd.Prelude.{
  ℕ, String, Bool, true, false, not, ◌&&◌, Option, none, some, List, [], ◌∷◌, ◌++◌, map, filter,
  any, keys, lookup, insert, includes, is_empty, ltb, if◌then◌else◌, ◌==◌,
}
use warehousd.Context.{BrokerContext}
use warehousd.Config.{CollectionConfig}
use warehousd.Value.{Scalar, Value, one, Document, get}
use warehousd.Grants.Filters.{acl_column, admits, admits_post_image}
use warehousd.Grants.Eval.{ActiveGrant}
use warehousd.Revisions.{
  RevisionOp, RevisionStatus, create, update, delete, approved, rejected, superseded, RevisionRow,
  RevisionTable, insert_revision, current_revision, demote_revision,
}
use warehousd.Verbs.Mutate.Intent.{ChangeLogEntry, WriteDeps}
use warehousd.Verbs.Mutate.Dataset.{with_acl}
use warehousd.Verbs.Propose.Decision.{
  proposed_fields_of, copy_columns, is_create_op, merge_revision,
}

-- The document and its new revision, the table and the entry of the change log; or a reason; or one
-- of the two errors, of the unique index and of anything else.
pub data Applied : Type 0 where
  done : String → Option String → RevisionTable → ChangeLogEntry → Applied
  stopped : String → Applied
  lost_race fault : Applied

pub data Base : Type 0 where
  on_top_of : Option RevisionRow → Base
  unfounded : String → Base

abbrev pub op_name : RevisionOp → String
op_name create = "create"
op_name update = "update"
op_name delete = "delete"

abbrev pub is_update_op : RevisionOp → Bool
is_update_op update = true
is_update_op _ = false

abbrev pub is_approved : RevisionStatus → Bool
is_approved approved = true
is_approved _ = false

abbrev pub set_status : String → RevisionStatus → RevisionRow → RevisionRow
set_status rev status r = if r.rev == rev then record r { status = status } else r

unfoldable pub mark_status : String → RevisionStatus → RevisionTable → RevisionTable
mark_status rev status rows = map (set_status rev status) rows

abbrev pub with_list : Option Value → Document → Document
with_list none d = d
with_list (some v) d = insert acl_column v d

fields_of_all : RevisionTable → List String
fields_of_all [] = []
fields_of_all (r ∷ rows) = r.fields ++ fields_of_all rows

-- `v ?? w`
abbrev pub nullish : Value → Value → Value
nullish (one Scalar.null) w = w
nullish (one Scalar.undefined) w = w
nullish v w = v

module _ (e : WriteDeps) (ctx : BrokerContext) (name : String) (c : CollectionConfig)
    (grant : ActiveGrant) (pk : String) (proposal : RevisionRow) where
  -- The proposed values of a create, with the access list that the row carries.
  abbrev pub proposed_document : Document
  proposed_document =
      with_list (lookup acl_column proposal.columns) (copy_columns (keys c.fields) proposal.columns)

  -- A revision of the document that was approved after the proposal's base.
  abbrev pub is_later : ℕ → RevisionRow → Bool
  is_later base r =
      r.workspace_id == ctx.workspace_id
      && e.same_key (get pk r.columns) (get pk proposal.columns)
      && is_approved r.status
      && ltb base r.seq

  unfoldable pub changed_since : ℕ → RevisionTable → List String
  unfolding fields_of_all
  changed_since base rows = fields_of_all (filter (is_later base) rows)

  abbrev pub has_moved : Option ℕ → RevisionTable → Bool
  has_moved none rows = false
  has_moved (some base) rows =
      not (is_empty (proposed_fields_of proposal))
      && any (includes (changed_since base rows)) (proposed_fields_of proposal)

  abbrev pub base_on : RevisionTable → Option RevisionRow → Base
  base_on rows none = unfounded "not_found"
  base_on rows (some current) =
      if not (
        admits e.platform (with_acl e ctx.workspace_id name c pk current) grant.document_filter
          grant.principals c)
      then unfounded "not_found"
      else if has_moved proposal.base rows
      then unfounded "conflict"
      else on_top_of (some current)

  unfoldable pub resolve_base : RevisionTable → Base
  unfolding current_revision
  resolve_base rows =
      if is_create_op proposal.op
      then if admits e.platform proposed_document grant.document_filter grant.principals c
        then on_top_of none
        else unfounded "not_found"
      else base_on rows
          (current_revision e.same_key pk ctx.workspace_id (get pk proposal.columns) rows)

  abbrev pub demote_base : Option RevisionRow → RevisionTable → RevisionTable
  demote_base none rows = rows
  demote_base (some current) rows = demote_revision current.rev rows

  -- Authorship survives the merge: the revision is the proposer's.
  abbrev pub merged_revision : Document → ℕ → RevisionRow
  merged_revision merged seq = record {
    rev = e.new_rev;
    seq = seq;
    by = proposal.by;
    op = proposal.op;
    status = approved;
    fields = proposed_fields_of proposal;
    base = proposal.base;
    current = true;
    workspace_id = ctx.workspace_id;
    columns = merged;
  }

  abbrev pub retire : Option RevisionTable → Option RevisionTable
  retire none = none
  retire (some rows) = some (mark_status proposal.rev superseded rows)

  -- `none` is the error of the unique index.
  unfoldable pub commit_revision :
      Option RevisionRow → Document → ℕ → RevisionTable → Option RevisionTable
  unfolding insert_revision mark_status
  commit_revision current merged seq rows =
      retire
        (insert_revision e.same_key pk c (merged_revision merged seq) (demote_base current rows))

  abbrev pub decision_entry : String → String → String → ChangeLogEntry
  decision_entry document_id rev status = record {
    workspace_id = ctx.workspace_id;
    collection = name;
    document_id = document_id;
    rev = rev;
    op = op_name proposal.op;
    status = status;
    by = ctx.user_id;
  }

  abbrev pub on_committed : Document → Option RevisionTable → Applied
  on_committed merged none = lost_race
  on_committed merged (some rows) =
      let id = e.conversions.text_of (nullish (get pk merged) (get pk proposal.columns)) in
      done id (some e.new_rev) rows (decision_entry id e.new_rev "approved")

  abbrev pub on_merged : Option RevisionRow → RevisionTable → Option (Document × ℕ) → Applied
  on_merged current rows none = fault
  on_merged current rows (some (merged, seq)) =
      if is_update_op proposal.op
        && not (admits_post_image e.platform merged grant.document_filter c)
      then stopped "not_found"
      else on_committed merged (commit_revision current merged seq rows)

  abbrev pub on_base : RevisionTable → Base → Applied
  on_base rows (unfounded why) = stopped why
  on_base rows (on_top_of current) = on_merged current rows (merge_revision c proposal current)

  unfoldable pub apply_approval : RevisionTable → Applied
  unfolding resolve_base commit_revision merge_revision
  apply_approval rows = on_base rows (resolve_base rows)

  unfoldable pub apply_rejection : RevisionTable → Applied
  unfolding mark_status
  apply_rejection rows =
      let id = e.conversions.text_of (get pk proposal.columns) in
      done id none (mark_status proposal.rev rejected rows)
        (decision_entry id proposal.rev "rejected")
