-- ===== src/Revisions.antt =====
-- packages/broker/src/db/revisions.ts and nextDataRow of config/collection.ts: the table of
-- revisions of one dataset. `ws` is the workspace that the transaction's row security shows,
-- `same_key` the database's equality on the column of the declared pk, `rev` the uuid that the
-- platform draws. encodeForColumn and the driver undo each other on a `json` column, so a row holds
-- its values.
pub mod Laws
pub mod Current
pub mod View
mod Tests
use warehousd.Prelude.{
  ℕ, ◌+◌, String, Bool, true, false, not, ◌&&◌, Option, none, some, List, [], ◌∷◌, ◌++◌, map, any,
  find, keys, lookup, is_some, or_default, if◌then◌else◌, ◌==◌,
}
use warehousd.Config.{CollectionConfig}
use warehousd.Config.Fields.{data_cols_of}
use warehousd.Value.{Scalar, Value, one, many, Document, get}

pub data RevisionOp : Type 0 where
  create update delete : RevisionOp

pub data RevisionStatus : Type 0 where
  pending approved rejected superseded : RevisionStatus

pub record RevisionRow : Type 0 where
  pub rev : String
  pub seq : ℕ
  pub by : String
  pub op : RevisionOp
  pub status : RevisionStatus
  pub fields : List String
  pub base : Option ℕ
  pub current : Bool
  pub workspace_id : String
  pub columns : Document

abbrev pub RevisionTable : Type 0
RevisionTable = List RevisionRow

-- `v ?? null`
abbrev pub or_null : Value → Value
or_null (one Scalar.undefined) = one Scalar.null
or_null v = v

abbrev pub carried : Option Document → String → Value
carried none f = one Scalar.null
carried (some d) f = or_null (get f d)

-- `f in stated ? stated[f] : (current?.[f] ?? null)`
abbrev pub stated_or_carried : Option Document → Document → String → Value
stated_or_carried current stated f = or_default (lookup f stated) (carried current f)

row_over : Option Document → Document → List String → Document
row_over current stated [] = []
row_over current stated (f ∷ fs) =
    (f, stated_or_carried current stated f) ∷ row_over current stated fs

unfoldable pub next_data_row : CollectionConfig → Option Document → Document → Document
unfolding row_over
next_data_row c current stated = row_over current stated (data_cols_of c)

-- What insertRevision binds: its row's values for the stored columns, null for the others.
unfoldable pub bound_columns : CollectionConfig → Document → Document
unfolding row_over
bound_columns c row = row_over (some row) [] (data_cols_of c)

module _ (same_key : Value → Value → Bool) (pk : String) where
  -- The rows of which the unique index on (workspace_id, pk) where _current holds one at most.
  abbrev pub is_current_of : String → Value → RevisionRow → Bool
  is_current_of ws id r = r.current && r.workspace_id == ws && same_key (get pk r.columns) id

  abbrev pub violates_index : RevisionRow → RevisionTable → Bool
  violates_index new rows =
      new.current && any (is_current_of new.workspace_id (get pk new.columns)) rows

  -- `none` is the error of the unique index.
  unfoldable pub insert_revision :
      CollectionConfig → RevisionRow → RevisionTable → Option RevisionTable
  unfolding bound_columns
  insert_revision c meta rows =
      let new : RevisionRow = record meta { columns = bound_columns c meta.columns } in
      if violates_index new rows then none else some (rows ++ new ∷ [])

  unfoldable pub current_revision : String → Value → RevisionTable → Option RevisionRow
  current_revision ws id rows = find (is_current_of ws id) rows

abbrev pub clear_current : String → RevisionRow → RevisionRow
clear_current rev r = if r.rev == rev then record r { current = false } else r

unfoldable pub demote_revision : String → RevisionTable → RevisionTable
demote_revision rev rows = map (clear_current rev) rows

pub record Revision : Type 0 where
  pub op : RevisionOp
  pub status : RevisionStatus
  pub by : String
  pub workspace_id : String

abbrev pub stated_fields : RevisionOp → Document → List String
stated_fields delete changed = []
stated_fields _ changed = keys changed

abbrev pub successor : CollectionConfig → String → RevisionRow → Document → Revision → RevisionRow
successor c rev current changed meta = record {
  rev = rev;
  seq = current.seq + 1;
  by = meta.by;
  op = meta.op;
  status = meta.status;
  fields = stated_fields meta.op changed;
  base = some current.seq;
  current = true;
  workspace_id = meta.workspace_id;
  columns = next_data_row c (some current.columns) changed;
}

unfoldable pub revise_document :
    (Value → Value → Bool)
    → String
    → CollectionConfig
    → String
    → RevisionRow
    → Document
    → Revision
    → RevisionTable
    → Option RevisionTable
unfolding insert_revision demote_revision next_data_row
revise_document same_key pk c rev current changed meta rows =
    insert_revision same_key pk c (successor c rev current changed meta)
      (demote_revision current.rev rows)
