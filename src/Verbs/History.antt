-- ===== src/Verbs/History.antt =====
-- packages/broker/src/verbs/history.ts: reading the revisions of one document. Policy is read as of
-- now: the grant, the filters, the access list and the masks of the call. The times of the revisions
-- are left out.
pub mod Read
pub mod Reach
pub mod Laws
use warehousd.Prelude.{
  ℕ, String, Bool, true, false, not, ◌&&◌, ◌||◌, Option, none, some, List, [], ◌∷◌, ◌++◌, map,
  filter, find, keys, lookup, includes, is_some, is_empty, all, leb, if◌then◌else◌, ◌==◌,
}
use warehousd.Context.{Env, BrokerContext}
use warehousd.Config.{MaskConfig, CollectionConfig, find_collection}
use warehousd.Config.Fields.{pk_of, data_cols_of}
use warehousd.Value.{Scalar, Value, one, Document, DocumentFilter, get}
use warehousd.Grants.Filters.{acl_column, admits, validate_document_filters}
use warehousd.Grants.Eval.{ActiveGrant, Loaded, no_grant, granted, rebuild, load_active_grant}
use warehousd.Revisions.{
  RevisionOp, RevisionStatus, superseded, RevisionRow, RevisionTable, or_null, is_current_of,
  current_revision,
}
use warehousd.Audit.{
  AuditDetail, AuditWriter, AuditedAllow, AuditedRefusal, recorded, unrecorded, Trail, no_detail,
  allow, refuse,
}
use warehousd.Verbs.Guard.{VerbDeps, MaskPlan, mask_plan, audit_grant}
use warehousd.Verbs.Mutate.Intent.{WriteDeps}
use warehousd.Verbs.Propose.Decision.{copy_columns}
use warehousd.Verbs.Propose.Apply.{op_name, with_list}
use warehousd.Verbs.Propose.Tables.{Tables, table_of, selected}

pub data Opened : Type 0 where
  opened : CollectionConfig → ActiveGrant → String → Opened
  closed : String → Option ActiveGrant → Opened
  raises : Opened

-- An answer, a refusal, or the exception that a grant row of the old shape raises.
pub data HistoryResult (A : Type 0) : Type 0 where
  answered : A → HistoryResult A
  turned_away : AuditedRefusal → HistoryResult A
  raised : HistoryResult A

pub record RevisionMetadata : Type 0 where
  pub rev : String
  pub seq : ℕ
  pub by : String
  pub op : RevisionOp
  pub status : RevisionStatus
  pub fields : List String

pub record RevisionDocument : Type 0 where
  pub rev : String
  pub seq : ℕ
  pub by : String
  pub op : RevisionOp
  pub status : RevisionStatus
  pub document : Document

pub record FieldChange : Type 0 where
  pub field : String
  pub before : Value
  pub after : Value

abbrev pub is_superseded : RevisionStatus → Bool
is_superseded superseded = true
is_superseded _ = false

insert_by_seq : RevisionRow → RevisionTable → RevisionTable
insert_by_seq r [] = r ∷ []
insert_by_seq r (x ∷ rows) = if leb r.seq x.seq then r ∷ x ∷ rows else x ∷ insert_by_seq r rows

-- `order by _rev_seq asc`
unfoldable pub order_by_seq : RevisionTable → RevisionTable
unfolding insert_by_seq
order_by_seq [] = []
order_by_seq (r ∷ rows) = insert_by_seq r (order_by_seq rows)

-- `transform` is what the database makes of a value under the expression of a mask, `same_json`
-- whether JSON.stringify writes two values the same way.
module _ (d : VerbDeps) (e : WriteDeps) (transform : MaskConfig → Value → Value)
    (same_json : Value → Value → Bool) (has_write_pool : Env → Bool) (w : AuditWriter)
    (ctx : BrokerContext) where
  abbrev pub missing_verb : ActiveGrant → List String → Option Opened
  missing_verb g [] = none
  missing_verb g (v ∷ verbs) =
      if includes g.verbs v
      then missing_verb g verbs
      else if v == "read"
      then some (closed "no_grant" none)
      else some (closed "verb_denied" (some g))

  abbrev pub open_keyed : CollectionConfig → ActiveGrant → Option String → Opened
  open_keyed c g none = closed "invalid_intent" (some g)
  open_keyed c g (some pk) = opened c g pk

  abbrev pub open_granted : CollectionConfig → List String → Loaded → Opened
  open_granted c verbs no_grant = closed "no_grant" none
  open_granted c verbs (rebuild id) = raises
  open_granted c verbs (granted g) = elim (missing_verb g verbs) [
    | some o ↦ o
    | none ↦
        if is_some (validate_document_filters e.platform g.document_filter c)
        then closed "invalid_intent" (some g)
        else open_keyed c g (pk_of c)
  ]

  abbrev pub open_declared : String → List String → Option CollectionConfig → Opened
  open_declared name verbs none = closed "unknown_collection" none
  open_declared name verbs (some c) =
      if not c.writable
      then closed "invalid_intent" none
      else if not (has_write_pool ctx.env)
      then closed "internal_error" none
      else open_granted c verbs (load_active_grant d.grants d.memberships d.now ctx name)

  unfoldable pub resolve_history_grant : String → List String → Opened
  unfolding find_collection load_active_grant
  resolve_history_grant name verbs = open_declared name verbs (find_collection d.cfg name)

  -- The columns of the filters, with the access list of the row.
  abbrev pub filter_row : String → CollectionConfig → ActiveGrant → RevisionRow → Document
  filter_row name c g r =
      with_list (lookup acl_column (selected e ctx.workspace_id name c r).columns) (
        copy_columns
          (filter (includes (keys c.fields))
            (map (λ (f : DocumentFilter). f.field) g.document_filter))
          r.columns)

  abbrev pub admits_current : String → CollectionConfig → ActiveGrant → Option RevisionRow → Bool
  admits_current name c g none = false
  admits_current name c g (some r) =
      admits e.platform (filter_row name c g r) g.document_filter g.principals c

  unfoldable pub admits_document :
      Tables → String → CollectionConfig → ActiveGrant → String → String → Bool
  unfolding current_revision
  admits_document s name c g pk id =
      admits_current name c g
        (current_revision e.same_key pk ctx.workspace_id (one (Scalar.str id)) (table_of name s))

  -- A state that the document held: `superseded` rows record what was proposed.
  abbrev pub is_held : String → String → RevisionRow → Bool
  is_held pk id r =
      r.workspace_id == ctx.workspace_id
      && e.same_key (get pk r.columns) (one (Scalar.str id))
      && not (is_superseded r.status)

  abbrev pub grant_detail : ActiveGrant → AuditDetail
  grant_detail g = record no_detail { grant = some (audit_grant g) }

  abbrev detail_of : Option ActiveGrant → AuditDetail
  detail_of none = no_detail
  detail_of (some g) = grant_detail g

  module _ {A : Type 0} where
    abbrev pub turn_away : String → String → AuditDetail → Trail → HistoryResult A × Trail
    turn_away name why detail trail =
        let (r, trail') = refuse w (some name) why detail trail in (turned_away r, trail')

    abbrev pub on_recorded : A → AuditedAllow × Trail → HistoryResult A × Trail
    on_recorded a (recorded id, trail) = (answered a, trail)
    on_recorded a (unrecorded, trail) =
        (turned_away (record { reason = "internal_error"; audit_id = none }), trail)

    -- openHistory
    abbrev pub with_history :
        String
        → Trail
        → (CollectionConfig → ActiveGrant → String → HistoryResult A × Trail)
        → Opened
        → HistoryResult A × Trail
    with_history name trail next (opened c g pk) = next c g pk
    with_history name trail next (closed why g) = turn_away name why (detail_of g) trail
    with_history name trail next raises = (raised, trail)
