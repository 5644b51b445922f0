-- ===== src/Verbs/History/Read.antt =====
-- packages/broker/src/verbs/history.ts: listing, reading and comparing the revisions of a document.
use warehousd.Prelude.{
  String, Bool, not, ◌&&◌, Option, none, some, List, [], ◌∷◌, map, filter, find, includes, is_empty,
  if◌then◌else◌, ◌==◌,
}
use warehousd.Context.{Env, BrokerContext}
use warehousd.Config.{MaskConfig, CollectionConfig}
use warehousd.Config.Fields.{data_cols_of}
use warehousd.Value.{Value, Document, get}
use warehousd.Grants.Eval.{ActiveGrant}
use warehousd.Revisions.{RevisionRow, or_null}
use warehousd.Audit.{AuditDetail, AuditWriter, Trail, no_detail, allow, refuse}
use warehousd.Verbs.Guard.{VerbDeps, MaskPlan, mask_plan, audit_grant}
use warehousd.Verbs.Mutate.Intent.{WriteDeps}
use warehousd.Verbs.Propose.Tables.{Tables, table_of}
use warehousd.Verbs.History.{
  HistoryResult, RevisionMetadata, RevisionDocument, FieldChange, order_by_seq, admits_document,
  is_held, grant_detail, turn_away, on_recorded, with_history, resolve_history_grant,
}

module _ (d : VerbDeps) (e : WriteDeps) (transform : MaskConfig → Value → Value)
    (same_json : Value → Value → Bool) (has_write_pool : Env → Bool) (w : AuditWriter)
    (ctx : BrokerContext) where
  abbrev pub metadata_of : List String → RevisionRow → RevisionMetadata
  metadata_of allowed r = record {
    rev = r.rev;
    seq = r.seq;
    by = r.by;
    op = r.op;
    status = r.status;
    fields = filter (includes allowed) r.fields;
  }

  abbrev pub list_of :
      Tables
      → String
      → String
      → Trail
      → CollectionConfig
      → ActiveGrant
      → String
      → HistoryResult (List RevisionMetadata) × Trail
  list_of s name id trail c g pk =
      if not (admits_document d e transform same_json has_write_pool w ctx s name c g pk id)
      then turn_away d e transform same_json has_write_pool w ctx name "not_found"
          (grant_detail d e transform same_json has_write_pool w ctx g) trail
      else on_recorded d e transform same_json has_write_pool w ctx
          (map (metadata_of g.allowed_fields) (
            order_by_seq (
              filter (is_held d e transform same_json has_write_pool w ctx pk id)
                (table_of name s))))
          (allow w (some name) (grant_detail d e transform same_json has_write_pool w ctx g) trail)

  unfoldable pub list_revisions :
      Tables → String → String → Trail → HistoryResult (List RevisionMetadata) × Trail
  unfolding resolve_history_grant admits_document refuse allow order_by_seq
  list_revisions s name id trail =
      with_history d e transform same_json has_write_pool w ctx name trail (list_of s name id trail)
        (resolve_history_grant d e transform same_json has_write_pool w ctx name ("read" ∷ []))

  abbrev pub masked_value : MaskPlan → Document → String → Value
  masked_value plan row f = elim (plan.mask_for f) [
    | none ↦ get f row
    | some m ↦ transform m (get f row)
  ]

  -- The statement's projection: a masked field is transformed before it is fetched.
  unfoldable pub project : MaskPlan → Document → List String → Document
  project plan row [] = []
  project plan row (f ∷ fs) = (f, masked_value plan row f) ∷ project plan row fs

  abbrev pub stored_fields : CollectionConfig → ActiveGrant → List String
  stored_fields c g = filter (includes (data_cols_of c)) g.allowed_fields

  abbrev pub plan_of : String → CollectionConfig → ActiveGrant → MaskPlan
  plan_of name c g = mask_plan d.cfg name c g.unmasked_fields

  abbrev pub returned : CollectionConfig → ActiveGrant → AuditDetail
  returned c g = record no_detail {
    grant = some (audit_grant g);
    fields_returned = stored_fields c g;
  }

  abbrev pub show_revision :
      String
      → CollectionConfig
      → ActiveGrant
      → Trail
      → Option RevisionRow
      → HistoryResult RevisionDocument × Trail
  show_revision name c g trail none =
      turn_away d e transform same_json has_write_pool w ctx name "not_found"
        (grant_detail d e transform same_json has_write_pool w ctx g) trail
  show_revision name c g trail (some r) =
      on_recorded d e transform same_json has_write_pool w ctx
        (record {
          rev = r.rev;
          seq = r.seq;
          by = r.by;
          op = r.op;
          status = r.status;
          document = project (plan_of name c g) r.columns (stored_fields c g);
        })
        (allow w (some name) (returned c g) trail)

  abbrev pub find_held : Tables → String → String → String → String → Option RevisionRow
  find_held s name pk id rev =
      find
        (λ (r : RevisionRow).
          is_held d e transform same_json has_write_pool w ctx pk id r && r.rev == rev)
        (table_of name s)

  abbrev pub revision_of :
      Tables
      → String
      → String
      → String
      → Trail
      → CollectionConfig
      → ActiveGrant
      → String
      → HistoryResult RevisionDocument × Trail
  revision_of s name id rev trail c g pk =
      if is_empty (stored_fields c g)
      then turn_away d e transform same_json has_write_pool w ctx name "field_denied"
          (grant_detail d e transform same_json has_write_pool w ctx g) trail
      else if not (admits_document d e transform same_json has_write_pool w ctx s name c g pk id)
      then turn_away d e transform same_json has_write_pool w ctx name "not_found"
          (grant_detail d e transform same_json has_write_pool w ctx g) trail
      else show_revision name c g trail (find_held s name pk id rev)

  unfoldable pub get_revision :
      Tables → String → String → String → Trail → HistoryResult RevisionDocument × Trail
  unfolding resolve_history_grant admits_document refuse allow project mask_plan
  get_revision s name id rev trail =
      with_history d e transform same_json has_write_pool w ctx name trail
        (revision_of s name id rev trail)
        (resolve_history_grant d e transform same_json has_write_pool w ctx name ("read" ∷ []))

  unfoldable pub changes_between : Document → Document → List String → List FieldChange
  changes_between before after [] = []
  changes_between before after (f ∷ fs) =
      let rest = changes_between before after fs in
      if not (same_json (or_null (get f before)) (or_null (get f after)))
      then record { field = f; before = get f before; after = get f after } ∷ rest
      else rest

  abbrev pub diff_rows :
      String
      → CollectionConfig
      → ActiveGrant
      → Trail
      → Option RevisionRow
      → Option RevisionRow
      → HistoryResult (List FieldChange) × Trail
  diff_rows name c g trail (some b) (some a) =
      let fields = stored_fields c g in
      let plan = plan_of name c g in
      on_recorded d e transform same_json has_write_pool w ctx
        (changes_between (project plan b.columns fields) (project plan a.columns fields) fields)
        (allow w (some name) (returned c g) trail)
  diff_rows name c g trail _ _ =
      turn_away d e transform same_json has_write_pool w ctx name "not_found"
        (grant_detail d e transform same_json has_write_pool w ctx g) trail

  abbrev pub diff_of :
      Tables
      → String
      → String
      → String
      → String
      → Trail
      → CollectionConfig
      → ActiveGrant
      → String
      → HistoryResult (List FieldChange) × Trail
  diff_of s name id from to trail c g pk =
      if is_empty (stored_fields c g)
      then turn_away d e transform same_json has_write_pool w ctx name "field_denied"
          (grant_detail d e transform same_json has_write_pool w ctx g) trail
      else if not (admits_document d e transform same_json has_write_pool w ctx s name c g pk id)
      then turn_away d e transform same_json has_write_pool w ctx name "not_found"
          (grant_detail d e transform same_json has_write_pool w ctx g) trail
      else diff_rows name c g trail (find_held s name pk id from) (find_held s name pk id to)

  unfoldable pub diff_revisions :
      Tables → String → String → String → String → Trail → HistoryResult (List FieldChange) × Trail
  unfolding resolve_history_grant admits_document refuse allow project mask_plan changes_between
  diff_revisions s name id from to trail =
      with_history d e transform same_json has_write_pool w ctx name trail
        (diff_of s name id from to trail)
        (resolve_history_grant d e transform same_json has_write_pool w ctx name ("read" ∷ []))
