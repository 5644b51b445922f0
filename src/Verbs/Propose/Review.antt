-- ===== src/Verbs/Propose/Review.antt =====
-- listProposals and getProposal of packages/broker/src/verbs/propose.ts: what a reviewer sees before
-- deciding. The rows of a table stand in the order of `_rev_at`; the times themselves are left out.
pub mod Laws
use warehousd.Prelude.{
  ℕ, String, Bool, true, false, not, ◌&&◌, ◌||◌, Option, none, some, List, [], ◌∷◌, ◌++◌, map,
  filter, keys, lookup, insert, includes, is_some, or_default, if◌then◌else◌, ◌==◌,
}
use warehousd.Context.{Env, BrokerContext}
use warehousd.Config.{CollectionConfig, chunked, find_collection}
use warehousd.Config.Fields.{pk_of, masked_fields_for}
use warehousd.Value.{Value, Document, DocumentFilter, get}
use warehousd.Grants.Filters.{acl_column, admits, validate_document_filters}
use warehousd.Grants.Eval.{ActiveGrant, Loaded, no_grant, granted, rebuild, load_active_grant}
use warehousd.Grants.Eval.Batch.{BatchLoaded, found, rebuild_one, load_active_grants}
use warehousd.Revisions.{RevisionOp, RevisionStatus, RevisionRow, RevisionTable}
use warehousd.Audit.{
  AuditGrant, AuditDetail, AuditWriter, AuditedAllow, AuditedRefusal, recorded, unrecorded, Trail,
  no_detail, allow, refuse,
}
use warehousd.Verbs.Guard.{VerbDeps, audit_grant}
use warehousd.Verbs.Mutate.Intent.{WriteDeps}
use warehousd.Verbs.Propose.Decision.{copy_columns}
use warehousd.Verbs.Propose.Apply.{op_name, with_list}
use warehousd.Verbs.Propose.Tables.{Tables, Pending, table_of, selected, load_pending_many}

pub record ShownProposal : Type 0 where
  pub collection : String
  pub op : String
  pub document_id : String
  pub proposed_by : String
  pub fields : List String
  pub values : Document
  pub masked_fields : List String
  pub fields_returned : List String
  pub audit_id : Option String

pub data GetResult : Type 0 where
  shown : ShownProposal → GetResult
  withheld : AuditedRefusal → GetResult

pub record ProposalSummary : Type 0 where
  pub proposal_id : String
  pub collection : String
  pub op : String
  pub fields : List String
  pub proposed_by : String
  pub document_id : String

pub data ListResult : Type 0 where
  listed : List ProposalSummary → Option String → ListResult
  not_listed : AuditedRefusal → ListResult

pub data AskedStatus : Type 0 where
  pending approved rejected : AskedStatus

-- How a proposal that was approved is stored.
abbrev pub is_stored_as : Option AskedStatus → RevisionStatus → Bool
is_stored_as none RevisionStatus.pending = true
is_stored_as (some AskedStatus.pending) RevisionStatus.pending = true
is_stored_as (some AskedStatus.approved) RevisionStatus.superseded = true
is_stored_as (some AskedStatus.rejected) RevisionStatus.rejected = true
is_stored_as _ _ = false

abbrev internal_error : AuditedRefusal
internal_error = record { reason = "internal_error"; audit_id = none }

module _ (d : VerbDeps) (e : WriteDeps) (has_write_pool : Env → Bool) (w : AuditWriter)
    (ctx : BrokerContext) where
  abbrev pub withhold : String → String → AuditDetail → Trail → GetResult × Trail
  withhold coll why detail trail =
      let (r, trail') = refuse w (some coll) why detail trail in (withheld r, trail')

  abbrev pub readable_fields : CollectionConfig → ActiveGrant → List String
  readable_fields c grant = filter (includes (keys c.fields)) grant.allowed_fields

  abbrev pub masked_for : String → ActiveGrant → List String
  masked_for coll grant = masked_fields_for d.cfg coll grant.unmasked_fields

  abbrev pub clear_fields : String → CollectionConfig → ActiveGrant → List String
  clear_fields coll c grant =
      filter (λ f. not (includes (masked_for coll grant) f)) (readable_fields c grant)

  abbrev pub shown_detail : String → CollectionConfig → ActiveGrant → AuditDetail
  shown_detail coll c grant = record no_detail {
    fields_returned = clear_fields coll c grant;
    unmasked_fields = filter (includes grant.unmasked_fields) (readable_fields c grant);
    grant = some (audit_grant grant);
  }

  abbrev pub show_recorded :
      Pending → CollectionConfig → ActiveGrant → String → AuditedAllow × Trail → GetResult × Trail
  show_recorded p c grant pk (unrecorded, trail) = (withheld internal_error, trail)
  show_recorded p c grant pk (recorded id, trail) = (
    shown (record {
      collection = p.collection;
      op = op_name p.row.op;
      document_id = e.conversions.text_of (get pk p.row.columns);
      proposed_by = p.row.by;
      fields = p.row.fields;
      values = copy_columns (clear_fields p.collection c grant) p.row.columns;
      masked_fields = filter (includes (masked_for p.collection grant)) (readable_fields c grant);
      fields_returned = clear_fields p.collection c grant;
      audit_id = id;
    }),
    trail,
  )

  abbrev pub show_keyed :
      Pending → CollectionConfig → ActiveGrant → Option String → Trail → GetResult × Trail
  show_keyed p c grant none trail =
      withhold p.collection "invalid_intent" (record no_detail { grant = some (audit_grant grant) })
        trail
  show_keyed p c grant (some pk) trail =
      show_recorded p c grant pk
        (allow w (some p.collection) (shown_detail p.collection c grant) trail)

  abbrev pub show_granted : Pending → CollectionConfig → Loaded → Trail → GetResult × Trail
  show_granted p c (rebuild id) trail = withhold "*" "internal_error" no_detail trail
  show_granted p c no_grant trail = withhold p.collection "no_grant" no_detail trail
  show_granted p c (granted g) trail =
      let detail : AuditDetail = record no_detail { grant = some (audit_grant g) } in
      if not (includes g.verbs "read") || not (includes g.verbs "approve")
      then withhold p.collection "no_grant" detail trail
      else if is_some (validate_document_filters e.platform g.document_filter c)
      then withhold p.collection "invalid_intent" detail trail
      else if not (admits e.platform p.row.columns g.document_filter g.principals c)
      then withhold p.collection "not_found" detail trail
      else show_keyed p c g (pk_of c) trail

  abbrev pub show_declared : Pending → Option CollectionConfig → Trail → GetResult × Trail
  show_declared p none trail = withhold p.collection "unknown_collection" no_detail trail
  show_declared p (some c) trail =
      show_granted p c (load_active_grant d.grants d.memberships d.now ctx p.collection) trail

  abbrev pub show_located : Option Pending → Trail → GetResult × Trail
  show_located none trail = withhold "*" "not_found" no_detail trail
  show_located (some p) trail = show_declared p (find_collection d.cfg p.collection) trail

  unfoldable pub get_proposal : Tables → String → Trail → GetResult × Trail
  unfolding refuse allow load_pending_many load_active_grant masked_fields_for
  get_proposal s proposal_id trail =
      if not (has_write_pool ctx.env)
      then withhold "*" "internal_error" no_detail trail
      else show_located (lookup proposal_id (load_pending_many d e ctx s (proposal_id ∷ []))) trail

  -- The columns of the feed: the key and the fields of the filters, with the access list.
  abbrev pub feed_columns : CollectionConfig → ActiveGrant → List String
  feed_columns c grant =
      let asked =
        filter (includes (keys c.fields))
          (map (λ (f : DocumentFilter). f.field) grant.document_filter) in
      elim (pk_of c) [ none ↦ asked | some pk ↦ pk ∷ asked ]

  abbrev pub feed_row : String → CollectionConfig → ActiveGrant → RevisionRow → Document
  feed_row coll c grant r =
      with_list (lookup acl_column (selected e ctx.workspace_id coll c r).columns)
        (copy_columns (feed_columns c grant) r.columns)

  abbrev pub summary_of : String → CollectionConfig → ActiveGrant → RevisionRow → ProposalSummary
  summary_of coll c grant r = record {
    proposal_id = r.rev;
    collection = coll;
    op = op_name r.op;
    fields = r.fields;
    proposed_by = r.by;
    document_id = elim (pk_of c) [
      | none ↦ ""
      | some pk ↦ e.conversions.text_of (get pk (feed_row coll c grant r))
    ];
  }

  abbrev pub is_in_feed :
      Option AskedStatus → String → CollectionConfig → ActiveGrant → RevisionRow → Bool
  is_in_feed status coll c grant r =
      r.workspace_id == ctx.workspace_id
      && is_stored_as status r.status
      && admits e.platform (feed_row coll c grant r) grant.document_filter grant.principals c

  -- A collection that the caller cannot approve for is absent, not refused.
  abbrev pub feed_of :
      Tables
      → Option AskedStatus
      → String
      → Option CollectionConfig
      → Option ActiveGrant
      → List ProposalSummary
  feed_of s status coll (some c) (some g) =
      if not c.writable
        || chunked c
        || not (includes g.verbs "approve")
        || is_some (validate_document_filters e.platform g.document_filter c)
      then []
      else map (summary_of coll c g) (filter (is_in_feed status coll c g) (table_of coll s))
  feed_of s status coll _ _ = []

  unfoldable pub feed :
      Tables → Option AskedStatus → List (String × ActiveGrant) → List String → List ProposalSummary
  feed s status grants [] = []
  feed s status grants (coll ∷ colls) =
      feed_of s status coll (find_collection d.cfg coll) (lookup coll grants)
      ++ feed s status grants colls

  abbrev pub not_list : String → Trail → ListResult × Trail
  not_list audited trail =
      let (r, trail') = refuse w (some audited) "internal_error" no_detail trail in
      (not_listed r, trail')

  abbrev pub list_recorded : List ProposalSummary → AuditedAllow × Trail → ListResult × Trail
  list_recorded proposals (recorded id, trail) = (listed proposals id, trail)
  list_recorded proposals (unrecorded, trail) = (not_listed internal_error, trail)

  abbrev pub list_granted :
      Tables → Option AskedStatus → List String → String → BatchLoaded → Trail → ListResult × Trail
  list_granted s status names audited rebuild_one trail = not_list audited trail
  list_granted s status names audited (found grants) trail =
      list_recorded (feed s status grants names) (allow w (some audited) no_detail trail)

  abbrev pub names_asked : Option String → List String
  names_asked none = keys d.cfg.collections
  names_asked (some name) = name ∷ []

  unfoldable pub list_proposals :
      Tables → Option String → Option AskedStatus → Trail → ListResult × Trail
  unfolding feed refuse allow load_active_grants
  list_proposals s collection status trail =
      let audited = or_default collection "*" in
      if not (has_write_pool ctx.env)
      then not_list audited trail
      else list_granted s status (names_asked collection) audited
          (load_active_grants d.grants d.memberships d.now ctx (names_asked collection)) trail
