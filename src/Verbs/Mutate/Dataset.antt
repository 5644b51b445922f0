-- ===== src/Verbs/Mutate/Dataset.antt =====
-- mutateDataset of packages/broker/src/verbs/mutate.ts, with aclColumnSql of acl/sql.ts and
-- writeChangeLog of verbs/history.ts. A transaction either commits its store or, where it throws,
-- leaves the store as it was; the audit trail is written outside it and stands either way.
use warehousd.Prelude.{
  String, Bool, true, false, not, ◌&&◌, Option, none, some, List, [], ◌∷◌, ◌++◌, lookup, insert,
  find, any, map, keys, if◌then◌else◌, ◌==◌,
}
use warehousd.Context.{BrokerContext}
use warehousd.Config.{FieldType, uuid, FieldConfig, CollectionConfig}
use warehousd.Config.Fields.{pk_of}
use warehousd.Value.{Scalar, Value, one, many, Document, get}
use warehousd.Import.Coerce.{value, reason, coerce}
use warehousd.Grants.Filters.{acl_column, type_of, admits, admits_post_image}
use warehousd.Grants.Eval.{ActiveGrant}
use warehousd.Revisions.{
  RevisionOp, approved, RevisionRow, RevisionTable, Revision, next_data_row, is_current_of,
  insert_revision, current_revision, revise_document,
}
use warehousd.Audit.{AuditWriter, AuditedAllow, recorded, unrecorded, Trail, allow_mutation}
use warehousd.Verbs.Guard.{audit_grant}
use warehousd.Verbs.Mutate.Intent.{
  MutationIntent, create, update, delete, collection_of, op_of, id_of, values_of, AclRow,
  ChangeLogEntry, Store, WriteDeps, MutationResult, applied, refused, refuse_intent,
}

-- What the body of a transaction comes to.
pub data Body : Type 0 where
  commits : MutationResult → Store → Trail → Body
  throws : Trail → Body

abbrev pub coerce_entry : WriteDeps → Value → Option FieldConfig → Option Value
coerce_entry e v none = none
coerce_entry e v (some f) = elim (coerce e.conversions v f) [ value x ↦ some x | reason why ↦ none ]

-- `none` where a value does not fit its field. Its fields are known: dispatch refuses others.
unfoldable pub coerce_values : WriteDeps → CollectionConfig → Document → Option Document
unfolding coerce
coerce_values e c [] = some []
coerce_values e c ((name, v) ∷ values) =
    let rest = coerce_values e c values in
    elim (coerce_entry e v (lookup name c.fields)) [
      | none ↦ none
      | some x ↦ elim rest [ none ↦ none | some xs ↦ some ((name, x) ∷ xs) ]
    ]

abbrev principals_value : Option AclRow → Value
principals_value none = one Scalar.null
principals_value (some r) = many (map (λ p. Scalar.str p) r.principals)

-- The row as the statement reads it: with its access list, where the collection has them.
abbrev pub with_acl :
    WriteDeps → String → String → CollectionConfig → String → RevisionRow → Document
with_acl e ws collection c pk r =
    if c.acl
    then insert acl_column
        (principals_value (
          find
            (λ (a : AclRow).
              a.workspace_id == ws
              && a.collection == collection
              && a.document_id == e.key_text (get pk r.columns))
            e.acl_rows))
        r.columns
    else r.columns

abbrev pub is_undefined : Value → Bool
is_undefined (one Scalar.undefined) = true
is_undefined v = false

abbrev is_uuid_field : Option FieldType → Bool
is_uuid_field (some uuid) = true
is_uuid_field _ = false

-- An empty `expect` is falsy and asks for nothing.
abbrev pub stale : Option String → String → Bool
stale none rev = false
stale (some e) rev = not (e == "") && not (e == rev)

abbrev pub is_delete : MutationIntent → Bool
is_delete (delete _ _ _) = true
is_delete _ = false

-- The reason of the first test in a ladder of refusals that is met.
abbrev pub first_met : List (Bool × String) → Option String
first_met [] = none
first_met ((test, why) ∷ rest) = if test then some why else first_met rest

module _ (e : WriteDeps) (w : AuditWriter) (ctx : BrokerContext) (c : CollectionConfig)
    (grant : ActiveGrant) (intent : MutationIntent) where
  abbrev pub body_refuses : String → Store → Trail → Body
  body_refuses why store trail =
      let (r, trail') = refuse_intent w intent (some (audit_grant grant)) why trail in
      commits (refused r) store trail'

  -- assertRecorded: an allow that the trail did not take is thrown.
  abbrev pub asserted : String → Store → AuditedAllow × Trail → Body
  asserted document_id store (recorded id, trail) =
      commits (applied document_id e.new_rev id) store trail
  asserted document_id store (unrecorded, trail) = throws trail

  -- The change log's entry and the audit row, once the revision is written.
  abbrev pub record_write : String → List String → Option RevisionTable → Store → Trail → Body
  record_write document_id fields none store trail = throws trail
  record_write document_id fields (some revisions) store trail =
      let entry : ChangeLogEntry = record {
        workspace_id = ctx.workspace_id;
        collection = collection_of intent;
        document_id = document_id;
        rev = e.new_rev;
        op = op_of intent;
        status = "approved";
        by = ctx.user_id;
      } in
      asserted document_id
        (record { revisions = revisions; change_log = store.change_log ++ entry ∷ [] })
        (allow_mutation w (collection_of intent) (op_of intent) (id_of intent)
          (some (audit_grant grant)) fields trail)

  abbrev pub first_revision : Document → RevisionRow
  first_revision coerced = record {
    rev = e.new_rev;
    seq = 1;
    by = ctx.user_id;
    op = RevisionOp.create;
    status = approved;
    fields = keys coerced;
    base = none;
    current = true;
    workspace_id = ctx.workspace_id;
    columns = coerced;
  }

  abbrev pub unless : Option String → Store → Trail → Body → Body
  unless none store trail next = next
  unless (some why) store trail next = body_refuses why store trail

  abbrev pub create_refusals : String → Document → Store → List (Bool × String)
  create_refusals pk coerced store =
      (is_undefined (get pk coerced), "invalid_intent")
      ∷ (
        not (admits_post_image e.platform (next_data_row c none coerced) grant.document_filter c),
        "not_found",
      )
      ∷ (
        any (is_current_of e.same_key pk ctx.workspace_id (get pk coerced)) store.revisions,
        "conflict",
      )
      ∷ []

  abbrev pub create_document : String → Document → Store → Trail → Body
  create_document pk coerced store trail =
      unless (first_met (create_refusals pk coerced store)) store trail (
        record_write (e.conversions.text_of (get pk coerced)) (keys coerced)
          (insert_revision e.same_key pk c (first_revision coerced) store.revisions) store trail)

  -- A create of a document whose key is a uuid may leave it to the broker.
  abbrev pub with_id : String → Document → Document
  with_id pk coerced =
      if is_undefined (get pk coerced) && is_uuid_field (type_of (lookup pk c.fields))
      then insert pk (one (Scalar.str e.new_id)) coerced
      else coerced

  abbrev revision_op : RevisionOp
  revision_op = if is_delete intent then RevisionOp.delete else RevisionOp.update

  abbrev pub revision_by : Revision
  revision_by = record {
    op = revision_op;
    status = approved;
    by = ctx.user_id;
    workspace_id = ctx.workspace_id;
  }

  -- The document as stored, the document as it will be, and the revision that the caller saw.
  abbrev pub revise_refusals :
      String → Option String → Document → RevisionRow → List (Bool × String)
  revise_refusals pk expect coerced current =
      (
        not (
            admits e.platform (with_acl e ctx.workspace_id (collection_of intent) c pk current)
              grant.document_filter grant.principals c),
        "not_found",
      )
      ∷ (
        not (is_delete intent)
            && not (
                admits_post_image e.platform (next_data_row c (some current.columns) coerced)
                  grant.document_filter c),
        "not_found",
      )
      ∷ (stale expect current.rev, "conflict")
      ∷ []

  abbrev pub revise_current :
      String → String → Option String → Document → RevisionRow → Store → Trail → Body
  revise_current pk id expect coerced current store trail =
      unless (first_met (revise_refusals pk expect coerced current)) store trail (
        record_write id (if is_delete intent then [] else keys coerced)
          (revise_document e.same_key pk c e.new_rev current coerced revision_by store.revisions)
          store trail)

  abbrev pub on_current :
      String → String → Option String → Document → Option RevisionRow → Store → Trail → Body
  on_current pk id expect coerced none store trail = body_refuses "not_found" store trail
  on_current pk id expect coerced (some current) store trail =
      revise_current pk id expect coerced current store trail

  abbrev pub find_current : String → String → Store → Option RevisionRow
  find_current pk id store =
      current_revision e.same_key pk ctx.workspace_id (one (Scalar.str id)) store.revisions

  abbrev pub body_of : MutationIntent → String → Document → Store → Trail → Body
  body_of (create _ _) pk coerced store trail = create_document pk (with_id pk coerced) store trail
  body_of (update _ id expect _) pk coerced store trail =
      on_current pk id expect coerced (find_current pk id store) store trail
  body_of (delete _ id expect) pk coerced store trail =
      on_current pk id expect coerced (find_current pk id store) store trail

  abbrev pub in_transaction : Store → Body → MutationResult × Store × Trail
  in_transaction before (commits result store trail) = (result, store, trail)
  in_transaction before (throws trail) =
      let (r, trail') = refuse_intent w intent (some (audit_grant grant)) "internal_error" trail in
      (refused r, before, trail')

  abbrev pub on_coerced : String → Option Document → Store → Trail → MutationResult × Store × Trail
  on_coerced pk none store trail = in_transaction store (body_refuses "invalid_value" store trail)
  on_coerced pk (some coerced) store trail =
      in_transaction store (body_of intent pk coerced store trail)

  abbrev pub on_pk : Option String → Store → Trail → MutationResult × Store × Trail
  on_pk none store trail = in_transaction store (body_refuses "invalid_intent" store trail)
  on_pk (some pk) store trail = on_coerced pk (coerce_values e c (values_of intent)) store trail

  unfoldable pub mutate_dataset : Store → Trail → MutationResult × Store × Trail
  unfolding coerce_values
  mutate_dataset store trail = on_pk (pk_of c) store trail
