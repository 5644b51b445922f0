-- ===== src/Verbs/Mutate/Dispatch.antt =====
-- makeMutateVerb of packages/broker/src/verbs/mutate.ts: what is asked of a mutation before one of
-- the three writers takes it. proposeDataset and mutateFile are not modelled: the dispatch ends
-- where they would be called.
use warehousd.Prelude.{
  String, Bool, true, false, not, Option, none, some, List, [], ◌∷◌, keys, lookup, includes,
  is_some, is_empty, if◌then◌else◌, ◌==◌,
}
use warehousd.Context.{Env, BrokerContext}
use warehousd.Config.{FieldConfig, CollectionConfig, chunked}
use warehousd.Config.Fields.{is_stored, is_writable, identity_field, supported_verbs}
use warehousd.Grants.Filters.{validate_document_filters}
use warehousd.Grants.Eval.{ActiveGrant}
use warehousd.Audit.{AuditWriter, AuditedRefusal, Trail, no_detail, refuse}
use warehousd.Verbs.Guard.{
  VerbDeps, Granted, Resolved, resolved, refusal, fault, audit_grant, with_grant, resolve_granted,
}
use warehousd.Verbs.Mutate.Intent.{
  MutationIntent, create, update, delete, collection_of, op_of, values_of, refuse_intent,
}

-- Who takes the write.
pub data Writer : Type 0 where
  proposal_writer file_writer dataset_writer : CollectionConfig → ActiveGrant → Writer

pub data Dispatched : Type 0 where
  handed_to : Writer → Dispatched
  answered : AuditedRefusal → Dispatched
  faulted : String → Dispatched

-- A create without values, and an update or a delete with an empty id, are malformed.
abbrev pub is_malformed : MutationIntent → Bool
is_malformed (create collection values) = is_empty (keys values)
is_malformed (update collection id expect values) = id == ""
is_malformed (delete collection id expect) = id == ""

abbrev pub is_create : MutationIntent → Bool
is_create (create _ _) = true
is_create _ = false

abbrev pub is_identity : Option String → String → Bool
is_identity none f = false
is_identity (some k) f = k == f

-- The structural questions, before a grant is loaded.
abbrev pub structure_check : VerbDeps → MutationIntent → CollectionConfig → Option String
structure_check d intent c =
    if not c.writable
    then some "not_writable"
    else if c.source_ref
    then some "not_writable"
    else if not (includes (supported_verbs d.cfg (collection_of intent)) (op_of intent))
    then some "verb_not_supported"
    else none

abbrev pub check_known_field :
    CollectionConfig → ActiveGrant → Bool → String → FieldConfig → Option String
check_known_field c grant creates f field =
    if not (is_stored field)
    then some "field_not_writable"
    else if is_identity (identity_field c) f
    then (if creates then none else some "field_not_writable")
    else if not (is_writable field)
    then some "field_not_writable"
    else if not (includes grant.allowed_fields f)
    then some "field_denied"
    else none

abbrev pub check_stated_field :
    CollectionConfig → ActiveGrant → Bool → String → Option FieldConfig → Option String
check_stated_field c grant creates f none = some "unknown_field"
check_stated_field c grant creates f (some field) = check_known_field c grant creates f field

-- The first stated field that may not be written, by its reason.
unfoldable pub check_stated : CollectionConfig → ActiveGrant → Bool → List String → Option String
check_stated c grant creates [] = none
check_stated c grant creates (f ∷ fs) =
    let rest = check_stated c grant creates fs in
    elim (check_stated_field c grant creates f (lookup f c.fields)) [
      | none ↦ rest
      | some why ↦ some why
    ]

module _ (d : VerbDeps) (has_write_pool : Env → Bool) (w : AuditWriter) (ctx : BrokerContext)
    (intent : MutationIntent) where
  abbrev pub refused_as : Option ActiveGrant → String → Trail → Dispatched × Trail
  refused_as grant why trail =
      let by = elim grant as (λ _. Option _) [ none ↦ none | some g ↦ some (audit_grant g) ] in
      let (r, trail') = refuse_intent w intent by why trail in (answered r, trail')

  -- The query-shaped refusal, which records no intent.
  abbrev pub refused_plainly : ActiveGrant → String → Trail → Dispatched × Trail
  refused_plainly grant why trail =
      let (r, trail') =
        refuse w (some (collection_of intent)) why (with_grant no_detail grant) trail in
      (answered r, trail')

  abbrev pub on_fields : CollectionConfig → ActiveGrant → Option String → Trail → Dispatched × Trail
  on_fields c grant (some why) trail = refused_as (some grant) why trail
  on_fields c grant none trail =
      (handed_to (if chunked c then file_writer c grant else dataset_writer c grant), trail)

  abbrev pub on_granted : Granted → Trail → Dispatched × Trail
  on_granted g trail =
      if is_some (validate_document_filters d.platform g.grant.document_filter g.collection)
      then refused_as (some g.grant) "invalid_intent" trail
      else if g.grant.mode == "proposal_only"
      then (if chunked g.collection
          then refused_plainly g.grant "verb_denied" trail
          else (handed_to (proposal_writer g.collection g.grant), trail))
      else if not (has_write_pool ctx.env)
      then refused_plainly g.grant "not_writable" trail
      else on_fields g.collection g.grant
          (check_stated g.collection g.grant (is_create intent) (keys (values_of intent))) trail

  abbrev pub on_resolved : Resolved × Trail → Dispatched × Trail
  on_resolved (resolved g, trail) = on_granted g trail
  on_resolved (refusal r, trail) = (answered r, trail)
  on_resolved (fault id, trail) = (faulted id, trail)

  unfoldable pub dispatch_mutation : Trail → Dispatched × Trail
  unfolding check_stated resolve_granted
  dispatch_mutation trail =
      if is_malformed intent
      then refused_as none "invalid_intent" trail
      else on_resolved (
          resolve_granted d w ctx (collection_of intent) (op_of intent)
            (record {
              collection_check = structure_check d intent;
              fields = [];
              detail = no_detail;
              check_filters = false;
            })
            trail)
