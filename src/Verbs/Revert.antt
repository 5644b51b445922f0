-- ===== src/Verbs/Revert.antt =====
-- packages/broker/src/verbs/revert.ts: restoring a document to a past revision. It owns no write
-- path: it hands an update to the mutation verb.
pub mod Laws
mod Tests
use warehousd.Prelude.{
  ℕ, String, Bool, true, false, not, ◌&&◌, Option, none, some, List, [], ◌∷◌, filter, find,
  is_empty, if◌then◌else◌, ◌==◌,
}
use warehousd.Context.{Env, BrokerContext}
use warehousd.Config.{MaskConfig, CollectionConfig}
use warehousd.Config.Fields.{data_cols_of}
use warehousd.Value.{Value, Document, get}
use warehousd.Grants.Eval.{ActiveGrant}
use warehousd.Revisions.{RevisionRow, RevisionTable, or_null}
use warehousd.Audit.{
  AuditGrant, AuditWriter, AuditedAllow, AuditedRefusal, recorded, unrecorded, Trail,
  allow_mutation, refuse_mutation,
}
use warehousd.Verbs.Guard.{VerbDeps, audit_grant}
use warehousd.Verbs.Mutate.Intent.{MutationIntent, update, WriteDeps}
use warehousd.Verbs.Propose.Tables.{Tables, table_of}
use warehousd.Verbs.History.{
  Opened, opened, closed, raises, is_held, resolve_history_grant, admits_document,
}
use warehousd.Verbs.History.Read.{find_held}

-- An update for the mutation verb, nothing to write, a refusal, or the loader's exception.
pub data Reverted : Type 0 where
  hands_on : MutationIntent → Reverted
  noop : String → Option String → Reverted
  denied : AuditedRefusal → Reverted
  raised : Reverted

pub record RevertOptions : Type 0 where
  pub collection : String
  pub id : String
  pub rev : String
  pub expect : Option String

-- An empty `expect` is falsy.
abbrev pub stated_expect : Option String → Option String
stated_expect none = none
stated_expect (some e) = if e == "" then none else some e

module _ (d : VerbDeps) (e : WriteDeps) (transform : MaskConfig → Value → Value)
    (same_json : Value → Value → Bool) (has_write_pool : Env → Bool) (w : AuditWriter)
    (ctx : BrokerContext) (opts : RevertOptions) where
  abbrev pub audited_grant : Option ActiveGrant → Option AuditGrant
  audited_grant none = none
  audited_grant (some g) = some (audit_grant g)

  abbrev pub deny : Option ActiveGrant → String → Trail → Reverted × Trail
  deny g why trail =
      let (r, trail') =
        refuse_mutation w opts.collection "update" (some opts.id) [] (audited_grant g) why trail in
      (denied r, trail')

  -- Stored columns without the key: a revert never rewrites a document's identity.
  abbrev pub revertible : CollectionConfig → String → List String
  revertible c pk = filter (λ f. not (f == pk)) (data_cols_of c)

  unfoldable pub differing : List String → Document → Document → Document
  differing [] current target = []
  differing (f ∷ fs) current target =
      let rest = differing fs current target in
      if not (same_json (or_null (get f current)) (or_null (get f target)))
      then (f, get f target) ∷ rest
      else rest

  abbrev pub noop_recorded : AuditedAllow × Trail → Reverted × Trail
  noop_recorded (recorded id, trail) = (noop opts.id id, trail)
  noop_recorded (unrecorded, trail) =
      (denied (record { reason = "internal_error"; audit_id = none }), trail)

  abbrev pub on_values : ActiveGrant → Document → Trail → Reverted × Trail
  on_values g values trail =
      if is_empty values
      then noop_recorded
          (allow_mutation w opts.collection "update" (some opts.id) (some (audit_grant g)) [] trail)
      else (hands_on (update opts.collection opts.id (stated_expect opts.expect) values), trail)

  abbrev pub on_rows :
      Tables
      → CollectionConfig
      → ActiveGrant
      → String
      → Trail
      → Option RevisionRow
      → Option RevisionRow
      → Reverted × Trail
  on_rows s c g pk trail (some target) (some current) =
      if not (
        admits_document d e transform same_json has_write_pool w ctx s opts.collection c g pk
          opts.id)
      then deny (some g) "not_found" trail
      else on_values g (differing (revertible c pk) current.columns target.columns) trail
  on_rows s c g pk trail _ _ = deny (some g) "not_found" trail

  abbrev pub find_now : Tables → String → Option RevisionRow
  find_now s pk =
      find
        (λ (r : RevisionRow).
          is_held d e transform same_json has_write_pool w ctx pk opts.id r && r.current)
        (table_of opts.collection s)

  abbrev pub find_target : Tables → String → Option RevisionRow
  find_target s pk =
      find_held d e transform same_json has_write_pool w ctx s opts.collection pk opts.id opts.rev

  abbrev pub on_opened : Tables → Trail → Opened → Reverted × Trail
  on_opened s trail raises = (raised, trail)
  on_opened s trail (closed why g) = deny g why trail
  on_opened s trail (opened c g pk) = on_rows s c g pk trail (find_target s pk) (find_now s pk)

  unfoldable pub revert_document : Tables → Trail → Reverted × Trail
  unfolding resolve_history_grant admits_document refuse_mutation allow_mutation differing
  revert_document s trail = on_opened s trail (
      resolve_history_grant d e transform same_json has_write_pool w ctx opts.collection
        ("read" ∷ "update" ∷ []))
