-- ===== src/Audit.antt =====
-- packages/broker/src/audit/decision.ts: one decision, one audit row. The sink is outside the
-- model: it is given the rows so far and a row, and answers the id under which it recorded the row,
-- or `none` where it throws.
pub mod Laws
mod Tests
use warehousd.Prelude.{
  String, Bool, true, false, not, ◌&&◌, Option, none, some, List, [], ◌∷◌, ◌++◌, or_default,
  is_some, if◌then◌else◌,
}
use warehousd.Context.{Env, BrokerContext}

pub data Outcome : Type 0 where
  allowed refused : Outcome

-- A mutation is recorded as its op, document and field names; the source's query intents are kept
-- by their name only.
pub data AuditIntent : Type 0 where
  query : String → AuditIntent
  mutation : String → Option String → List String → AuditIntent

pub record AuditGrant : Type 0 where
  pub id : String
  pub principals : List String
  pub principal : String

pub record AuditDetail : Type 0 where
  pub intent : Option AuditIntent
  pub fields_returned : List String
  pub unmasked_fields : List String
  pub grant : Option AuditGrant

pub record AuditRow : Type 0 where
  pub user_id : String
  pub env : Env
  pub collection : Option String
  pub workspace_id : String
  pub intent : Option AuditIntent
  pub fields_returned : List String
  pub unmasked_fields : List String
  pub principals : List String
  pub grant_id : Option String
  pub grant_principal : Option String
  pub outcome : Outcome
  pub reason : Option String
  pub via : String
  pub batch_id : Option String

abbrev pub Trail : Type 0
Trail = List AuditRow

pub record AuditWriter : Type 0 where
  pub ctx : BrokerContext
  pub enabled : Bool
  pub sink : Trail → AuditRow → Option String
  pub batch_id : Option String

abbrev pub no_detail : AuditDetail
no_detail = record { intent = none; fields_returned = []; unmasked_fields = []; grant = none }

abbrev principals_of : Option AuditGrant → List String
principals_of none = []
principals_of (some g) = g.principals

abbrev grant_id_of : Option AuditGrant → Option String
grant_id_of none = none
grant_id_of (some g) = some g.id

abbrev grant_principal_of : Option AuditGrant → Option String
grant_principal_of none = none
grant_principal_of (some g) = some g.principal

abbrev pub row_of : AuditWriter → Option String → Outcome → Option String → AuditDetail → AuditRow
row_of w collection outcome reason detail = record {
  user_id = w.ctx.user_id;
  env = w.ctx.env;
  collection = collection;
  workspace_id = w.ctx.workspace_id;
  intent = detail.intent;
  fields_returned = detail.fields_returned;
  unmasked_fields = detail.unmasked_fields;
  principals = principals_of detail.grant;
  grant_id = grant_id_of detail.grant;
  grant_principal = grant_principal_of detail.grant;
  outcome = outcome;
  reason = reason;
  via = w.ctx.via;
  batch_id = w.batch_id;
}

-- What the sink answered, and the trail that it leaves.
abbrev written : Trail → AuditRow → Option String → Option String × Trail
written trail row none = (none, trail)
written trail row (some id) = (some id, trail ++ row ∷ [])

unfoldable pub record_decision :
    AuditWriter
    → Option String
    → Outcome
    → Option String
    → AuditDetail
    → Trail
    → Option String × Trail
record_decision w collection outcome reason detail trail =
    let row = row_of w collection outcome reason detail in
    if w.enabled then written trail row (w.sink trail row) else (none, trail)

pub data AuditedAllow : Type 0 where
  recorded : Option String → AuditedAllow
  unrecorded : AuditedAllow

pub record AuditedRefusal : Type 0 where
  pub reason : String
  pub audit_id : Option String

-- With auditing on, no id means that the decision was not recorded, and the allow does not stand.
abbrev pub sealed : Bool → Option String → AuditedAllow
sealed enabled none = if enabled then unrecorded else recorded none
sealed enabled (some id) = recorded (some id)

unfoldable pub allow : AuditWriter → Option String → AuditDetail → Trail → AuditedAllow × Trail
unfolding record_decision
allow w collection detail trail =
    let (id, trail') = record_decision w collection allowed none detail trail in
    (sealed w.enabled id, trail')

unfoldable pub refuse :
    AuditWriter → Option String → String → AuditDetail → Trail → AuditedRefusal × Trail
unfolding record_decision
refuse w collection reason detail trail =
    let (id, trail') = record_decision w collection refused (some reason) detail trail in
    (record { reason = reason; audit_id = id }, trail')

abbrev pub mutation_detail : String → Option String → List String → Option AuditGrant → AuditDetail
mutation_detail op id fields grant = record {
  intent = some (mutation op id fields);
  fields_returned = [];
  unmasked_fields = [];
  grant = grant;
}

unfoldable pub allow_mutation :
    AuditWriter
    → String
    → String
    → Option String
    → Option AuditGrant
    → List String
    → Trail
    → AuditedAllow × Trail
unfolding allow
allow_mutation w collection op id grant fields trail =
    allow w (some collection) (mutation_detail op id fields grant) trail

unfoldable pub refuse_mutation :
    AuditWriter
    → String
    → String
    → Option String
    → List String
    → Option AuditGrant
    → String
    → Trail
    → AuditedRefusal × Trail
unfolding refuse
refuse_mutation w collection op id fields grant reason trail =
    refuse w (some collection) reason (mutation_detail op id fields grant) trail
