-- ===== src/Verbs/Mutate/Intent.antt =====
-- A mutation that passed MutationIntentSchema (packages/broker/src/intents/schema.ts), what a write
-- asks of its surroundings, and what it answers.
use warehousd.Prelude.{String, Bool, Option, none, some, List, [], keys}
use warehousd.Value.{Value, Document, Platform}
use warehousd.Import.Coerce.{Conversions}
use warehousd.Revisions.{RevisionTable}
use warehousd.Audit.{AuditGrant, AuditWriter, AuditedRefusal, Trail, refuse_mutation}

pub data MutationIntent : Type 0 where
  create : String → Document → MutationIntent
  update : String → String → Option String → Document → MutationIntent
  delete : String → String → Option String → MutationIntent

abbrev pub collection_of : MutationIntent → String
collection_of (create collection values) = collection
collection_of (update collection id expect values) = collection
collection_of (delete collection id expect) = collection

abbrev pub op_of : MutationIntent → String
op_of (create collection values) = "create"
op_of (update collection id expect values) = "update"
op_of (delete collection id expect) = "delete"

-- A create states no id.
abbrev pub id_of : MutationIntent → Option String
id_of (create collection values) = none
id_of (update collection id expect values) = some id
id_of (delete collection id expect) = some id

abbrev pub values_of : MutationIntent → Document
values_of (create collection values) = values
values_of (update collection id expect values) = values
values_of (delete collection id expect) = []

-- The table `_acl` of one environment.
pub record AclRow : Type 0 where
  pub workspace_id : String
  pub collection : String
  pub document_id : String
  pub principals : List String

-- One entry of app.change_log, without its time.
pub record ChangeLogEntry : Type 0 where
  pub workspace_id : String
  pub collection : String
  pub document_id : String
  pub rev : String
  pub op : String
  pub status : String
  pub by : String

pub record Store : Type 0 where
  pub revisions : RevisionTable
  pub change_log : List ChangeLogEntry

-- What is outside: the platform, the database's equality on a key and its cast of a key to text,
-- the access lists, and the two uuids that the platform draws.
pub record WriteDeps : Type 0 where
  pub platform : Platform
  pub conversions : Conversions
  pub same_key : Value → Value → Bool
  pub key_text : Value → String
  pub acl_rows : List AclRow
  pub new_rev : String
  pub new_id : String

pub data MutationResult : Type 0 where
  applied : String → String → Option String → MutationResult
  refused : AuditedRefusal → MutationResult

abbrev pub refuse_intent :
    AuditWriter → MutationIntent → Option AuditGrant → String → Trail → AuditedRefusal × Trail
refuse_intent w intent grant reason trail =
    refuse_mutation w (collection_of intent) (op_of intent) (id_of intent) (keys (values_of intent))
      grant reason trail
