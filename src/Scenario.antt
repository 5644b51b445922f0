-- ===== src/Scenario.antt =====
-- Data for the tests: a collection of people with access lists, its config, a caller, and the
-- grants of one workspace.
pub mod Keys
use warehousd.Prelude.{String, Bool, true, false, Option, none, some, List, [], ◌∷◌, ◌==◌}
use warehousd.Context.{live, BrokerContext}
use warehousd.Config.Posture.{PostureInput, axes}
use warehousd.Config.{
  MaskConfig, redact, FieldType, text, FieldConfig, dataset, CollectionConfig, WarehousdConfig,
}
use warehousd.Value.{Scalar, Value, one, eq, DocumentFilter, Platform}
use warehousd.Acl.Principals.{Membership, GroupSource}
use warehousd.Grants.Table.{pending, approved, revoked, absent, filters, GrantRow, GrantTable}
use warehousd.Grants.Approval.{ApproveOptions}
use warehousd.Grants.Eval.{ActiveGrant}
use warehousd.Audit.{AuditWriter}
use warehousd.Verbs.Guard.{VerbDeps}
use warehousd.Import.Coerce.{Conversions}
use warehousd.Revisions.{RevisionOp, RevisionStatus, RevisionRow}
use warehousd.Verbs.Mutate.Intent.{Store, WriteDeps, MutationIntent, update}

abbrev field : FieldType → PostureInput → Bool → FieldConfig
field type posture pk = record {
  type = some type;
  posture = posture;
  mask = none;
  pk = pk;
  view_join = false;
  relation = false;
  nullable = false;
}

abbrev masked_field : FieldConfig
masked_field = field text (axes (some "mask") none (some "allow")) false

abbrev pub people : CollectionConfig
people = record {
  kind = dataset;
  taxonomies = [];
  writable = true;
  acl = false;
  source_ref = false;
  grant_expiry_days = none;
  fields =
      ("id", field text (axes (some "allow") none none) true)
      ∷ ("name", field text (axes (some "allow") (some "allow") none) false)
      ∷ ("email", record masked_field { mask = some redact })
      ∷ ("salary", field text (axes (some "deny") none none) false)
      ∷ [];
}

abbrev pub cfg : WarehousdConfig
cfg = record { collections = ("people", people) ∷ []; audit = some true }

abbrev pub platform : Platform
platform = record { instant_of = λ t. none }

abbrev pub ann : BrokerContext
ann = record {
  user_id = "ann";
  workspace_id = "default";
  env = live;
  allowed_collections = none;
  via = "rest";
}

abbrev pub editors : List Membership
editors =
    record {
      workspace_id = "default";
      user_id = "ann";
      group_name = "editors";
      source = GroupSource.manual;
    }
    ∷ []

abbrev pub own_name : DocumentFilter
own_name = record { field = "name"; op = eq; value = one (Scalar.str "$self") }

abbrev pub asked : GrantRow
asked = record {
  id = "g1";
  user_id = "ann";
  collection = "people";
  env = live;
  workspace_id = "default";
  allowed_fields = some ("name" ∷ "email" ∷ []);
  unmasked_fields = some [];
  document_filter = absent;
  verbs = some ("read" ∷ []);
  mode = some "direct";
  principal = some "user:ann";
  status = pending;
  expires_at = none;
  requested_at = 5;
  decided_by = none;
}

abbrev pub given : GrantRow
given = record asked {
  status = approved;
  verbs = some ("read" ∷ "update" ∷ []);
  document_filter = filters (own_name ∷ []);
  decided_by = some "bob";
}

abbrev pub withdrawn_grant : GrantRow
withdrawn_grant = record given { id = "g2"; status = revoked }

abbrev pub grants : GrantTable
grants = withdrawn_grant ∷ given ∷ []

abbrev pub keep_requested : ApproveOptions
keep_requested = record {
  allowed_fields = none;
  expires_at = none;
  document_filters = none;
  verbs = none;
  mode = none;
  unmasked_fields = none;
  workspace_id = none;
}

-- What ann runs under: the second row, with `$self` bound.
abbrev pub active : ActiveGrant
active = record {
  id = "g1";
  allowed_fields = "name" ∷ "email" ∷ [];
  unmasked_fields = [];
  document_filter = record { field = "name"; op = eq; value = one (Scalar.str "ann") } ∷ [];
  verbs = "read" ∷ "update" ∷ [];
  mode = "direct";
  principals = "user:ann" ∷ "group:editors" ∷ [];
  expires_at = none;
  principal = "user:ann";
}

abbrev pub deps : VerbDeps
deps = record { cfg = cfg; platform = platform; grants = grants; memberships = editors; now = 10 }

abbrev pub writer : AuditWriter
writer = record { ctx = ann; enabled = true; sink = λ rows row. some "a1"; batch_id = none }

abbrev conversions : Conversions
conversions = record {
  text_of = text_of;
  number_of = λ t. record { text = "0"; safe_integer = true; finite = true };
  is_integer = λ n. n.safe_integer;
  day_of = λ s. none;
  instant_of = λ s. none;
  json_of = λ s. none;
}
  where
    text_of : Value → String
    text_of (one (Scalar.str s)) = s
    text_of v = ""

abbrev pub text_key : Value → Option String
text_key (one (Scalar.str s)) = some s
text_key v = none

abbrev pub same_keys : Option String → Option String → Bool
same_keys (some a) (some b) = a == b
same_keys _ _ = false

abbrev pub same_text : Value → Value → Bool
same_text v w = same_keys (text_key v) (text_key w)

abbrev key_text : Value → String
key_text (one (Scalar.str s)) = s
key_text v = ""

abbrev pub write_deps : WriteDeps
write_deps = record {
  platform = platform;
  conversions = conversions;
  same_key = same_text;
  key_text = key_text;
  acl_rows = [];
  new_rev = "r2";
  new_id = "u1";
}

abbrev pub first : RevisionRow
first = record {
  rev = "r1";
  seq = 1;
  by = "seed";
  op = RevisionOp.create;
  status = RevisionStatus.approved;
  fields = [];
  base = none;
  current = true;
  workspace_id = "default";
  columns =
      ("id", one (Scalar.str "p1"))
      ∷ ("name", one (Scalar.str "ann"))
      ∷ ("email", one (Scalar.str "ann@example.org"))
      ∷ ("salary", one (Scalar.str "1"))
      ∷ [];
}

abbrev pub store : Store
store = record { revisions = first ∷ []; change_log = [] }

abbrev pub rename : Option String → String → MutationIntent
rename expect name = update "people" "p1" expect (("name", one (Scalar.str name)) ∷ [])
