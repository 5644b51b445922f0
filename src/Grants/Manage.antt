-- ===== src/Grants/Manage.antt =====
-- packages/broker/src/grants/manage.ts: asking for a grant, and the rules for its verbs, fields and
-- expiry. Deciding one is in Grants/Decide.
pub mod Laws
use warehousd.Prelude.{
  ℕ, ◌+◌, ◌*◌, String, Bool, true, false, not, ◌&&◌, ◌||◌, Option, none, some, List, [], ◌∷◌, ◌++◌,
  includes, lookup, filter, find, map, any, all, is_empty, is_some, or_default, if◌then◌else◌, ◌==◌,
  join, nat_eq,
}
use warehousd.Context.{Env, BrokerContext}
use warehousd.Config.{CollectionConfig, WarehousdConfig, find_collection}
use warehousd.Config.Fields.{grantable_fields, writable_fields, supported_verbs}
use warehousd.Acl.Principals.{is_principal, user_principal}
use warehousd.Grants.Filters.Scan.{codes, trim}
use warehousd.Grants.Table.{Status, pending, FilterColumn, absent, GrantRow, GrantTable}

abbrev pub grant_verbs : List String
grant_verbs = "read" ∷ "create" ∷ "update" ∷ "delete" ∷ "approve" ∷ []

abbrev pub mutating_verbs : List String
mutating_verbs = "create" ∷ "update" ∷ "delete" ∷ []

-- The first of the verbs that is not known, and the first that changes data and is not supported.
abbrev pub unknown_verb : List String → Option String
unknown_verb verbs = find (λ v. not (includes grant_verbs v)) verbs

abbrev pub unsupported_verb : List String → List String → Option String
unsupported_verb supported verbs =
    find (λ v. includes mutating_verbs v && not (includes supported v)) verbs

-- `verbs.some((v) => MUTATING_VERBS.includes(v))`
abbrev pub mutates : List String → Bool
mutates verbs = any (includes mutating_verbs) verbs

abbrev pub needs_writable : List String → List String → List String → Option String
needs_writable verbs allowed_fields writable =
    if mutates verbs && not (any (includes writable) allowed_fields)
    then some "write verbs require at least one writable field in allowed_fields"
    else none

abbrev pub check_support : Option String → List String → List String → List String → Option String
check_support (some v) verbs allowed_fields writable =
    some (join "collection does not support the " (join v " verb"))
check_support none verbs allowed_fields writable = needs_writable verbs allowed_fields writable

abbrev pub check_known :
    Option String → List String → WarehousdConfig → String → List String → Option String
check_known (some v) verbs cfg collection allowed_fields =
    some (join "unknown verb \"" (join v "\""))
check_known none verbs cfg collection allowed_fields =
    if not (is_some (find_collection cfg collection))
    then some "unknown collection"
    else if includes verbs "approve" && not (includes verbs "read")
    then some "the approve verb requires read"
    else check_support (unsupported_verb (supported_verbs cfg collection) verbs) verbs
        allowed_fields (writable_fields cfg collection)

-- `none` is the source's `{ ok: true }`, and a text its error.
unfoldable pub validate_verbs : List String → WarehousdConfig → String → List String → Option String
validate_verbs verbs cfg collection allowed_fields =
    if is_empty verbs
    then some "grant must carry at least one verb"
    else check_known (unknown_verb verbs) verbs cfg collection allowed_fields

pub data GrantRequestError : Type 0 where
  unknown_collection purpose_required field_not_grantable : GrantRequestError

pub data GrantRequest : Type 0 where
  valid : List String → GrantRequest
  invalid : GrantRequestError → GrantRequest

-- `purpose_label` and `fields` are `none` where the request holds no text and no array.
abbrev pub has_purpose : Option String → Bool
has_purpose none = false
has_purpose (some s) = not (is_empty (trim (codes s)))

abbrev pub requested_fields : Option (List String) → List String → List String
requested_fields none grantable = grantable
requested_fields (some fields) grantable = if is_empty fields then grantable else fields

unfoldable pub validate_grant_request :
    WarehousdConfig → String → Option String → Option (List String) → GrantRequest
validate_grant_request cfg collection purpose_label fields =
    let grantable = grantable_fields cfg collection in
    let requested = requested_fields fields grantable in
    if not (is_some (find_collection cfg collection))
    then invalid unknown_collection
    else if not (has_purpose purpose_label)
    then invalid purpose_required
    else if all (includes grantable) requested
    then valid requested
    else invalid field_not_grantable

abbrev pub default_workspace_id : String
default_workspace_id = "default"

pub record RequestInput : Type 0 where
  pub user_id : String
  pub collection : String
  pub env : Env
  pub workspace_id : Option String
  pub allowed_fields : List String
  pub principal : Option String

-- The row that the insert leaves: the id and the time are the database's, the verbs, the mode and
-- the unmasked fields its defaults.
abbrev pub requested_row : String → ℕ → RequestInput → String → GrantRow
requested_row id now i principal = record {
  id = id;
  user_id = i.user_id;
  collection = i.collection;
  env = i.env;
  workspace_id = or_default i.workspace_id default_workspace_id;
  allowed_fields = some i.allowed_fields;
  unmasked_fields = some [];
  document_filter = absent;
  verbs = some ("read" ∷ []);
  mode = some "direct";
  principal = some principal;
  status = pending;
  expires_at = none;
  requested_at = now;
  decided_by = none;
}

-- `none` is the error that is thrown for a principal without a namespace.
unfoldable pub request_grant : String → ℕ → RequestInput → GrantTable → Option GrantTable
unfolding user_principal is_principal
request_grant id now i table =
    let principal = or_default i.principal (user_principal i.user_id) in
    if is_principal principal then some (table ++ requested_row id now i principal ∷ []) else none

-- Milliseconds, as the platform counts them.
abbrev day_ms : ℕ
day_ms = 24 * 60 * 60 * 1000

abbrev pub expiry_days : Option CollectionConfig → Option ℕ
expiry_days none = none
expiry_days (some c) = c.grant_expiry_days

abbrev pub default_expiry : ℕ → Option ℕ → Option ℕ
default_expiry now none = none
default_expiry now (some days) = if nat_eq days 0 then none else some (now + days * day_ms)

unfoldable pub resolve_expiry : WarehousdConfig → String → ℕ → Option ℕ → Option ℕ
resolve_expiry cfg collection now (some explicit) = some explicit
resolve_expiry cfg collection now none =
    default_expiry now (expiry_days (lookup collection cfg.collections))
