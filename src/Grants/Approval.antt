-- ===== src/Grants/Approval.antt =====
-- packages/broker/src/grants/manage.ts: what an approval checks before it decides, and the warning
-- that it gives.
pub mod Laws
use warehousd.Prelude.{
  ℕ, String, Bool, true, false, not, ◌&&◌, ◌||◌, Option, none, some, List, [], ◌∷◌, includes,
  filter, find, map, any, is_empty, is_some, or_default, if◌then◌else◌, ◌==◌, strip_prefix, ltb,
}
use warehousd.Context.{Env, live, dev, env_eq}
use warehousd.Config.{CollectionConfig, WarehousdConfig, find_collection}
use warehousd.Config.Fields.{grantable_fields, unmaskable_fields}
use warehousd.Value.{Scalar, Value, one, many, DocumentFilter, Platform}
use warehousd.Acl.Principals.{
  Membership, user_prefix, group_prefix, user_principal, group_principal,
}
use warehousd.Grants.Filters.{FilterValidationError, validate_document_filters}
use warehousd.Grants.Table.{
  Status, pending, approved, denied, revoked, status_eq, FilterColumn, absent, filters, GrantRow,
  GrantTable,
}
use warehousd.Grants.Eval.{self, unexpired}
use warehousd.Grants.Manage.{validate_verbs, default_workspace_id, resolve_expiry}

-- `$self` is no literal yet: it is checked when it is bound.
abbrev pub unbind : Scalar → Scalar
unbind (Scalar.str s) = if s == self then Scalar.null else Scalar.str s
unbind s = s

abbrev pub unbind_value : Value → Value
unbind_value (one s) = one (unbind s)
unbind_value (many ss) = many (map unbind ss)

abbrev pub unbind_filter : DocumentFilter → DocumentFilter
unbind_filter f = record f { value = unbind_value f.value }

unfoldable pub validate_grant_filters :
    Platform → List DocumentFilter → CollectionConfig → Option FilterValidationError
unfolding validate_document_filters
validate_grant_filters platform fs c = validate_document_filters platform (map unbind_filter fs) c

pub record ApproveOptions : Type 0 where
  pub allowed_fields : Option (List String)
  pub expires_at : Option ℕ
  pub document_filters : Option (List DocumentFilter)
  pub verbs : Option (List String)
  pub mode : Option String
  pub unmasked_fields : Option (List String)
  pub workspace_id : Option String

pub data ApproveError : Type 0 where
  unknown_grant invalid_verbs invalid_unmask invalid_filter field_not_grantable
        self_approval_denied :
      ApproveError

pub record Warning : Type 0 where
  pub principal : String
  pub losing : List String

-- `order by requested_at desc limit 1`
latest : List GrantRow → Option GrantRow
latest [] = none
latest (g ∷ gs) = elim (latest gs) [
  | none ↦ some g
  | some h ↦ some (if ltb g.requested_at h.requested_at then h else g)
]

abbrev in_group : List Membership → String → String → Option String → Bool
in_group memberships workspace_id user_id none = false
in_group memberships workspace_id user_id (some p) =
    is_some (strip_prefix group_prefix p)
    && any
        (λ m.
          m.workspace_id == workspace_id
          && m.user_id == user_id
          && group_principal m.group_name == p)
        memberships

abbrev inherited : List Membership → ℕ → GrantRow → String → GrantRow → Bool
inherited memberships now subject workspace_id g =
    g.collection == subject.collection
    && env_eq g.env subject.env
    && g.workspace_id == workspace_id
    && status_eq g.status approved
    && unexpired now g.expires_at
    && in_group memberships workspace_id subject.user_id g.principal

abbrev lost : List String → Option GrantRow → Option Warning
lost allowed none = none
lost allowed (some g) =
    let losing = filter (λ f. not (includes allowed f)) (or_default g.allowed_fields []) in
    if is_empty losing
    then none
    else some (record { principal = or_default g.principal ""; losing = losing })

-- Only a personal grant can shadow the grant of a group.
unfoldable pub narrower_than_inherited :
    GrantTable → List Membership → ℕ → GrantRow → String → String → List String → Option Warning
unfolding latest
narrower_than_inherited table memberships now subject workspace_id principal allowed =
    if is_some (strip_prefix user_prefix principal)
    then lost allowed (latest (filter (inherited memberships now subject workspace_id) table))
    else none

abbrev pub is_grant : String → String → GrantRow → Bool
is_grant id workspace_id g = g.id == id && g.workspace_id == workspace_id

-- What the approval decides: the fields, verbs, mode and raw fields it checks and stores.
pub record Decision : Type 0 where
  pub by : String
  pub workspace_id : String
  pub allowed_fields : List String
  pub verbs : List String
  pub mode : String
  pub unmasked_fields : List String
  pub document_filters : List DocumentFilter
  pub expires_at : Option ℕ

abbrev pub decision_of : WarehousdConfig → ℕ → GrantRow → String → ApproveOptions → Decision
decision_of cfg now grant by opts = record {
  by = by;
  workspace_id = or_default opts.workspace_id default_workspace_id;
  allowed_fields = or_default opts.allowed_fields (or_default grant.allowed_fields []);
  verbs = or_default opts.verbs (or_default grant.verbs ("read" ∷ []));
  mode = or_default opts.mode (or_default grant.mode "direct");
  unmasked_fields = or_default opts.unmasked_fields [];
  document_filters = or_default opts.document_filters [];
  expires_at = resolve_expiry cfg grant.collection now opts.expires_at;
}

abbrev pub outside : List String → List String → List String
outside allowed fields = filter (λ f. not (includes allowed f)) fields

abbrev pub check_filters : Platform → Option CollectionConfig → List DocumentFilter → Bool
check_filters platform none fs = true
check_filters platform (some c) fs = not (is_some (validate_grant_filters platform fs c))

abbrev pub check_unmask : WarehousdConfig → GrantRow → Decision → Option ApproveError
check_unmask cfg grant d =
    if is_empty (outside d.allowed_fields d.unmasked_fields)
      && is_empty (outside (unmaskable_fields cfg grant.collection) d.unmasked_fields)
    then none
    else some invalid_unmask

-- The checks before the update, in order: four eyes on live, verbs, grantable fields, filters, raw
-- fields.
unfoldable pub check_decision :
    WarehousdConfig → Platform → GrantRow → Decision → Option ApproveError
unfolding validate_grant_filters
check_decision cfg platform grant d =
    if env_eq grant.env live && grant.user_id == d.by
    then some self_approval_denied
    else if is_some (validate_verbs d.verbs cfg grant.collection d.allowed_fields)
    then some invalid_verbs
    else if not (is_empty (outside (grantable_fields cfg grant.collection) d.allowed_fields))
    then some field_not_grantable
    else if not (check_filters platform (find_collection cfg grant.collection) d.document_filters)
    then some invalid_filter
    else check_unmask cfg grant d
