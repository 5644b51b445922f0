-- ===== src/Grants/Decide.antt =====
-- packages/broker/src/grants/manage.ts: deciding a grant. The unique index of migration 0007, one
-- approved grant for each principal, collection, environment and workspace, is part of the update.
pub mod Governed
pub mod Steps
pub mod Lifecycle
pub mod Permanence
mod Tests
use warehousd.Prelude.{
  ℕ, String, Bool, true, false, not, ◌&&◌, ◌||◌, Option, none, some, List, [], ◌∷◌, includes,
  filter, find, map, any, is_empty, is_some, or_default, if◌then◌else◌, ◌==◌, strip_prefix, ltb,
}
use warehousd.Context.{Env, live, dev, env_eq}
use warehousd.Config.{CollectionConfig, WarehousdConfig, find_collection}
use warehousd.Config.Fields.{grantable_fields, unmaskable_fields}
use warehousd.Value.{Scalar, Value, one, many, DocumentFilter, Platform}
use warehousd.Acl.Principals.{
  Membership, user_prefix, group_prefix, user_principal, group_principal,
}
use warehousd.Grants.Filters.{FilterValidationError, validate_document_filters}
use warehousd.Grants.Table.{
  Status, pending, approved, denied, revoked, status_eq, FilterColumn, absent, filters, GrantRow,
  GrantTable,
}
use warehousd.Grants.Eval.{self, unexpired}
use warehousd.Grants.Manage.{validate_verbs, default_workspace_id, resolve_expiry}
use warehousd.Grants.Approval.{
  ApproveOptions, ApproveError, unknown_grant, Warning, narrower_than_inherited, is_grant, Decision,
  decision_of, check_decision,
}

-- `clash` is the database's error on the unique index.
pub data ApproveResult : Type 0 where
  approval : Option Warning → ApproveResult
  failed : ApproveError → ApproveResult
  clash : ApproveResult

abbrev pub stored_filters : List DocumentFilter → FilterColumn
stored_filters [] = absent
stored_filters (f ∷ fs) = filters (f ∷ fs)

-- The columns that the update sets. `coalesce` keeps the requested fields where the approver named
-- none.
abbrev pub approve_row : Option (List String) → Decision → GrantRow → GrantRow
approve_row named d g = record g {
  status = approved;
  decided_by = some d.by;
  allowed_fields = (elim named [ none ↦ g.allowed_fields | some fs ↦ some fs ]);
  expires_at = d.expires_at;
  document_filter = stored_filters d.document_filters;
  verbs = some d.verbs;
  mode = some d.mode;
  unmasked_fields = some d.unmasked_fields;
}

abbrev same_principal : Option String → Option String → Bool
same_principal (some p) (some q) = p == q
same_principal _ _ = false

abbrev pub same_subject : GrantRow → GrantRow → Bool
same_subject g h =
    g.workspace_id == h.workspace_id
    && same_principal g.principal h.principal
    && g.collection == h.collection
    && env_eq g.env h.env

-- `update … where id and workspace and status`, and how many rows it set.
abbrev pub update_where : (GrantRow → Bool) → (GrantRow → GrantRow) → GrantTable → GrantTable
update_where p f [] = []
update_where p f (g ∷ gs) = (if p g then f g else g) ∷ update_where p f gs

abbrev pub decidable : String → String → Status → GrantRow → Bool
decidable id workspace_id status g = is_grant id workspace_id g && status_eq g.status status

abbrev clashes : GrantTable → GrantRow → Bool
clashes table g = any (λ h. status_eq h.status approved && same_subject g h) table

abbrev pub update_approved :
    GrantTable
    → List Membership
    → ℕ
    → GrantRow
    → Option (List String)
    → Decision
    → ApproveResult × GrantTable
update_approved table memberships now grant named d =
    let target = decidable grant.id d.workspace_id pending in
    let warning =
      narrower_than_inherited table memberships now grant d.workspace_id
        (or_default grant.principal (user_principal grant.user_id)) d.allowed_fields in
    if not (any target table)
    then (failed unknown_grant, table)
    else if any (λ g. target g && clashes table g) table
    then (clash, table)
    else (approval warning, update_where target (approve_row named d) table)

abbrev pub on_checked :
    GrantTable
    → List Membership
    → ℕ
    → GrantRow
    → Option (List String)
    → Decision
    → Option ApproveError
    → ApproveResult × GrantTable
on_checked table memberships now grant named d (some e) = (failed e, table)
on_checked table memberships now grant named d none =
    update_approved table memberships now grant named d

abbrev pub on_grant :
    WarehousdConfig
    → Platform
    → GrantTable
    → List Membership
    → ℕ
    → String
    → ApproveOptions
    → Option GrantRow
    → ApproveResult × GrantTable
on_grant cfg platform table memberships now by opts none = (failed unknown_grant, table)
on_grant cfg platform table memberships now by opts (some grant) =
    let d = decision_of cfg now grant by opts in
    on_checked table memberships now grant opts.allowed_fields d
      (check_decision cfg platform grant d)

unfoldable pub approve_grant :
    WarehousdConfig
    → Platform
    → List Membership
    → ℕ
    → String
    → String
    → ApproveOptions
    → GrantTable
    → ApproveResult × GrantTable
unfolding check_decision narrower_than_inherited
approve_grant cfg platform memberships now id by opts table =
    on_grant cfg platform table memberships now by opts
      (find (is_grant id (or_default opts.workspace_id default_workspace_id)) table)

abbrev pub close : Status → String → GrantRow → GrantRow
close status by g = record g { status = status; decided_by = some by }

unfoldable pub deny_grant : String → String → String → GrantTable → Bool × GrantTable
deny_grant id by workspace_id table =
    let target = decidable id workspace_id pending in
    (any target table, update_where target (close denied by) table)

unfoldable pub revoke_grant : String → String → String → GrantTable → Bool × GrantTable
revoke_grant id by workspace_id table =
    let target = decidable id workspace_id approved in
    (any target table, update_where target (close revoked by) table)
