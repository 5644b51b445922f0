-- ===== src/Grants/Decide/Lifecycle.antt =====
-- Every table that requests, approvals, denials and revocations can leave, in any order.
use warehousd.Prelude.{ℕ, String, ◌≡◌, false, some, List, [], includes, map}
use warehousd.Config.{WarehousdConfig}
use warehousd.Value.{Platform}
use warehousd.Acl.Principals.{Membership}
use warehousd.Grants.Table.{pending, approved, denied, revoked, GrantTable}
use warehousd.Grants.Manage.{RequestInput, request_grant}
use warehousd.Grants.Approval.{ApproveOptions}
use warehousd.Grants.Decide.{decidable, approve_grant, deny_grant, revoke_grant}
use warehousd.Grants.Decide.Governed.{IsGoverned, id_of}
use warehousd.Grants.Decide.Steps.{
  approve_grant-IsGoverned, close-IsGoverned, request_grant-IsGoverned,
}

-- One call of an operation. An id that the database gives to a request is new.
pub data Step (cfg : WarehousdConfig) : GrantTable → GrantTable → Type 0 where
  requested :
      (id : String) (now : ℕ) (i : RequestInput) (table after : GrantTable)
      → includes (map id_of table) id ≡ false
      → request_grant id now i table ≡ some after
      → Step cfg table after
  decided :
      (platform : Platform) (memberships : List Membership) (now : ℕ) (id by : String)
      (opts : ApproveOptions) (table : GrantTable)
      → Step cfg table (approve_grant cfg platform memberships now id by opts table).1
  refused :
      (id by workspace_id : String) (table : GrantTable)
      → Step cfg table (deny_grant id by workspace_id table).1
  withdrawn :
      (id by workspace_id : String) (table : GrantTable)
      → Step cfg table (revoke_grant id by workspace_id table).1

-- The tables that calls can leave, from the empty table on.
pub data Reachable (cfg : WarehousdConfig) : GrantTable → Type 0 where
  start : Reachable cfg []
  next :
      (before after : GrantTable)
      → Reachable cfg before
      → Step cfg before after
      → Reachable cfg after

Step-IsGoverned :
    (cfg : WarehousdConfig) (before after : GrantTable)
    → Step cfg before after
    → IsGoverned cfg before
    → IsGoverned cfg after
unfolding deny_grant revoke_grant
Step-IsGoverned cfg before after (Step.requested id now i _ _ fresh e) g =
    request_grant-IsGoverned cfg id now i before after fresh e g
Step-IsGoverned cfg before _ (Step.decided platform memberships now id by opts _) g =
    approve_grant-IsGoverned cfg platform memberships now id by opts before g
Step-IsGoverned cfg before _ (Step.refused id by ws _) g =
    close-IsGoverned cfg (decidable id ws pending) denied by before (λ e. absurd (cc)) g
Step-IsGoverned cfg before _ (Step.withdrawn id by ws _) g =
    close-IsGoverned cfg (decidable id ws approved) revoked by before (λ e. absurd (cc)) g

-- Every table that requests, approvals, denials and revocations leave, in any order and with any
-- input, is governed: ids are unique, and each approved row has valid verbs, fields that are
-- grantable, raw fields among its fields that the configuration can unmask, and, on live, another
-- decider than the user who asked.
pub Reachable-IsGoverned :
    (cfg : WarehousdConfig) (table : GrantTable) → Reachable cfg table → IsGoverned cfg table
Reachable-IsGoverned cfg _ Reachable.start = record { rows = tt; unique = tt }
Reachable-IsGoverned cfg _ (Reachable.next before after r s) =
    Step-IsGoverned cfg before after s (Reachable-IsGoverned cfg before r)
