-- ===== src/Workspaces/Members.antt =====
-- packages/broker/src/workspaces/members.ts: the table `app.workspace_members`. The rows are unique
-- by workspace and user, as its primary key says. `listMembers` joins the users' table and is not
-- modelled.
pub mod Laws
mod Tests
use warehousd.Prelude.{
  ℕ, String, Bool, true, false, not, ◌&&◌, Option, none, some, List, [], ◌∷◌, ◌++◌, filter, find,
  any, map, length, leb, if◌then◌else◌, ◌==◌,
}

pub data WorkspaceRole : Type 0 where
  admin manager member : WorkspaceRole

abbrev pub is_admin : WorkspaceRole → Bool
is_admin admin = true
is_admin manager = false
is_admin member = false

pub record Member : Type 0 where
  pub workspace_id : String
  pub user_id : String
  pub role : WorkspaceRole

abbrev pub is_member_row : String → String → Member → Bool
is_member_row workspace_id user_id m = m.workspace_id == workspace_id && m.user_id == user_id

abbrev pub role_of : Option Member → Option WorkspaceRole
role_of none = none
role_of (some m) = some m.role

unfoldable pub member_role : List Member → String → String → Option WorkspaceRole
member_role members workspace_id user_id =
    role_of (find (is_member_row workspace_id user_id) members)

abbrev pub with_role : Member → Member → Member
with_role i m = if is_member_row i.workspace_id i.user_id m then record m { role = i.role } else m

-- `insert … on conflict (workspace_id, user_id) do update set role`
unfoldable pub set_member : Member → List Member → List Member
set_member i members =
    if any (is_member_row i.workspace_id i.user_id) members
    then map (with_role i) members
    else members ++ i ∷ []

-- The rows that the count of admins counts.
abbrev pub is_admin_of : String → Member → Bool
is_admin_of workspace_id m = m.workspace_id == workspace_id && is_admin m.role

-- `false`, `true`, and the error for the last admin.
pub data Removal : Type 0 where
  absent removed last_admin : Removal

abbrev pub delete_member : String → String → List Member → List Member
delete_member workspace_id user_id members =
    filter (λ m. not (is_member_row workspace_id user_id m)) members

abbrev pub on_role : String → String → List Member → Option WorkspaceRole → Removal × List Member
on_role workspace_id user_id members none = (absent, members)
on_role workspace_id user_id members (some role) =
    if is_admin role && leb (length (filter (is_admin_of workspace_id) members)) 1
    then (last_admin, members)
    else (removed, delete_member workspace_id user_id members)

unfoldable pub remove_member : String → String → List Member → Removal × List Member
unfolding member_role
remove_member workspace_id user_id members =
    on_role workspace_id user_id members (member_role members workspace_id user_id)
