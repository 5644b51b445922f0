-- ===== src/Acl/Groups.antt =====
-- packages/broker/src/acl/manage.ts: the memberships that one source keeps for one user. The rows
-- of the pair are deleted and written anew in one transaction; the conflict clause has nothing to
-- meet. The lists of groups and members are selects and are not modelled.
pub mod Laws
use warehousd.Prelude.{
  String, Bool, true, false, not, ◌&&◌, List, [], ◌∷◌, ◌++◌, map, filter, distinct, ◌==◌,
}
use warehousd.Acl.Principals.{GroupSource, sso, manual, Membership}

abbrev pub source_eq : GroupSource → GroupSource → Bool
source_eq sso sso = true
source_eq manual manual = true
source_eq _ _ = false

abbrev pub is_owned : String → String → GroupSource → Membership → Bool
is_owned workspace_id user_id source m =
    m.workspace_id == workspace_id && m.user_id == user_id && source_eq m.source source

abbrev pub is_named : String → Bool
is_named g = not (g == "")

abbrev pub membership : String → String → GroupSource → String → Membership
membership workspace_id user_id source group = record {
  workspace_id = workspace_id;
  user_id = user_id;
  group_name = group;
  source = source;
}

unfoldable pub set_user_groups :
    String → String → List String → GroupSource → List Membership → List Membership
set_user_groups workspace_id user_id groups source rows =
    filter (λ m. not (is_owned workspace_id user_id source m)) rows
    ++ map (membership workspace_id user_id source) (distinct (filter is_named groups))
