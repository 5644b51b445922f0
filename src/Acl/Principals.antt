-- ===== src/Acl/Principals.antt =====
-- packages/broker/src/acl/principals.ts: namespaced principals, and the rule of a document's
-- access list. The table `app.user_groups` is a list of rows.
pub mod Laws
use warehousd.Prelude.{
  String, Bool, true, false, not, ◌&&◌, ◌||◌, Option, none, some, List, [], ◌∷◌, map, filter, any,
  includes, ◌==◌, strip_prefix, join, if◌then◌else◌, distinct,
}
use warehousd.Context.{BrokerContext}

pub data GroupSource : Type 0 where
  sso manual : GroupSource

pub record Membership : Type 0 where
  pub workspace_id : String
  pub user_id : String
  pub group_name : String
  pub source : GroupSource

abbrev pub user_prefix : String
user_prefix = "user:"

abbrev pub group_prefix : String
group_prefix = "group:"

unfoldable pub user_principal : String → String
user_principal user_id = join user_prefix user_id

unfoldable pub group_principal : String → String
group_principal group = join group_prefix group

-- `p.length > PREFIX.length`, of what follows the prefix.
abbrev pub has_more : Option String → Bool
has_more none = false
has_more (some rest) = not (rest == "")

unfoldable pub is_principal : String → Bool
is_principal p = has_more (strip_prefix user_prefix p) || has_more (strip_prefix group_prefix p)

-- The caller, and every group of theirs in this workspace, whichever source put the row there.
abbrev pub is_member : BrokerContext → Membership → Bool
is_member ctx m = m.workspace_id == ctx.workspace_id && m.user_id == ctx.user_id

unfoldable pub load_principals : List Membership → BrokerContext → List String
unfolding user_principal group_principal
load_principals memberships ctx =
    user_principal ctx.user_id
    ∷ map group_principal (distinct (map (λ m. m.group_name) (filter (is_member ctx) memberships)))

-- `none` is the source's `null`: there is no list for the document.
unfoldable pub acl_admits : Option (List String) → List String → Bool
acl_admits none principals = true
acl_admits (some []) principals = true
acl_admits (some acl) principals = any (includes principals) acl
