-- ===== src/Workspaces/Members/Laws.antt =====
-- A removal never leaves a workspace without an admin.
use warehousd.Prelude.{
  ℕ, ◌+◌, ◌≤◌, String, ◌≡◌, refl, subst, ap, inl, inr, false, some, List, [], ◌∷◌, filter, find,
  any, length, if◌then◌else◌, arith, Bool-cases, Option-cases, eq_iff,
}
use warehousd.Workspaces.Members.{
  Member, is_admin, is_member_row, member_role, is_admin_of, last_admin, delete_member,
  remove_member,
}

-- How many admins a workspace has.
abbrev pub admins : String → List Member → ℕ
admins ws members = length (filter (is_admin_of ws) members)

-- The primary key: no user stands twice in one workspace.
abbrev pub IsKeyed : List Member → Type 0
IsKeyed [] = Unit
IsKeyed (m ∷ members) =
    (any (is_member_row m.workspace_id m.user_id) members ≡ false) × IsKeyed members

-- Deleting a user that has no row changes nothing.
delete_absent :
    (ws user : String) (members : List Member)
    → any (is_member_row ws user) members ≡ false
    → admins ws (delete_member ws user members) ≡ admins ws members
delete_absent ws user [] h = refl
delete_absent ws user (m ∷ members) h = ground (arith, delete_absent ws user members (ground arith))

-- A deletion takes one admin away at most, and none if the user is no admin.
delete-admins :
    (ws user : String) (members : List Member) (m : Member)
    → IsKeyed members
    → find (is_member_row ws user) members ≡ some m
    → admins ws members
      ≡ (if is_admin m.role then 1 else 0) + admins ws (delete_member ws user members)
delete-admins ws user [] m k h = absurd (cc)
delete-admins ws user (x ∷ members) m (fresh, k) h = elim (Bool-cases (is_member_row ws user x)) [
  | inl e ↦
      let same : x ≡ m = ground arith in
      let place : x.workspace_id ≡ ws = ground (arith, eq_iff x.workspace_id ws) in
      let who : x.user_id ≡ user = ground (arith, eq_iff x.user_id user) in
      let gone : any (is_member_row ws user) members ≡ false =
        subst (λ w. any (is_member_row w user) members ≡ false) place
          (subst (λ u. any (is_member_row x.workspace_id u) members ≡ false) who fresh) in
      ground (arith, delete_absent ws user members gone, ap (λ (y : Member). is_admin y.role) same)
  | inr e ↦ ground (arith, delete-admins ws user members m k (ground arith))
]

-- A removal, whatever it answers, leaves a workspace that had an admin with one; and it answers
-- that the admin is the last one only when there is just one admin.
pub remove_member_keeps_admin :
    (ws user : String) (members : List Member)
    → IsKeyed members
    → 1 ≤ admins ws members
    → (1 ≤ admins ws (remove_member ws user members).1)
      × ((remove_member ws user members).0 ≡ last_admin → admins ws members ≡ 1)
unfolding remove_member member_role
remove_member_keeps_admin ws user members k h =
    elim (Option-cases (find (is_member_row ws user) members)) [
      | inl e ↦ (ground arith, λ l. ground arith)
      | inr (m, e) ↦
          let counted = delete-admins ws user members m k e in
          (ground (arith, counted), λ l. ground arith)
    ]
