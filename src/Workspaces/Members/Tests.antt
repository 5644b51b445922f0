-- ===== src/Workspaces/Members/Tests.antt =====
-- Runs of workspaces/members.ts, and its theorem at a workspace of two admins.
use warehousd.Prelude.{◌≡◌, ◌≤◌, refl, [], ◌∷◌, arith}
use warehousd.Workspaces.Members.{Member, WorkspaceRole, remove_member, last_admin}
use warehousd.Workspaces.Members.Laws.{admins, remove_member_keeps_admin}

abbrev ann_admin : Member
ann_admin = record { workspace_id = "w"; user_id = "ann"; role = WorkspaceRole.admin }

abbrev bob_admin : Member
bob_admin = record { workspace_id = "w"; user_id = "bob"; role = WorkspaceRole.admin }

last_run : (remove_member "w" "ann" (ann_admin ∷ [])).0 ≡ last_admin
unfolding remove_member
last_run = refl

two_run : (remove_member "w" "ann" (ann_admin ∷ bob_admin ∷ [])).1 ≡ bob_admin ∷ []
unfolding remove_member
two_run = refl

remove_member_keeps_admin_example :
    (1 ≤ admins "w" (remove_member "w" "ann" (ann_admin ∷ bob_admin ∷ [])).1)
    × ((remove_member "w" "ann" (ann_admin ∷ bob_admin ∷ [])).0 ≡ last_admin
        → admins "w" (ann_admin ∷ bob_admin ∷ []) ≡ 1)
remove_member_keeps_admin_example =
    remove_member_keeps_admin "w" "ann" (ann_admin ∷ bob_admin ∷ []) (refl, (refl, tt))
      (ground arith)
