-- ===== src/Acl/Tests.antt =====
-- The theorems of acl/ at the scenario.
use warehousd.Prelude.{List, [], ◌∷◌, String, ◌≡◌, refl, true, includes, not, ◌&&◌, ◌==◌}
use warehousd.Acl.Principals.{is_principal}
use warehousd.Acl.Principals.{GroupSource}
use warehousd.Acl.Groups.{set_user_groups}
use warehousd.Acl.Groups.Laws.{owned_groups, others, set_user_groups_isolated}
use warehousd.Scenario.{editors}

sound_run : is_principal "group:editors" ≡ true
unfolding is_principal
sound_run = refl

abbrev idp_groups : List String
idp_groups = "readers" ∷ "" ∷ "readers" ∷ []

set_user_groups_isolated_example :
    (others "default" "ann" GroupSource.sso
        (set_user_groups "default" "ann" idp_groups GroupSource.sso editors)
      ≡ others "default" "ann" GroupSource.sso editors)
    × ((g : String)
        → includes
            (owned_groups "default" "ann" GroupSource.sso
              (set_user_groups "default" "ann" idp_groups GroupSource.sso editors))
            g
          ≡ (includes idp_groups g && not (g == "")))
set_user_groups_isolated_example =
    set_user_groups_isolated "default" "ann" GroupSource.sso idp_groups editors
