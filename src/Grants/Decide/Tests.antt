-- ===== src/Grants/Decide/Tests.antt =====
-- Runs of grants/manage.ts, and its theorems at the scenario.
use mathlib.Core.List.{Memᴰ}
use warehousd.Config.Posture.{normalize_posture}
use warehousd.Config.Fields.{supported_verbs, writable_fields}
use warehousd.Prelude.{String, ◌≡◌, refl, ◌⊎◌, inr, true, none, some, [], ◌∷◌}
use warehousd.Config.{find_collection}
use warehousd.Config.Fields.{grantable_fields}
use warehousd.Context.{live}
use warehousd.Grants.Table.{GrantTable, revoked}
use warehousd.Grants.Manage.{RequestInput, request_grant, validate_verbs}
use warehousd.Grants.Approval.{Decision, decision_of, check_decision}
use warehousd.Grants.Decide.{approve_grant, approve_row, close, revoke_grant}
use warehousd.Grants.Decide.Governed.{IsGoverned}
use warehousd.Grants.Decide.Lifecycle.{Step, Reachable, Reachable-IsGoverned}
use warehousd.Grants.Decide.Permanence.{Later, closed_is_final, approved_is_only_revoked}
use warehousd.Scenario.{cfg, platform, asked, given, withdrawn_grant, grants, keep_requested}

abbrev request : RequestInput
request = record {
  user_id = "ann";
  collection = "people";
  env = live;
  workspace_id = none;
  allowed_fields = "name" ∷ "email" ∷ [];
  principal = none;
}

request_run : request_grant "g1" 5 request [] ≡ some (asked ∷ [])
unfolding request_grant
request_run = refl

abbrev decided_table : GrantTable
decided_table = approve_row none (decision_of cfg 9 asked "bob" keep_requested) asked ∷ []

approve_run :
    (approve_grant cfg platform [] 9 "g1" "bob" keep_requested (asked ∷ [])).1 ≡ decided_table
unfolding approve_grant validate_verbs find_collection grantable_fields normalize_posture
approve_run = refl

-- Nobody approves their own request on live.
own_run : (approve_grant cfg platform [] 9 "g1" "ann" keep_requested (asked ∷ [])).1 ≡ asked ∷ []
unfolding approve_grant
own_run = refl

decided_Reachable :
    Reachable cfg (approve_grant cfg platform [] 9 "g1" "bob" keep_requested (asked ∷ [])).1
decided_Reachable =
    Reachable.next (asked ∷ []) _
      (Reachable.next [] (asked ∷ []) Reachable.start
        (Step.requested "g1" 5 request [] (asked ∷ []) refl request_run))
      (Step.decided platform [] 9 "g1" "bob" keep_requested (asked ∷ []))

Reachable-IsGoverned_example :
    IsGoverned cfg (approve_grant cfg platform [] 9 "g1" "bob" keep_requested (asked ∷ [])).1
Reachable-IsGoverned_example =
    Reachable-IsGoverned cfg
      (approve_grant cfg platform [] 9 "g1" "bob" keep_requested (asked ∷ [])).1 decided_Reachable

revoke_run : (revoke_grant "g1" "bob" "default" grants).0 ≡ true
unfolding revoke_grant
revoke_run = refl

revoke_Later : Later cfg grants (revoke_grant "g1" "bob" "default" grants).1
revoke_Later = Later.after grants _ Later.here (Step.withdrawn "g1" "bob" "default" grants)

closed_is_final_example : Memᴰ withdrawn_grant (revoke_grant "g1" "bob" "default" grants).1
closed_is_final_example =
    closed_is_final cfg grants (revoke_grant "g1" "bob" "default" grants).1 withdrawn_grant
      revoke_Later (Memᴰ.head refl) (inr refl)

approved_is_only_revoked_example :
    Memᴰ given (revoke_grant "g1" "bob" "default" grants).1
    ⊎ ((by : String) × Memᴰ (close revoked by given) (revoke_grant "g1" "bob" "default" grants).1)
approved_is_only_revoked_example =
    approved_is_only_revoked cfg grants (revoke_grant "g1" "bob" "default" grants).1 given
      revoke_Later (Memᴰ.tail (Memᴰ.head refl)) refl

verbs_run : validate_verbs ("read" ∷ "update" ∷ []) cfg "people" ("name" ∷ []) ≡ none
unfolding validate_verbs find_collection supported_verbs writable_fields normalize_posture
verbs_run = refl

abbrev decision : Decision
decision = decision_of cfg 9 asked "bob" keep_requested

check_run : check_decision cfg platform asked decision ≡ none
unfolding check_decision validate_verbs find_collection grantable_fields normalize_posture
check_run = refl
