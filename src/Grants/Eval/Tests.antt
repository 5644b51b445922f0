-- ===== src/Grants/Eval/Tests.antt =====
-- Runs of grants/eval.ts, and its theorems at the grants of the scenario.
use warehousd.Prelude.{none, lookup, includes, if◌then◌else◌, ◌≡◌, ◌≢◌, refl, true, [], ◌∷◌, All}
use warehousd.Acl.Principals.{load_principals}
use warehousd.Grants.Eval.{
  no_grant, granted, self, under_ceiling, to_active_grant, load_active_grant,
}
use warehousd.Grants.Table.{GrantRow}
use warehousd.Grants.Eval.Order.{Carries}
use warehousd.Grants.Eval.Laws.{
  IsChosen, load_active_grant-IsChosen, to_active_grant-IsBound, IsBound,
}
use warehousd.Grants.Eval.Batch.{found, as_option, load_active_grants, load_active_grants_lem}
use warehousd.Scenario.{ann, editors, given, grants, active}

load_run : load_active_grant grants editors 10 ann "people" ≡ granted active
unfolding load_active_grant
load_run = refl

nothing_run : load_active_grant grants editors 10 ann "salaries" ≡ no_grant
unfolding load_active_grant
nothing_run = refl

bind_run : to_active_grant given "ann" ("user:ann" ∷ "group:editors" ∷ []) ≡ granted active
unfolding to_active_grant
bind_run = refl

load_active_grant-IsChosen_example :
    (under_ceiling ann "people" ≡ true)
    × ((row : GrantRow) × IsChosen grants (load_principals editors ann) 10 ann "people" row
        × Carries row "ann" (load_principals editors ann) active)
load_active_grant-IsChosen_example =
    load_active_grant-IsChosen grants editors 10 ann "people" active load_run

other_user : "ann" ≢ self
other_user = λ e. cc

to_active_grant-IsBound_example : All IsBound active.document_filter
to_active_grant-IsBound_example =
    to_active_grant-IsBound given "ann" ("user:ann" ∷ "group:editors" ∷ []) active other_user
      bind_run

batch_run :
    load_active_grants grants editors 10 ann ("people" ∷ "orders" ∷ [])
    ≡ found (("people", active) ∷ [])
unfolding load_active_grants
batch_run = refl

load_active_grants_example : lookup "people" (("people", active) ∷ []) ≡ (
    if includes ("people" ∷ "orders" ∷ []) "people"
    then as_option (load_active_grant grants editors 10 ann "people")
    else none)
load_active_grants_example =
    load_active_grants_lem grants editors 10 ann ("people" ∷ "orders" ∷ [])
      (("people", active) ∷ []) "people" batch_run
