-- ===== src/Verbs/Guard/Tests.antt =====
-- Runs of verbs/guard.ts, and its theorems at the scenario.
use warehousd.Prelude.{String, ◌≡◌, refl, inl, true, none, some, List, [], ◌∷◌}
use warehousd.Context.{BrokerContext}
use warehousd.Config.{find_collection}
use warehousd.Grants.Filters.{validate_document_filters}
use warehousd.Grants.Eval.{no_grant, load_active_grant}
use warehousd.Audit.{Trail, AuditedRefusal, no_detail, refuse, row_of, refused}
use warehousd.Verbs.Guard.{
  Granted, resolved, refusal, GuardOptions, mask_plan, refused_with, with_grant, resolve_granted,
}
use warehousd.Verbs.Guard.Laws.{Passed, resolve_granted-Passed, read_refusal_uniform}
use warehousd.Verbs.Guard.Refusals.{Audited, resolve_granted-Audited}
use warehousd.Scenario.{people, cfg, ann, active, deps, writer}

abbrev names : List String → GuardOptions
names fields = record {
  collection_check = λ c. none;
  fields = fields;
  detail = no_detail;
  check_filters = true;
}

abbrev empty : Trail
empty = []

abbrev through : Granted
through = record {
  collection = people;
  grant = active;
  plan = mask_plan cfg "people" people [];
  acl_principals = none;
}

read_run :
    resolve_granted deps writer ann "people" "read" (names ("name" ∷ [])) []
    ≡ (resolved through, [])
unfolding resolve_granted find_collection load_active_grant validate_document_filters
read_run = refl

resolve_granted-Passed_example :
    Passed deps ann "people" "read" (names ("name" ∷ [])) through × (empty ≡ empty)
resolve_granted-Passed_example =
    resolve_granted-Passed deps writer ann "people" "read" (names ("name" ∷ [])) [] through []
      read_run

abbrev denied : AuditedRefusal
denied = record { reason = "field_denied"; audit_id = some "a1" }

abbrev denied_trail : Trail
denied_trail =
    row_of writer (some "people") refused (some "field_denied") (with_grant no_detail active) ∷ []

denied_run :
    resolve_granted deps writer ann "people" "read" (names ("salary" ∷ [])) []
    ≡ (refusal denied, denied_trail)
unfolding resolve_granted find_collection load_active_grant refuse
denied_run = refl

resolve_granted-Audited_example :
    Audited deps writer ann "people" "read" (names ("salary" ∷ [])) [] denied denied_trail
resolve_granted-Audited_example =
    resolve_granted-Audited deps writer ann "people" "read" (names ("salary" ∷ [])) [] denied
      denied_trail denied_run

-- A caller of another workspace has no grant.
abbrev stranger : BrokerContext
stranger = record ann { workspace_id = "other" }

found_run : find_collection cfg "people" ≡ some people
unfolding find_collection
found_run = refl

no_grant_run : load_active_grant deps.grants deps.memberships deps.now stranger "people" ≡ no_grant
unfolding load_active_grant
no_grant_run = refl

read_refusal_uniform_example :
    resolve_granted deps writer stranger "people" "read" (names []) []
    ≡ refused_with deps writer stranger "people" "read" (names []) "no_grant" no_detail []
read_refusal_uniform_example =
    read_refusal_uniform deps writer stranger "people" (names []) [] people found_run refl
      (inl no_grant_run)
