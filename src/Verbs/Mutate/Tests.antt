-- ===== src/Verbs/Mutate/Tests.antt =====
-- Runs of verbs/mutate.ts, and its theorems at the scenario.
use warehousd.Config.Posture.{normalize_posture}
use warehousd.Config.Fields.{supported_verbs}
use warehousd.Revisions.{current_revision, next_data_row, revise_document}
use warehousd.Grants.Filters.{admits, admits_post_image, validate_document_filters}
use warehousd.Audit.{allow_mutation}
use warehousd.Prelude.{String, ◌≡◌, refl, true, none, some, []}
use warehousd.Config.{find_collection}
use warehousd.Config.Fields.{pk_of, identity_field}
use warehousd.Value.{Document}
use warehousd.Grants.Eval.{load_active_grant}
use warehousd.Audit.{Trail, AuditedRefusal, AuditWriter, refuse_mutation}
use warehousd.Verbs.Mutate.Intent.{applied, refused, values_of}
use warehousd.Verbs.Mutate.Dispatch.{handed_to, dataset_writer, dispatch_mutation}
use warehousd.Verbs.Mutate.Dataset.{coerce_values, mutate_dataset}
use warehousd.Verbs.Mutate.Laws.{IsApplied, mutate_dataset-applied}
use warehousd.Verbs.Mutate.Atomic.{mutate_dataset-refused}
use warehousd.Verbs.Mutate.Admission.{IsAdmitted, dispatch_mutation-IsAdmitted}
use warehousd.Scenario.{people, ann, active, deps, writer, write_deps, store, rename}

abbrev empty : Trail
empty = []

apply_run :
    (mutate_dataset write_deps writer ann people active (rename (some "r1") "ann") store empty).0
    ≡ applied "p1" "r2" (some "a1")
unfolding mutate_dataset pk_of current_revision admits admits_post_image next_data_row
    revise_document allow_mutation
apply_run = refl

mutate_dataset-applied_example :
    (pk : String) × (coerced : Document) × (pk_of people ≡ some pk)
    × (coerce_values write_deps people (values_of (rename (some "r1") "ann")) ≡ some coerced)
    × IsApplied write_deps writer ann people active
        (rename (some "r1") "ann")
        (rename (some "r1") "ann")
        pk
        coerced
        store
        (mutate_dataset write_deps writer ann people active
          (rename (some "r1") "ann")
          store
          empty).1
mutate_dataset-applied_example =
    mutate_dataset-applied write_deps writer ann people active (rename (some "r1") "ann") store
      empty "p1" "r2" (some "a1") apply_run

-- A rename out of the grant's filter, and one on a revision that is not current.
abbrev out_of_reach : AuditedRefusal
out_of_reach = record { reason = "not_found"; audit_id = some "a1" }

out_run :
    (mutate_dataset write_deps writer ann people active (rename none "bob") store empty).0
    ≡ refused out_of_reach
unfolding mutate_dataset pk_of current_revision admits admits_post_image next_data_row
    refuse_mutation
out_run = refl

stale_run :
    (mutate_dataset write_deps writer ann people active (rename (some "r0") "ann") store empty).0
    ≡ refused (record { reason = "conflict"; audit_id = some "a1" })
unfolding mutate_dataset pk_of current_revision admits admits_post_image next_data_row
    refuse_mutation
stale_run = refl

-- The sink fails: the revision that was written is rolled back.
abbrev silent : AuditWriter
silent = record writer { sink = λ rows row. none }

lost_run :
    (mutate_dataset write_deps silent ann people active (rename none "ann") store empty).0
    ≡ refused (record { reason = "internal_error"; audit_id = none })
unfolding mutate_dataset pk_of current_revision admits admits_post_image next_data_row
    revise_document allow_mutation refuse_mutation
lost_run = refl

mutate_dataset-refused_example :
    (mutate_dataset write_deps silent ann people active (rename none "ann") store empty).1 ≡ store
mutate_dataset-refused_example =
    mutate_dataset-refused write_deps silent ann people active (rename none "ann") store empty
      (record { reason = "internal_error"; audit_id = none }) lost_run

dispatch_run :
    dispatch_mutation deps (λ env. true) writer ann (rename none "bob") empty
    ≡ (handed_to (dataset_writer people active), empty)
unfolding dispatch_mutation find_collection supported_verbs load_active_grant
    validate_document_filters identity_field normalize_posture
dispatch_run = refl

dispatch_mutation-IsAdmitted_example :
    IsAdmitted deps (λ env. true) writer ann (rename none "bob") people active
dispatch_mutation-IsAdmitted_example =
    dispatch_mutation-IsAdmitted deps (λ env. true) writer ann (rename none "bob") people active
      empty empty dispatch_run
