-- ===== src/Revisions/Tests.antt =====
-- Runs of db/revisions.ts, and its theorems at the scenario.
use warehousd.Prelude.{◌≡◌, refl, false, some, [], ◌∷◌, ◌++◌, map}
use warehousd.Value.{Scalar, one, Document}
use warehousd.Revisions.{
  RevisionOp, RevisionStatus, Revision, RevisionTable, current_revision, revise_document,
  insert_revision, bound_columns, next_data_row, demote_revision,
}
use warehousd.Revisions.Laws.{unmarked, appended, revise_document-history}
use warehousd.Revisions.View.{view, shown_as, with_document, revise_document-view}
use warehousd.Revisions.Current.{HasOneCurrent, revise_document-current}
use warehousd.Scenario.Keys.{same_text-IsKeyEquality}
use warehousd.Scenario.{people, same_text, first}

abbrev edit : Revision
edit = record {
  op = RevisionOp.update;
  status = RevisionStatus.approved;
  by = "ann";
  workspace_id = "default";
}

abbrev changed : Document
changed = ("name", one (Scalar.str "anna")) ∷ []

abbrev after_edit : RevisionTable
after_edit = record first { current = false } ∷ appended people "r2" first changed edit ∷ []

edit_run :
    revise_document same_text "id" people "r2" first changed edit (first ∷ []) ≡ some after_edit
unfolding revise_document insert_revision bound_columns next_data_row demote_revision
edit_run = refl

revise_document-history_example :
    map unmarked after_edit
    ≡ map unmarked (first ∷ []) ++ unmarked (appended people "r2" first changed edit) ∷ []
revise_document-history_example =
    revise_document-history same_text "id" people "r2" first changed edit (first ∷ []) after_edit
      edit_run

found_run :
    current_revision same_text "id" "default" (one (Scalar.str "p1")) (first ∷ []) ≡ some first
unfolding current_revision
found_run = refl

revise_document-current_example :
    (after : RevisionTable) × (revise_document same_text "id" people "r2" first changed edit
        (first ∷ [])
      ≡ some after)
    × HasOneCurrent same_text "id" after
    × (current_revision same_text "id" "default" (one (Scalar.str "p1")) after
        ≡ some (appended people "r2" first changed edit))
revise_document-current_example =
    revise_document-current same_text "id" same_text-IsKeyEquality people "r2" "default"
      (one (Scalar.str "p1")) first changed edit (first ∷ []) ((λ _. refl), tt) found_run refl refl
      refl refl

-- A delete leaves a tombstone that is current, and shows nothing.
abbrev removal : Revision
removal = record edit { op = RevisionOp.delete }

abbrev after_removal : RevisionTable
after_removal = record first { current = false } ∷ appended people "r2" first [] removal ∷ []

removal_run :
    revise_document same_text "id" people "r2" first [] removal (first ∷ []) ≡ some after_removal
unfolding revise_document insert_revision bound_columns next_data_row demote_revision
removal_run = refl

tombstone_run :
    current_revision same_text "id" "default" (one (Scalar.str "p1")) after_removal
    ≡ some (appended people "r2" first [] removal)
unfolding current_revision bound_columns next_data_row
tombstone_run = refl

revise_document-view_example :
    view same_text "id" "default" after_removal (one (Scalar.str "p1"))
    ≡ with_document same_text
        (one (Scalar.str "p1"))
        (shown_as RevisionOp.delete (appended people "r2" first [] removal).columns)
        (view same_text "id" "default" (first ∷ []))
        (one (Scalar.str "p1"))
revise_document-view_example =
    revise_document-view same_text "id" "default" same_text-IsKeyEquality people "r2"
      (one (Scalar.str "p1")) first [] removal (first ∷ []) after_removal (one (Scalar.str "p1"))
      (refl, tt) ((λ _. refl), tt) found_run refl refl refl refl removal_run
