-- ===== src/Verbs/Revert/Tests.antt =====
-- Runs of verbs/history.ts and verbs/revert.ts, and their theorems at the scenario: a name was
-- changed, and is read back and restored.
use warehousd.Prelude.{◌≡◌, refl, Bool, true, false, some, List, [], ◌∷◌}
use warehousd.Context.{Env}
use warehousd.Config.{MaskConfig}
use warehousd.Config.Posture.{normalize_posture}
use warehousd.Config.Fields.{pk_of, masked_fields_for}
use warehousd.Value.{Scalar, Value, one, Document}
use warehousd.Grants.Table.{absent, GrantRow}
use warehousd.Grants.Filters.{admits, validate_document_filters}
use warehousd.Revisions.{RevisionOp, RevisionStatus, RevisionRow}
use warehousd.Verbs.Guard.{VerbDeps}
use warehousd.Verbs.Mutate.Intent.{update}
use warehousd.Verbs.Propose.Tables.{Tables}
use warehousd.Verbs.History.{RevisionDocument, RevisionMetadata, answered}
use warehousd.Verbs.History.Read.{list_revisions, get_revision, diff_revisions}
use warehousd.Verbs.History.Laws.{Tells, IsDisclosed, get_revision-Tells}
use warehousd.Verbs.Revert.{RevertOptions, hands_on, revert_document}
use warehousd.Verbs.Revert.Laws.{Hands, revert_document-Hands}
use warehousd.Scenario.{ann, deps, writer, write_deps, same_text, first, given}

abbrev pools : Env → Bool
pools env = true

abbrev redacted : MaskConfig → Value → Value
redacted m v = one (Scalar.str "***")

abbrev unfiltered : GrantRow
unfiltered = record given { document_filter = absent }

abbrev ann_deps : VerbDeps
ann_deps = record deps { grants = unfiltered ∷ [] }

abbrev renamed : Document
renamed =
    ("id", one (Scalar.str "p1"))
    ∷ ("name", one (Scalar.str "anna"))
    ∷ ("email", one (Scalar.str "ann@example.org"))
    ∷ ("salary", one (Scalar.str "1"))
    ∷ []

abbrev second : RevisionRow
second = record {
  rev = "r2";
  seq = 2;
  by = "ann";
  op = RevisionOp.update;
  status = RevisionStatus.approved;
  fields = "name" ∷ "salary" ∷ [];
  base = some 1;
  current = true;
  workspace_id = "default";
  columns = renamed;
}

abbrev tables : Tables
tables = record {
  tables = ("people", second ∷ record first { current = false } ∷ []) ∷ [];
  change_log = [];
}

abbrev old : RevisionDocument
old = record {
  rev = "r1";
  seq = 1;
  by = "seed";
  op = RevisionOp.create;
  status = RevisionStatus.approved;
  document = ("name", one (Scalar.str "ann")) ∷ ("email", one (Scalar.str "***")) ∷ [];
}

old_run :
    (get_revision ann_deps write_deps redacted same_text pools writer ann tables "people" "p1" "r1"
      []).0
    ≡ answered old
unfolding get_revision validate_document_filters pk_of admits masked_fields_for normalize_posture
old_run = refl

diff_run :
    (diff_revisions ann_deps write_deps redacted same_text pools writer ann tables "people" "p1"
      "r1" "r2" []).0
    ≡ answered (
        record { field = "name"; before = one (Scalar.str "ann"); after = one (Scalar.str "anna") }
        ∷ [])
unfolding diff_revisions validate_document_filters pk_of admits masked_fields_for normalize_posture
diff_run = refl

abbrev listed_metadata : List RevisionMetadata
listed_metadata =
    record {
      rev = "r1";
      seq = 1;
      by = "seed";
      op = RevisionOp.create;
      status = RevisionStatus.approved;
      fields = [];
    }
    ∷ record {
      rev = "r2";
      seq = 2;
      by = "ann";
      op = RevisionOp.update;
      status = RevisionStatus.approved;
      fields = "name" ∷ [];
    }
    ∷ []

list_run :
    (list_revisions ann_deps write_deps redacted same_text pools writer ann tables "people" "p1"
      []).0
    ≡ answered listed_metadata
unfolding list_revisions validate_document_filters pk_of admits
list_run = refl

abbrev back : RevertOptions
back = record { collection = "people"; id = "p1"; rev = "r1"; expect = some "r2" }

revert_run :
    (revert_document ann_deps write_deps redacted same_text pools writer ann back tables []).0
    ≡ hands_on (update "people" "p1" (some "r2") (("name", one (Scalar.str "ann")) ∷ []))
unfolding revert_document validate_document_filters pk_of admits
revert_run = refl

get_revision-Tells_example :
    Tells
      (IsDisclosed ann_deps write_deps redacted same_text pools writer ann tables "people" "p1"
        "r1")
      (get_revision ann_deps write_deps redacted same_text pools writer ann tables "people" "p1"
        "r1" []).0
get_revision-Tells_example =
    get_revision-Tells ann_deps write_deps redacted same_text pools writer ann tables "people" "p1"
      "r1" []

revert_document-Hands_example :
    Hands ann_deps write_deps redacted same_text pools writer ann back tables
      (revert_document ann_deps write_deps redacted same_text pools writer ann back tables []).0
revert_document-Hands_example =
    revert_document-Hands ann_deps write_deps redacted same_text pools writer ann back tables []
