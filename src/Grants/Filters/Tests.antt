-- ===== src/Grants/Filters/Tests.antt =====
-- Runs of grants/filters.ts, and its theorems at the scenario.
use warehousd.Prelude.{◌≡◌, refl, ◌↔◌, true, false, none, some, [], ◌∷◌, lookup, All}
use warehousd.Config.{CollectionConfig}
use warehousd.Value.{Scalar, Value, one, many, Document, eq, DocumentFilter}
use warehousd.Grants.Filters.{acl_column, validate_document_filters, matches_filter, admits}
use warehousd.Grants.Filters.Canonical.{canonicalize}
use warehousd.Grants.Filters.Laws.{
  IsEvaluable, IsOpenTo, validate_document_filters_iff, matches_filter_closed, admits-IsOpenTo,
}
use warehousd.Scenario.{people, platform}

abbrev restricted : CollectionConfig
restricted = record people { acl = true }

abbrev names_ann : DocumentFilter
names_ann = record { field = "name"; op = eq; value = one (Scalar.str "ann") }

abbrev names_null : DocumentFilter
names_null = record { field = "name"; op = eq; value = one Scalar.null }

abbrev row : Document
row =
    ("name", one (Scalar.str "ann"))
    ∷ (acl_column, many (Scalar.str "user:bob" ∷ Scalar.str "user:ann" ∷ []))
    ∷ []

admits_run : admits platform row (names_ann ∷ []) ("user:ann" ∷ []) restricted ≡ true
unfolding admits
admits_run = refl

other_run : admits platform row (names_ann ∷ []) ("user:eve" ∷ []) restricted ≡ false
unfolding admits
other_run = refl

admits-IsOpenTo_example :
    (v : Value) × (lookup acl_column row ≡ some v) × IsOpenTo ("user:ann" ∷ []) v
admits-IsOpenTo_example =
    admits-IsOpenTo ("user:ann" ∷ []) platform row (names_ann ∷ []) restricted refl admits_run

validate_document_filters_iff_example :
    (validate_document_filters platform (names_ann ∷ []) people ≡ none)
    ↔ All (IsEvaluable platform people) (names_ann ∷ [])
validate_document_filters_iff_example =
    validate_document_filters_iff platform people (names_ann ∷ [])

matches_filter_closed_example : matches_filter platform row people names_null ≡ false
unfolding canonicalize
matches_filter_closed_example = matches_filter_closed platform people row names_null refl
