-- ===== src/Audit/Tests.antt =====
-- The theorems of audit/decision.ts at the scenario.
use warehousd.Prelude.{String, ◌≡◌, ◌⊎◌, true, false, none, some, [], ◌∷◌, ◌++◌}
use warehousd.Audit.{allowed, no_detail, Trail, row_of, recorded, unrecorded, allow}
use warehousd.Audit.Laws.{allow_sealed}
use warehousd.Scenario.{writer}

abbrev empty : Trail
empty = []

allow_sealed_example :
    (writer.enabled ≡ true
      → (((id : String) × (allow writer (some "people") no_detail empty ≡ (
        recorded (some id),
        empty ++ row_of writer (some "people") allowed none no_detail ∷ [],
      )))
          ⊎ (allow writer (some "people") no_detail empty ≡ (unrecorded, empty))))
    × (writer.enabled ≡ false
        → allow writer (some "people") no_detail empty ≡ (recorded none, empty))
allow_sealed_example = allow_sealed writer (some "people") no_detail empty
