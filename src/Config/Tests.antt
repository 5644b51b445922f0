-- ===== src/Config/Tests.antt =====
-- The theorems of config/ at the scenario.
use warehousd.Prelude.{◌≡◌, refl, true, includes}
use warehousd.Config.{find_collection}
use warehousd.Config.Posture.{normalize_posture}
use warehousd.Config.Fields.{unmaskable_fields}
use warehousd.Scenario.{cfg}

raw_run : includes (unmaskable_fields cfg "people") "email" ≡ true
unfolding unmaskable_fields find_collection normalize_posture
raw_run = refl
