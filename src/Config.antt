-- ===== src/Config.antt =====
-- packages/broker/src/config: the parsed warehousd.yml, as far as access and writes depend on it.
-- A field keeps its posture as written, its mask and flags; `view_join` and `relation` are kept as
-- whether the field has one, `source_ref` likewise.
pub mod Posture
pub mod Fields
mod Tests
use warehousd.Prelude.{
  ℕ, String, Bool, true, false, Option, none, some, List, [], ◌∷◌, lookup, keys_where, or_default,
}
use warehousd.Config.Posture.{PostureInput}

pub data FieldType : Type 0 where
  uuid text numeric int timestamptz date boolean json : FieldType

pub data MaskConfig : Type 0 where
  redact last4 hash year domain : MaskConfig
  first bucket : ℕ → MaskConfig

pub record FieldConfig : Type 0 where
  pub type : Option FieldType
  pub posture : PostureInput
  pub mask : Option MaskConfig
  pub pk : Bool
  pub view_join : Bool
  pub relation : Bool
  pub nullable : Bool

pub data Kind : Type 0 where
  dataset file : Kind

pub record CollectionConfig : Type 0 where
  pub kind : Kind
  pub taxonomies : List String
  pub writable : Bool
  pub acl : Bool
  pub source_ref : Bool
  pub grant_expiry_days : Option ℕ
  pub fields : List (String × FieldConfig)

-- `audit` is `cfg.audit?.enabled`.
pub record WarehousdConfig : Type 0 where
  pub collections : List (String × CollectionConfig)
  pub audit : Option Bool

abbrev pub audit_enabled : WarehousdConfig → Bool
audit_enabled cfg = or_default cfg.audit true

unfoldable pub find_collection : WarehousdConfig → String → Option CollectionConfig
find_collection cfg name = lookup name cfg.collections

-- config/kinds/file.ts and config/kinds/dataset.ts
abbrev pub chunked : CollectionConfig → Bool
chunked c = elim c.kind [ dataset ↦ false | file ↦ true ]
