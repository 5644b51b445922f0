-- ===== src/Grants/Table.antt =====
-- The table `app.grants`: one row for each grant that was requested, in the order of the table.
use warehousd.Prelude.{ℕ, String, Bool, true, false, Option, List}
use warehousd.Context.{Env}
use warehousd.Value.{DocumentFilter}

pub data Status : Type 0 where
  pending approved denied revoked : Status

abbrev pub status_eq : Status → Status → Bool
status_eq pending pending = true
status_eq approved approved = true
status_eq denied denied = true
status_eq revoked revoked = true
status_eq _ _ = false

-- `document_filter` as the driver hands it over: null, an array, or another shape.
pub data FilterColumn : Type 0 where
  absent legacy : FilterColumn
  filters : List DocumentFilter → FilterColumn

pub record GrantRow : Type 0 where
  pub id : String
  pub user_id : String
  pub collection : String
  pub env : Env
  pub workspace_id : String
  pub allowed_fields : Option (List String)
  pub unmasked_fields : Option (List String)
  pub document_filter : FilterColumn
  pub verbs : Option (List String)
  pub mode : Option String
  pub principal : Option String
  pub status : Status
  pub expires_at : Option ℕ
  pub requested_at : ℕ
  pub decided_by : Option String

abbrev pub GrantTable : Type 0
GrantTable = List GrantRow
