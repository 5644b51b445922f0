-- ===== src/Context.antt =====
-- The caller of a broker verb: `BrokerContext` of packages/broker/src/types.ts.
use warehousd.Prelude.{String, Bool, true, false, Option, List}

pub data Env : Type 0 where
  dev live : Env

-- `a === b` on the two environments.
abbrev pub env_eq : Env → Env → Bool
env_eq dev dev = true
env_eq live live = true
env_eq _ _ = false

-- `allowed_collections` is the ceiling of the client policy, `none` for the source's `null`.
pub record BrokerContext : Type 0 where
  pub user_id : String
  pub workspace_id : String
  pub env : Env
  pub allowed_collections : Option (List String)
  pub via : String
