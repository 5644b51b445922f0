-- ===== src/Oauth/EnvScope.antt =====
-- packages/broker/src/oauth/env-scope.ts: the rules by which a request, a client policy and the
-- user's eligibility give the environment of a token.
pub mod Laws
mod Tests
use warehousd.Prelude.{
  String, Bool, true, false, not, ◌&&◌, ◌||◌, Option, none, some, List, [], ◌∷◌, ◌==◌, includes,
  filter, is_empty, if◌then◌else◌,
}
use warehousd.Context.{Env, dev, live}

abbrev pub env_scopes : List String
env_scopes = "env:dev" ∷ "env:live" ∷ []

pub record ClientPolicy : Type 0 where
  pub allowed_scopes : List String

-- The env scopes among those requested.
abbrev pub requested_env : List String → List String
requested_env requested = filter (includes env_scopes) requested

-- Rules 1 and 2: the request met with the policy, less `env:live` if the user is not eligible.
abbrev pub survivors_of : List String → ClientPolicy → Bool → List String
survivors_of requested policy live_eligible =
    let allowed = filter (includes policy.allowed_scopes) (requested_env requested) in
    if includes allowed "env:live" && not live_eligible
    then filter (λ s. not (s == "env:live")) allowed
    else allowed

pub resolve_env_scopes : List String → ClientPolicy → Bool → List String
resolve_env_scopes requested policy live_eligible =
    if is_empty (requested_env requested)
    then []
    else (let survivors = survivors_of requested policy live_eligible in
        if is_empty survivors && includes policy.allowed_scopes "env:dev"
        then "env:dev" ∷ []
        else survivors)

pub recompute_env_scope : ClientPolicy → Bool → List String
recompute_env_scope policy live_eligible =
    if live_eligible && includes policy.allowed_scopes "env:live"
    then "env:live" ∷ []
    else if includes policy.allowed_scopes "env:dev"
    then "env:dev" ∷ []
    else []

pub resolve_issued_env_scope : List String → ClientPolicy → Bool → Option Env
resolve_issued_env_scope requested policy live_eligible =
    let survivors =
      if is_empty (requested_env requested)
      then recompute_env_scope policy live_eligible
      else resolve_env_scopes requested policy live_eligible in
    if includes survivors "env:live"
    then some live
    else if includes survivors "env:dev"
    then some dev
    else none

pub narrow_policy_to_key_env : ClientPolicy → Env → ClientPolicy
narrow_policy_to_key_env policy live = policy
narrow_policy_to_key_env policy dev = record policy {
  allowed_scopes = filter (λ s. not (s == "env:live")) policy.allowed_scopes;
}

-- `picked` is what the caller chose, `none` for the source's `null` or `undefined`.
pub pick_env_scope : List String → Option String → List String
pick_env_scope survivors none = survivors
pick_env_scope survivors (some picked) =
    if includes survivors "env:dev" && includes survivors "env:live"
    then if picked == "dev"
      then "env:dev" ∷ []
      else if picked == "live"
      then "env:live" ∷ []
      else survivors
    else survivors
