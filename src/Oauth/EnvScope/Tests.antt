-- ===== src/Oauth/EnvScope/Tests.antt =====
-- Runs of oauth/env-scope.ts, and its theorems at concrete policies.
use warehousd.Prelude.{String, ◌≡◌, ◌≢◌, refl, true, false, some, List, [], ◌∷◌, includes}
use warehousd.Context.{dev, live}
use warehousd.Oauth.EnvScope.{
  ClientPolicy, resolve_env_scopes, resolve_issued_env_scope, narrow_policy_to_key_env,
}
use warehousd.Oauth.EnvScope.Laws.{resolve_env_scopes-live, narrow-resolve_issued-ne-live}

abbrev both : ClientPolicy
both = record { allowed_scopes = "env:dev" ∷ "env:live" ∷ [] }

abbrev asks_live : List String
asks_live = "openid" ∷ "env:live" ∷ []

floor_run : resolve_env_scopes asks_live both false ≡ "env:dev" ∷ []
unfolding resolve_env_scopes
floor_run = refl

untouched_run : resolve_env_scopes ("openid" ∷ []) both true ≡ []
unfolding resolve_env_scopes
untouched_run = refl

resolve_env_scopes-live_example :
    includes (resolve_env_scopes asks_live both true) "env:live" ≡ true
resolve_env_scopes-live_example = resolve_env_scopes-live asks_live both true

narrow_example :
    resolve_issued_env_scope asks_live (narrow_policy_to_key_env both dev) true ≢ some live
narrow_example = narrow-resolve_issued-ne-live asks_live both true
