-- ===== src/Oauth/EnvScope/Laws.antt =====
-- What the rules of oauth/env-scope.ts give: never more than the policy, live only for the
-- eligible, and the floor.
use warehousd.Prelude.{
  String, ◌≡◌, ◌≢◌, refl, Bool, true, not, ◌&&◌, ◌||◌, Option, none, some, List, [], ◌∷◌, ◌==◌,
  eq_iff, includes, includes-filter, filter, all, is_empty, all-filter, all-filter_self, arith,
  if◌then◌else◌,
}
use warehousd.Context.{Env, dev, live}
use warehousd.Oauth.EnvScope.{
  env_scopes, ClientPolicy, requested_env, survivors_of, resolve_env_scopes, recompute_env_scope,
  resolve_issued_env_scope, narrow_policy_to_key_env, pick_env_scope,
}

-- A list of env scopes is empty exactly when it holds neither of the two.
is_empty_of_env_scopes :
    (xs : List String)
    → all (includes env_scopes) xs ≡ true
    → is_empty xs ≡ not (includes xs "env:dev" || includes xs "env:live")
is_empty_of_env_scopes [] h = refl
is_empty_of_env_scopes (x ∷ xs) h =
    ground (arith, eq_iff x "env:dev", eq_iff x "env:live", eq_iff "env:dev" x, eq_iff "env:live" x)

module _ (requested : List String) (policy : ClientPolicy) (live_eligible : Bool) where
  requested_env-dev : includes (requested_env requested) "env:dev" ≡ includes requested "env:dev"
  requested_env-dev = ground (arith, includes-filter (includes env_scopes) requested "env:dev")

  requested_env-live : includes (requested_env requested) "env:live" ≡ includes requested "env:live"
  requested_env-live = ground (arith, includes-filter (includes env_scopes) requested "env:live")

  is_empty-requested_env :
      is_empty (requested_env requested)
      ≡ not (includes requested "env:dev" || includes requested "env:live")
  is_empty-requested_env = ground (
    arith,
    is_empty_of_env_scopes (requested_env requested)
        (all-filter_self (includes env_scopes) requested),
    requested_env-dev,
    requested_env-live,
  )

  abbrev within : List String
  within = filter (includes policy.allowed_scopes) (requested_env requested)

  includes-survivors :
      (s : String)
      → includes (survivors_of requested policy live_eligible) s ≡ (
          includes (requested_env requested) s
          && includes policy.allowed_scopes s
          && (not (s == "env:live") || live_eligible))
  includes-survivors s = ground (
    arith,
    includes-filter (λ (t : String). not (t == "env:live")) within s,
    includes-filter (includes policy.allowed_scopes) (requested_env requested) s,
    eq_iff s "env:live",
  )

  is_empty-survivors :
      is_empty (survivors_of requested policy live_eligible)
      ≡ not (
          includes (survivors_of requested policy live_eligible) "env:dev"
          || includes (survivors_of requested policy live_eligible) "env:live")
  is_empty-survivors = is_empty_of_env_scopes (survivors_of requested policy live_eligible) (
      ground (
        arith,
        all-filter (includes env_scopes) (includes policy.allowed_scopes) (requested_env requested)
            (all-filter_self (includes env_scopes) requested),
        all-filter (includes env_scopes) (λ (t : String). not (t == "env:live")) within,
      ))

  -- `env:live` is resolved exactly when it is requested, the policy allows it and the user is
  -- eligible.
  pub resolve_env_scopes-live :
      includes (resolve_env_scopes requested policy live_eligible) "env:live" ≡ (
        includes requested "env:live" && includes policy.allowed_scopes "env:live" && live_eligible)
  unfolding resolve_env_scopes
  resolve_env_scopes-live = ground (
    arith,
    is_empty-requested_env,
    is_empty-survivors,
    includes-survivors "env:live",
    includes-survivors "env:dev",
    requested_env-live,
    requested_env-dev,
  )

  -- `env:dev` is resolved exactly when the policy allows it, and it is requested or the floor of a
  -- request for `env:live` that did not survive.
  pub resolve_env_scopes-dev :
      includes (resolve_env_scopes requested policy live_eligible) "env:dev" ≡ (
        includes policy.allowed_scopes "env:dev"
        && (includes requested "env:dev"
            || (includes requested "env:live"
                && not (includes policy.allowed_scopes "env:live" && live_eligible))))
  unfolding resolve_env_scopes
  resolve_env_scopes-dev = ground (
    arith,
    is_empty-requested_env,
    is_empty-survivors,
    includes-survivors "env:live",
    includes-survivors "env:dev",
    requested_env-live,
    requested_env-dev,
  )

  -- The environment that a token must carry, read off the request, the policy and eligibility.
  abbrev pub wants_live : Bool
  wants_live =
      (includes requested "env:live" || not (includes requested "env:dev"))
      && includes policy.allowed_scopes "env:live"
      && live_eligible

  -- A token is issued for live exactly when live is wanted (asked for, or nothing was asked for),
  -- allowed and the user eligible; else for dev exactly when the policy allows dev; else not.
  pub resolve_issued_env_scope_lem : resolve_issued_env_scope requested policy live_eligible ≡ (
      if wants_live
      then some live
      else if includes policy.allowed_scopes "env:dev"
      then some dev
      else none)
  unfolding resolve_issued_env_scope recompute_env_scope
  resolve_issued_env_scope_lem =
      ground (arith, is_empty-requested_env, resolve_env_scopes-live, resolve_env_scopes-dev)

-- A key minted for dev never gets a live token, whatever the policy, the request and eligibility.
pub narrow-resolve_issued-ne-live :
    (requested : List String) (policy : ClientPolicy) (live_eligible : Bool)
    → resolve_issued_env_scope requested (narrow_policy_to_key_env policy dev) live_eligible
      ≢ some live
unfolding narrow_policy_to_key_env
narrow-resolve_issued-ne-live requested policy live_eligible h = ground (
  arith,
  resolve_issued_env_scope_lem requested (narrow_policy_to_key_env policy dev) live_eligible,
  includes-filter (λ (t : String). not (t == "env:live")) policy.allowed_scopes "env:live",
  eq_iff "env:live" "env:live",
)

-- The key's environment only narrows: it keeps whether dev may be issued.
pub narrow-keeps_dev :
    (policy : ClientPolicy) (key_env : Env)
    → includes (narrow_policy_to_key_env policy key_env).allowed_scopes "env:dev"
      ≡ includes policy.allowed_scopes "env:dev"
unfolding narrow_policy_to_key_env
narrow-keeps_dev policy live = refl
narrow-keeps_dev policy dev =
    ground (
      arith,
      includes-filter (λ (t : String). not (t == "env:live")) policy.allowed_scopes "env:dev",
    )

-- The picker never adds a scope, and a valid pick among both leaves exactly the picked one.
pub pick_env_scope_lem :
    (survivors : List String) (picked : Option String) (s : String)
    → (includes (pick_env_scope survivors picked) s ≡ true → includes survivors s ≡ true)
      × (includes survivors "env:dev" ≡ true
          → includes survivors "env:live" ≡ true
          → (pick_env_scope survivors (some "dev") ≡ "env:dev" ∷ [])
            × (pick_env_scope survivors (some "live") ≡ "env:live" ∷ []))
unfolding pick_env_scope
pick_env_scope_lem survivors none s = (λ h. h, λ p q. (ground arith, ground arith))
pick_env_scope_lem survivors (some picked) s = (
  λ h. ground (arith, eq_iff "env:dev" s, eq_iff "env:live" s),
  λ p q. (ground arith, ground arith),
)
