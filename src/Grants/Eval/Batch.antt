-- ===== src/Grants/Eval/Batch.antt =====
-- loadActiveGrants of packages/broker/src/grants/eval.ts: the same question as the single loader's,
-- asked for many collections at once. The map is an association list.
use warehousd.Prelude.{
  ℕ, String, ◌≡◌, refl, ap, subst, inl, inr, Bool, true, false, ◌&&◌, ◌||◌, Option, none, some,
  List, [], ◌∷◌, filter, map, includes, distinct, includes-distinct, includes-filter, lookup,
  if◌then◌else◌, ◌==◌, arith, eq_iff, Bool-cases,
}
use warehousd.Context.{BrokerContext, env_eq}
use warehousd.Acl.Principals.{Membership, load_principals}
use warehousd.Grants.Table.{approved, status_eq, GrantRow, GrantTable}
use warehousd.Grants.Eval.{
  ActiveGrant, Loaded, no_grant, granted, rebuild, unexpired, held_by, applies, first_of_order,
  under_ceiling, to_active_grant, loaded, load_active_grant,
}

-- The map, or the error that is thrown for a row of the old shape. Which of several such rows it
-- names hangs on the collation of the collections' names and is left out.
pub data BatchLoaded : Type 0 where
  found : List (String × ActiveGrant) → BatchLoaded
  rebuild_one : BatchLoaded

abbrev pub asked_collections : BrokerContext → List String → List String
asked_collections ctx collections = filter (under_ceiling ctx) collections

abbrev pub applies_to_any : List String → BrokerContext → ℕ → List String → GrantRow → Bool
applies_to_any principals ctx now collections g =
    held_by principals g.principal
    && includes collections g.collection
    && env_eq g.env ctx.env
    && g.workspace_id == ctx.workspace_id
    && status_eq g.status approved
    && unexpired now g.expires_at

abbrev collection_of : GrantRow → String
collection_of g = g.collection

abbrev pub of_collection : String → List GrantRow → List GrantRow
of_collection c rows = filter (λ g. g.collection == c) rows

abbrev pub put : String → Loaded → BatchLoaded → BatchLoaded
put c l rebuild_one = rebuild_one
put c no_grant (found m) = found m
put c (granted g) (found m) = found ((c, g) ∷ m)
put c (rebuild id) (found m) = rebuild_one

-- `distinct on (collection)`: the first row of each collection, in the order of the single loader.
abbrev pub put_all : List String → List GrantRow → String → List String → BatchLoaded
put_all [] rows user_id principals = found []
put_all (c ∷ cs) rows user_id principals =
    put c (loaded (first_of_order (of_collection c rows)) user_id principals)
      (put_all cs rows user_id principals)

unfoldable pub load_active_grants :
    GrantTable → List Membership → ℕ → BrokerContext → List String → BatchLoaded
unfolding first_of_order to_active_grant load_principals
load_active_grants grants memberships now ctx collections =
    let principals = load_principals memberships ctx in
    let rows =
      filter (applies_to_any principals ctx now (asked_collections ctx collections)) grants in
    put_all (distinct (map collection_of rows)) rows ctx.user_id principals

abbrev pub as_option : Loaded → Option ActiveGrant
as_option no_grant = none
as_option (granted g) = some g
as_option (rebuild id) = none

lookup-put_all :
    (cs : List String) (rows : List GrantRow) (user : String) (ps : List String) (c : String)
    (m : List (String × ActiveGrant))
    → put_all cs rows user ps ≡ found m
    → lookup c m ≡ (
        if includes cs c
        then as_option (loaded (first_of_order (of_collection c rows)) user ps)
        else none)
lookup-put_all [] rows user ps c m e = ground arith
lookup-put_all (k ∷ cs) rows user ps c m e =
    at_rest (lookup-put_all cs rows user ps c) (put_all cs rows user ps) refl
      (loaded (first_of_order (of_collection k rows)) user ps) refl e
  where
    at_rest :
        ((m' : List (String × ActiveGrant))
          → put_all cs rows user ps ≡ found m'
          → lookup c m' ≡ (
              if includes cs c
              then as_option (loaded (first_of_order (of_collection c rows)) user ps)
              else none))
        → (b : BatchLoaded) → put_all cs rows user ps ≡ b
        → (l : Loaded) → loaded (first_of_order (of_collection k rows)) user ps ≡ l
        → put k l b ≡ found m
        → lookup c m ≡ (
            if k == c || includes cs c
            then as_option (loaded (first_of_order (of_collection c rows)) user ps)
            else none)
    at_rest ih rebuild_one e l f h = absurd (cc)
    at_rest ih (found m') e (rebuild id) f h = absurd (cc)
    at_rest ih (found m') e no_grant f h = elim (Bool-cases (k == c)) [
      | inl y ↦
          let same : k ≡ c = ground (arith, eq_iff k c) in
          let at_c : loaded (first_of_order (of_collection c rows)) user ps ≡ no_grant =
            subst (λ x. loaded (first_of_order (of_collection x rows)) user ps ≡ no_grant) same f in
          ground (arith, ih m' e, ap as_option at_c)
      | inr n ↦ ground (arith, ih m' e)
    ]
    at_rest ih (found m') e (granted g) f h = elim (Bool-cases (k == c)) [
      | inl y ↦
          let same : k ≡ c = ground (arith, eq_iff k c) in
          let at_c : loaded (first_of_order (of_collection c rows)) user ps ≡ granted g =
            subst (λ x. loaded (first_of_order (of_collection x rows)) user ps ≡ granted g) same
              f in
          ground (arith, ih m' e, ap as_option at_c)
      | inr n ↦ ground (arith, ih m' e)
    ]

filter-of_collection :
    (ps : List String) (ctx : BrokerContext) (now : ℕ) (cs : List String) (c : String)
    (grants : GrantTable)
    → includes cs c ≡ true
    → of_collection c (filter (applies_to_any ps ctx now cs) grants)
      ≡ filter (applies ps ctx now c) grants
filter-of_collection ps ctx now cs c [] h = refl
filter-of_collection ps ctx now cs c (g ∷ gs) h = elim (Bool-cases (g.collection == c)) [
  | inl e ↦
      let same : g.collection ≡ c = ground (arith, eq_iff g.collection c) in
      ground (arith, filter-of_collection ps ctx now cs c gs h, ap (includes cs) same)
  | inr e ↦ ground (arith, filter-of_collection ps ctx now cs c gs h)
]

of_collection-none :
    (c : String) (rows : List GrantRow)
    → includes (map collection_of rows) c ≡ false
    → of_collection c rows ≡ []
of_collection-none c [] h = refl
of_collection-none c (g ∷ rows) h = ground (arith, of_collection-none c rows (ground arith))

outside_asked :
    (ps : List String) (ctx : BrokerContext) (now : ℕ) (cs : List String) (c : String)
    (grants : GrantTable)
    → includes cs c ≡ false
    → includes (map collection_of (filter (applies_to_any ps ctx now cs) grants)) c ≡ false
outside_asked ps ctx now cs c [] h = refl
outside_asked ps ctx now cs c (g ∷ gs) h = elim (Bool-cases (g.collection == c)) [
  | inl e ↦
      let same : g.collection ≡ c = ground (arith, eq_iff g.collection c) in
      ground (arith, outside_asked ps ctx now cs c gs h, ap (includes cs) same)
  | inr e ↦ ground (arith, outside_asked ps ctx now cs c gs h)
]

-- The batch answers, for each collection that it was asked about, what the single loader answers:
-- the same grant where there is one, and no entry where there is none; a collection that it was
-- not asked about has no entry.
pub load_active_grants_lem :
    (grants : GrantTable) (memberships : List Membership) (now : ℕ) (ctx : BrokerContext)
    (collections : List String) (m : List (String × ActiveGrant)) (c : String)
    → load_active_grants grants memberships now ctx collections ≡ found m
    → lookup c m ≡ (
        if includes collections c
        then as_option (load_active_grant grants memberships now ctx c)
        else none)
unfolding load_active_grants load_active_grant
load_active_grants_lem grants memberships now ctx collections m c h =
    let ps = load_principals memberships ctx in
    let cs = asked_collections ctx collections in
    let rows = filter (applies_to_any ps ctx now cs) grants in
    let found_at = lookup-put_all (distinct (map collection_of rows)) rows ctx.user_id ps c m h in
    let listed = includes-distinct (map collection_of rows) c in
    let inside = includes-filter (under_ceiling ctx) collections c in
    elim (Bool-cases (includes cs c)) [
      | inr out ↦ ground (arith, found_at, listed, inside, outside_asked ps ctx now cs c grants out)
      | inl within ↦
          let same = filter-of_collection ps ctx now cs c grants within in
          let single = ap (λ rs. as_option (loaded (first_of_order rs) ctx.user_id ps)) same in
          elim (Bool-cases (includes (map collection_of rows) c)) [
            | inl y ↦ ground (arith, found_at, listed, inside, single)
            | inr n ↦
                let empty =
                  ap (λ rs. as_option (loaded (first_of_order rs) ctx.user_id ps))
                    (of_collection-none c rows n) in
                ground (arith, found_at, listed, inside, single, empty)
          ]
    ]
