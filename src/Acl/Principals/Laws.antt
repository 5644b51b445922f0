-- ===== src/Acl/Principals/Laws.antt =====
-- Principals of the two namespaces never meet, so a caller is exactly their id and their groups.
use warehousd.Prelude.{
  String, ◌≡◌, refl, ap, Bool, true, false, ◌&&◌, none, some, List, [], ◌∷◌, map, filter, any,
  includes, includes-distinct, ◌==◌, eq_iff, strip_prefix, join, strip_prefix-join, distinct, arith,
  or_eq, Option-cases, ◌⊎◌, inl, inr, join-strip_prefix,
}
use text.Mathlib.TextLemmas.{cons-append}
use warehousd.Context.{BrokerContext}
use warehousd.Acl.Principals.{
  Membership, user_prefix, group_prefix, user_principal, group_principal, has_more, is_principal,
  is_member, load_principals,
}

join_injective : (p a b : String) → join p a ≡ join p b → a ≡ b
join_injective p a b h = cc (strip_prefix-join p a, ap (strip_prefix p) h, strip_prefix-join p b)

eq-join : (p a b : String) → (join p a == join p b) ≡ (a == b)
eq-join p a b = ground (
  arith,
  eq_iff a b,
  eq_iff (join p a) (join p b),
  join_injective p a b,
  λ (h : a ≡ b). ap (join p) h,
)

user_not_group : (u : String) → strip_prefix group_prefix (user_principal u) ≡ none
unfolding user_principal
user_not_group u = rw cons-append refl

group_not_user : (g : String) → strip_prefix user_prefix (group_principal g) ≡ none
unfolding group_principal
group_not_user g = rw cons-append refl

-- The two namespaces do not meet.
user-ne-group : (u g : String) → (user_principal u == group_principal g) ≡ false
user-ne-group u g = ground (
  arith,
  eq_iff (user_principal u) (group_principal g),
  λ (h : user_principal u ≡ group_principal g). ap (strip_prefix group_prefix) h,
  user_not_group u,
  strip_group g,
)
  where
    strip_group : (k : String) → strip_prefix group_prefix (group_principal k) ≡ some k
    strip_group k = unfold group_principal in strip_prefix-join group_prefix k

includes-map-group :
    (gs : List String) (g : String)
    → includes (map group_principal gs) (group_principal g) ≡ includes gs g
unfolding group_principal
includes-map-group [] g = refl
includes-map-group (x ∷ gs) g = ground (arith, includes-map-group gs g, eq-join group_prefix x g)

no_user_among_groups :
    (gs : List String) (u : String) → includes (map group_principal gs) (user_principal u) ≡ false
no_user_among_groups [] u = refl
no_user_among_groups (x ∷ gs) u = ground (
  arith,
  no_user_among_groups gs u,
  user-ne-group u x,
  eq_iff (user_principal u) (group_principal x),
  eq_iff (group_principal x) (user_principal u),
)

-- The rows that put the caller into a group.
abbrev pub puts_in : BrokerContext → String → Membership → Bool
puts_in ctx g m = is_member ctx m && m.group_name == g

includes-group_names :
    (ctx : BrokerContext) (ms : List Membership) (g : String)
    → includes (map (λ m. m.group_name) (filter (is_member ctx) ms)) g ≡ any (puts_in ctx g) ms
includes-group_names ctx [] g = refl
includes-group_names ctx (m ∷ ms) g = ground (arith, includes-group_names ctx ms g)

-- A caller holds exactly one user principal, their own, and exactly the group principals of the
-- groups that a row of their workspace puts them in: no group, whatever its name, makes a user.
pub load_principals_lem :
    (ms : List Membership) (ctx : BrokerContext)
    → ((u : String) → includes (load_principals ms ctx) (user_principal u) ≡ (ctx.user_id == u))
      × ((g : String)
          → includes (load_principals ms ctx) (group_principal g) ≡ any (puts_in ctx g) ms)
unfolding load_principals
load_principals_lem ms ctx =
    let names = map (λ (m : Membership). m.group_name) (filter (is_member ctx) ms) in
    (
      λ u. ground (arith, no_user_among_groups (distinct names) u, eq-user ctx.user_id u),
      λ g. ground (
        arith,
        includes-map-group (distinct names) g,
        includes-distinct names g,
        includes-group_names ctx ms g,
        user-ne-group ctx.user_id g,
      ),
    )
  where
    eq-user : (a b : String) → (user_principal a == user_principal b) ≡ (a == b)
    eq-user a b = unfold user_principal in eq-join user_prefix a b

-- Every principal of a caller is well formed, if no group has the empty name and the id is not
-- empty.
pub is_principal-user : (u : String) → (u == "") ≡ false → is_principal (user_principal u) ≡ true
unfolding is_principal user_principal
is_principal-user u h = ground (arith, strip_prefix-join user_prefix u)

pub is_principal-group : (g : String) → (g == "") ≡ false → is_principal (group_principal g) ≡ true
unfolding is_principal group_principal
is_principal-group g h = ground (arith, strip_prefix-join group_prefix g)

-- A well-formed principal is a user's or a group's, of a name that is not empty.
pub is_principal_sound :
    (p : String)
    → is_principal p ≡ true
    → (n : String) × ((n == "") ≡ false) × ((p ≡ user_principal n) ⊎ (p ≡ group_principal n))
unfolding is_principal user_principal group_principal
is_principal_sound p h = elim (or_eq (has_more (strip_prefix user_prefix p)) _ h) [
  | inl u ↦ elim (Option-cases (strip_prefix user_prefix p)) [
    | inl e ↦ absurd (cc (rw e at u))
    | inr (n, e) ↦ (n, ground arith, inl (join-strip_prefix user_prefix p n e))
  ]
  | inr g ↦ elim (Option-cases (strip_prefix group_prefix p)) [
    | inl e ↦ absurd (cc (rw e at g))
    | inr (n, e) ↦ (n, ground arith, inr (join-strip_prefix group_prefix p n e))
  ]
]
