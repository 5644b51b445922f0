-- ===== src/Acl/Groups/Laws.antt =====
-- One source replaces its own memberships of one user, and touches no others.
use warehousd.Prelude.{
  String, ◌≡◌, refl, ap, ◌∙◌, true, not, ◌&&◌, List, [], ◌∷◌, ◌++◌, map, filter, includes, distinct,
  includes-distinct, includes-filter, ◌==◌, eq_refl, arith, append-nil,
}
use warehousd.Acl.Principals.{GroupSource, sso, manual, Membership}
use warehousd.Acl.Groups.{source_eq, is_owned, is_named, membership, set_user_groups}

module _ (ws user : String) (source : GroupSource) where
  -- The rows of the pair, as the names of their groups, and all other rows.
  abbrev pub owned_groups : List Membership → List String
  owned_groups rows = map (λ (m : Membership). m.group_name) (filter (is_owned ws user source) rows)

  abbrev pub others : List Membership → List Membership
  others rows = filter (λ m. not (is_owned ws user source m)) rows

  source_eq_refl : source_eq source source ≡ true
  source_eq_refl = at_source source
    where
      at_source : (s : GroupSource) → source_eq s s ≡ true
      at_source sso = refl
      at_source manual = refl

  others-others : (rows : List Membership) → others (others rows) ≡ others rows
  others-others [] = refl
  others-others (m ∷ rows) = ground (arith, others-others rows)

  owned-others : (rows : List Membership) → owned_groups (others rows) ≡ []
  owned-others [] = refl
  owned-others (m ∷ rows) = ground (arith, owned-others rows)

  others-append : (xs ys : List Membership) → others (xs ++ ys) ≡ others xs ++ others ys
  others-append [] ys = refl
  others-append (m ∷ xs) ys = ground (arith, others-append xs ys)

  owned-append :
      (xs ys : List Membership) → owned_groups (xs ++ ys) ≡ owned_groups xs ++ owned_groups ys
  owned-append [] ys = refl
  owned-append (m ∷ xs) ys = ground (arith, owned-append xs ys)

  others-new : (gs : List String) → others (map (membership ws user source) gs) ≡ []
  others-new [] = refl
  others-new (g ∷ gs) = ground (arith, others-new gs, source_eq_refl, eq_refl ws, eq_refl user)

  owned-new : (gs : List String) → owned_groups (map (membership ws user source) gs) ≡ gs
  owned-new [] = refl
  owned-new (g ∷ gs) = ground (arith, owned-new gs, source_eq_refl, eq_refl ws, eq_refl user)

  -- Setting the groups of a user from one source leaves every row of other sources, users and
  -- workspaces as it was, in order, and afterwards the source holds the user in exactly the groups
  -- that were given and have a name.
  pub set_user_groups_isolated :
      (groups : List String) (rows : List Membership)
      → (others (set_user_groups ws user groups source rows) ≡ others rows)
        × ((g : String)
            → includes (owned_groups (set_user_groups ws user groups source rows)) g
              ≡ (includes groups g && not (g == "")))
  unfolding set_user_groups
  set_user_groups_isolated groups rows =
      let gs = distinct (filter is_named groups) in
      let new = map (membership ws user source) gs in
      let kept : others (others rows ++ new) ≡ others rows =
        others-append (others rows) new
        ∙ ap (λ xs. others (others rows) ++ xs) (others-new gs)
        ∙ append-nil (others (others rows))
        ∙ others-others rows in
      let held : owned_groups (others rows ++ new) ≡ gs =
        owned-append (others rows) new
        ∙ ap (λ xs. xs ++ owned_groups new) (owned-others rows)
        ∙ owned-new gs in
      (
        kept,
        λ g.
            ap (λ xs. includes xs g) held
            ∙ includes-distinct (filter is_named groups) g
            ∙ includes-filter is_named groups g,
      )
