-- ===== src/Grants/Eval/Laws.antt =====
-- What a loaded grant guarantees: it is a row that applies, the first of the ordering, and bound
-- to the caller.
use warehousd.Prelude.{
  ℕ, ◌<◌, String, ◌≡◌, ◌≢◌, refl, inl, inr, true, false, Option, none, some, includes, All-mem,
  List, [], ◌∷◌, filter, map, All, eq_iff, arith, Bool-cases, Option-cases, Memᴰ-filter,
  Memᴰ-filter_intro, All_of_filter, subst,
}
use mathlib.Core.List.{Memᴰ}
use warehousd.Context.{Env, env_eq, BrokerContext}
use warehousd.Value.{Scalar, Value, one, many, FilterOp, eq, in_list, DocumentFilter}
use warehousd.Acl.Principals.{Membership, load_principals}
use warehousd.Grants.Table.{
  Status, approved, status_eq, FilterColumn, absent, legacy, filters, GrantRow, GrantTable,
}
use warehousd.Grants.Filters.{wanted}
use warehousd.Grants.Eval.Order.{
  OutRanks, precedes-OutRanks, Applies, Carries, to_active_grant-Carries, first_of_order-IsFirst,
}
use warehousd.Grants.Eval.{
  ActiveGrant, no_grant, granted, unexpired, held_by, applies, precedes, first_of_order,
  under_ceiling, self, bind_scalar, bind_value, bind_filter, with_filters, to_active_grant,
  load_active_grant,
}

-- The row that a call runs under: it is in the table, it applies to the caller, and it outranks
-- every other row that applies.
pub record IsChosen (grants : GrantTable) (principals : List String) (now : ℕ) (ctx : BrokerContext)
    (collection : String) (row : GrantRow) : Type 0 where
  pub listed : Memᴰ row grants
  pub applicable : Applies principals now ctx collection row
  pub first :
      (h : GrantRow) → Memᴰ h grants → Applies principals now ctx collection h → OutRanks row h

env_eq_refl : (a : Env) → env_eq a a ≡ true
env_eq_refl a = ground arith

env_eq_sound : (a b : Env) → env_eq a b ≡ true → a ≡ b
env_eq_sound a b h = ground arith

status_eq_sound : (a b : Status) → status_eq a b ≡ true → a ≡ b
status_eq_sound a b h = ground arith

module _ (grants : GrantTable) (memberships : List Membership) (now : ℕ) (ctx : BrokerContext)
    (collection : String) where
  abbrev principals : List String
  principals = load_principals memberships ctx

  abbrev candidates : List GrantRow
  candidates = filter (applies principals ctx now collection) grants

  applies-Applies :
      (row : GrantRow)
      → applies principals ctx now collection row ≡ true
      → Applies principals now ctx collection row
  applies-Applies row ok = record {
    held = held_by-some row.principal (ground arith);
    collection_eq = ground (arith, eq_iff row.collection collection);
    env_eq_ctx = env_eq_sound row.env ctx.env (ground arith);
    workspace_eq = ground (arith, eq_iff row.workspace_id ctx.workspace_id);
    status_approved = status_eq_sound row.status approved (ground arith);
    not_expired = λ t k. ground arith;
  }
    where
      held_by-some :
          (o : Option String)
          → held_by principals o ≡ true
          → (p : String) × (o ≡ some p) × (includes principals p ≡ true)
      held_by-some none h = absurd (cc)
      held_by-some (some p) h = (p, refl, h)

  Applies-applies :
      (row : GrantRow)
      → Applies principals now ctx collection row
      → applies principals ctx now collection row ≡ true
  Applies-applies row a =
      let (p, named, mine) = a.held in
      let h : held_by principals row.principal ≡ true = rw named mine in
      let env : env_eq row.env ctx.env ≡ true = rw a.env_eq_ctx (env_eq_refl ctx.env) in
      let status : status_eq row.status approved ≡ true = rw a.status_approved refl in
      let time : unexpired now row.expires_at ≡ true = later row.expires_at a.not_expired in
      ground (
        arith,
        eq_iff row.collection collection,
        eq_iff row.workspace_id ctx.workspace_id,
        a.collection_eq,
        a.workspace_eq,
      )
    where
      later : (o : Option ℕ) → ((t : ℕ) → o ≡ some t → now < t) → unexpired now o ≡ true
      later none k = refl
      later (some t) k = ground (arith, k t refl)

  chosen :
      (row : GrantRow)
      → first_of_order candidates ≡ some row
      → IsChosen grants principals now ctx collection row
  chosen row h =
      let (member, first) = first_of_order-IsFirst candidates row h in
      let (listed, ok) = Memᴰ-filter (applies principals ctx now collection) grants row member in
      record {
        listed = listed;
        applicable = applies-Applies row ok;
        first = λ h m a. precedes-OutRanks row h (
            All-mem (λ x. applies principals ctx now collection x ≡ true → precedes x row ≡ false)
              grants h
              (All_of_filter (applies principals ctx now collection) (λ x. precedes x row ≡ false)
                grants first)
              m (Applies-applies h a));
      }

  -- A grant is loaded only under the ceiling, from a row of the table that is approved, not expired,
  -- for this collection, environment and workspace and for a principal of the caller. Among such rows
  -- it is personal if one of them is, and no older than any that is as specific. The grant carries
  -- the row's id, fields, verbs, mode, principal and expiry, with the defaults of empty columns, and
  -- the row's filters bound to the caller.
  pub load_active_grant-IsChosen :
      (g : ActiveGrant)
      → load_active_grant grants memberships now ctx collection ≡ granted g
      → (under_ceiling ctx collection ≡ true)
        × ((row : GrantRow) × IsChosen grants principals now ctx collection row
            × Carries row ctx.user_id principals g)
  unfolding load_active_grant
  load_active_grant-IsChosen g h = elim (Bool-cases (under_ceiling ctx collection)) [
    | inr e ↦ absurd (ground arith)
    | inl e ↦ elim (Option-cases (first_of_order candidates)) [
      | inl f ↦ absurd (ground arith)
      | inr (row, f) ↦
          let same : to_active_grant row ctx.user_id principals ≡ granted g = ground arith in
          (e, (row, chosen row f, to_active_grant-Carries row ctx.user_id principals g same))
    ]
  ]

  first_of_order-ne-none :
      (gs : List GrantRow) (row : GrantRow) → Memᴰ row gs → first_of_order gs ≢ none
  unfolding first_of_order
  first_of_order-ne-none [] row m = elim m [ ]
  first_of_order-ne-none (x ∷ gs) row m = cc

  -- A row that applies under the ceiling is never answered by "no grant".
  pub load_active_grant_complete :
      (row : GrantRow)
      → Memᴰ row grants
      → applies principals ctx now collection row ≡ true
      → under_ceiling ctx collection ≡ true
      → load_active_grant grants memberships now ctx collection ≢ no_grant
  unfolding load_active_grant to_active_grant
  load_active_grant_complete row m h under e = elim (Option-cases (first_of_order candidates)) [
    | inl f ↦
        first_of_order-ne-none candidates row
          (Memᴰ-filter_intro (applies principals ctx now collection) grants row m h) f
    | inr (r, f) ↦ ground arith
  ]

-- None of the values that the filter compares a document's with is the sentinel.
abbrev pub IsBound : DocumentFilter → Type 0
IsBound f = All (λ s. s ≢ Scalar.str self) (wanted f)

bind_scalar-ne-self :
    (user_id : String) (s : Scalar) → user_id ≢ self → bind_scalar user_id s ≢ Scalar.str self
bind_scalar-ne-self user_id (Scalar.str s) h e = ground (arith, eq_iff s self)
bind_scalar-ne-self user_id _ h e = cc

All-bind_scalar :
    (user_id : String) (ss : List Scalar)
    → user_id ≢ self
    → All (λ s. s ≢ Scalar.str self) (map (bind_scalar user_id) ss)
All-bind_scalar user_id [] h = tt
All-bind_scalar user_id (s ∷ ss) h = (bind_scalar-ne-self user_id s h, All-bind_scalar user_id ss h)

bind_filter-IsBound :
    (user_id : String) (f : DocumentFilter) → user_id ≢ self → IsBound (bind_filter user_id f)
unfolding bind_filter
bind_filter-IsBound user_id f h = at_value f.op f.value
  where
    at_value :
        (op : FilterOp) (v : Value)
        → IsBound (record { field = f.field; op = op; value = bind_value user_id op v })
    at_value in_list (one s) = (bind_scalar-ne-self user_id s h, tt)
    at_value eq (one s) = (bind_scalar-ne-self user_id s h, tt)
    at_value in_list (many ss) = All-bind_scalar user_id ss h
    at_value eq (many ss) = (λ e. cc, tt)

All-bind_filter :
    (user_id : String) (fs : List DocumentFilter)
    → user_id ≢ self
    → All IsBound (map (bind_filter user_id) fs)
All-bind_filter user_id [] h = tt
All-bind_filter user_id (f ∷ fs) h = (bind_filter-IsBound user_id f h, All-bind_filter user_id fs h)

-- No filter of a loaded grant compares a document's value with the text `$self`, unless the caller
-- is called that. (Under `eq` an array is compared as one object, whatever its elements are.)
pub to_active_grant-IsBound :
    (row : GrantRow) (user_id : String) (ps : List String) (g : ActiveGrant)
    → user_id ≢ self
    → to_active_grant row user_id ps ≡ granted g
    → All IsBound g.document_filter
unfolding to_active_grant
to_active_grant-IsBound row user_id ps g h e = at_column row.document_filter e
  where
    at_column :
        (c : FilterColumn)
        → with_filters row c user_id ps ≡ granted g
        → All IsBound g.document_filter
    at_column absent k =
        let same : ◌≡◌ {A = List DocumentFilter} [] g.document_filter = ground arith in
        subst (All IsBound) same tt
    at_column legacy k = cc
    at_column (filters fs) k =
        let same : map (bind_filter user_id) fs ≡ g.document_filter = ground arith in
        subst (All IsBound) same (All-bind_filter user_id fs h)
