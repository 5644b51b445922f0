-- ===== src/Grants/Eval/Order.antt =====
-- The order of the grants that apply to a call, and what a row becomes.
use warehousd.Prelude.{
  ℕ, ◌≤◌, ◌<◌, String, ◌≡◌, ◌⊎◌, refl, inl, inr, true, false, Option, none, some, is_some,
  strip_prefix, or_default, includes, sym, false≢true, List, [], ◌∷◌, map, All, arith, Bool-cases,
  Option-cases, subst,
}
use mathlib.Core.List.{Memᴰ}
use warehousd.Context.{BrokerContext}
use warehousd.Value.{DocumentFilter}
use warehousd.Acl.Principals.{user_prefix, user_principal}
use warehousd.Grants.Table.{approved, FilterColumn, absent, legacy, filters, GrantRow}
use warehousd.Grants.Eval.{
  ActiveGrant, is_personal, grant_of, granted, precedes, better, first_of_order, bind_filter,
  with_filters, to_active_grant,
}

-- A principal that is a user.
abbrev pub IsUser : Option String → Type 0
IsUser none = ⊥
IsUser (some p) = is_some (strip_prefix user_prefix p) ≡ true

abbrev pub IsPersonal : GrantRow → Type 0
IsPersonal g = IsUser g.principal

-- The row is at least as specific as the other, and of two equally specific rows not the older.
abbrev pub OutRanks : GrantRow → GrantRow → Type 0
OutRanks row h =
    (IsPersonal h → IsPersonal row)
    × ((IsPersonal row → IsPersonal h) → h.requested_at ≤ row.requested_at)

is_personal-IsPersonal : (g : GrantRow) → is_personal g ≡ true → IsPersonal g
is_personal-IsPersonal g h = elim (Option-cases g.principal) [
  | inl e ↦ absurd (false≢true (rw (e, is_personal) at h))
  | inr (p, e) ↦ subst IsUser (sym e) (rw (e, is_personal) at h)
]

IsPersonal-is_personal : (g : GrantRow) → IsPersonal g → is_personal g ≡ true
IsPersonal-is_personal g h = elim (Option-cases g.principal) [
  | inl e ↦ absurd (subst IsUser e h)
  | inr (p, e) ↦ rw e (subst IsUser e h)
]

pub precedes-OutRanks : (row h : GrantRow) → precedes h row ≡ false → OutRanks row h
precedes-OutRanks row h k = (
  λ p. is_personal-IsPersonal row (let q = IsPersonal-is_personal h p in ground arith),
  λ f. elim (Bool-cases (is_personal row)) [
    | inl y ↦ let q = IsPersonal-is_personal h (f (is_personal-IsPersonal row y)) in ground arith
    | inr n ↦ elim (Bool-cases (is_personal h)) [
      | inl y ↦ absurd (ground arith)
      | inr m ↦ ground arith
    ]
  ],
)

-- A row that the caller can run under now, on this collection.
pub record Applies (principals : List String) (now : ℕ) (ctx : BrokerContext) (collection : String)
    (row : GrantRow) : Type 0 where
  pub held : (p : String) × (row.principal ≡ some p) × (includes principals p ≡ true)
  pub collection_eq : row.collection ≡ collection
  pub env_eq_ctx : row.env ≡ ctx.env
  pub workspace_eq : row.workspace_id ≡ ctx.workspace_id
  pub status_approved : row.status ≡ approved
  pub not_expired : (t : ℕ) → row.expires_at ≡ some t → now < t

-- What a call gets from the row that it runs under.
pub record Carries (row : GrantRow) (user_id : String) (principals : List String) (g : ActiveGrant)
    : Type 0 where
  pub id : g.id ≡ row.id
  pub allowed_fields : g.allowed_fields ≡ or_default row.allowed_fields []
  pub unmasked_fields : g.unmasked_fields ≡ or_default row.unmasked_fields []
  pub verbs : g.verbs ≡ or_default row.verbs ("read" ∷ [])
  pub mode : g.mode ≡ or_default row.mode "direct"
  pub principals_eq : g.principals ≡ principals
  pub expires_at : g.expires_at ≡ row.expires_at
  pub principal : g.principal ≡ or_default row.principal (user_principal user_id)
  pub document_filter :
      ((row.document_filter ≡ absent) × (g.document_filter ≡ []))
      ⊎ ((fs : List DocumentFilter) × (row.document_filter ≡ filters fs)
          × (g.document_filter ≡ map (bind_filter user_id) fs))

pub to_active_grant-Carries :
    (row : GrantRow) (user_id : String) (ps : List String) (g : ActiveGrant)
    → to_active_grant row user_id ps ≡ granted g
    → Carries row user_id ps g
unfolding to_active_grant
to_active_grant-Carries row user_id ps g h = at_column row.document_filter refl h
  where
    at_column :
        (c : FilterColumn)
        → row.document_filter ≡ c
        → with_filters row c user_id ps ≡ granted g
        → Carries row user_id ps g
    at_column absent k e =
        let same : grant_of row [] user_id ps ≡ g = ground arith in
        subst (Carries row user_id ps) same (record {
          id = refl;
          allowed_fields = refl;
          unmasked_fields = refl;
          verbs = refl;
          mode = refl;
          principals_eq = refl;
          expires_at = refl;
          principal = refl;
          document_filter = inl (k, refl);
        })
    at_column legacy k e = absurd (cc)
    at_column (filters fs) k e =
        let same : grant_of row (map (bind_filter user_id) fs) user_id ps ≡ g = ground arith in
        subst (Carries row user_id ps) same (record {
          id = refl;
          allowed_fields = refl;
          unmasked_fields = refl;
          verbs = refl;
          mode = refl;
          principals_eq = refl;
          expires_at = refl;
          principal = refl;
          document_filter = inr (fs, k, refl);
        })

-- No row of a list stands before `g`.
abbrev pub IsFirst : GrantRow → List GrantRow → Type 0
IsFirst g gs = All (λ h. precedes h g ≡ false) gs

precedes_asym : (g h : GrantRow) → precedes h g ≡ true → precedes g h ≡ false
precedes_asym g h p = ground arith

precedes_irrefl : (g : GrantRow) → precedes g g ≡ false
precedes_irrefl g = ground arith

precedes_negtrans :
    (x h g : GrantRow) → precedes x h ≡ false → precedes h g ≡ false → precedes x g ≡ false
precedes_negtrans x h g p q = ground arith

IsFirst-negtrans :
    (h g : GrantRow) (gs : List GrantRow) → precedes h g ≡ false → IsFirst h gs → IsFirst g gs
IsFirst-negtrans h g [] p f = tt
IsFirst-negtrans h g (x ∷ gs) p (q, f) = (precedes_negtrans x h g q p, IsFirst-negtrans h g gs p f)

better-IsFirst :
    (x y g : GrantRow) (gs : List GrantRow)
    → Memᴰ y gs
    → IsFirst y gs
    → better x (some y) ≡ g
    → Memᴰ g (x ∷ gs) × IsFirst g (x ∷ gs)
better-IsFirst x y g gs m f e = elim (Bool-cases (precedes y x)) [
  | inl p ↦
      subst (λ z. Memᴰ z (x ∷ gs) × IsFirst z (x ∷ gs)) (rw (p, better) at e)
        (Memᴰ.tail m, (precedes_asym x y p, f))
  | inr p ↦
      subst (λ z. Memᴰ z (x ∷ gs) × IsFirst z (x ∷ gs)) (rw (p, better) at e)
        (Memᴰ.head refl, (precedes_irrefl x, IsFirst-negtrans y x gs p f))
]

pub first_of_order-IsFirst :
    (gs : List GrantRow) (g : GrantRow) → first_of_order gs ≡ some g → Memᴰ g gs × IsFirst g gs
unfolding first_of_order
first_of_order-IsFirst [] g h = absurd (cc)
first_of_order-IsFirst (x ∷ []) g h =
    let e : x ≡ g = cc in
    subst (λ z. Memᴰ z (x ∷ []) × IsFirst z (x ∷ [])) e (Memᴰ.head refl, (precedes_irrefl x, tt))
first_of_order-IsFirst (x ∷ y ∷ gs) g h =
    let z = better y (first_of_order gs) in
    let (m, f) = first_of_order-IsFirst (y ∷ gs) z refl in
    let e : better x (some z) ≡ g = cc in better-IsFirst x z g (y ∷ gs) m f e
