-- ===== src/Grants/Decide/Governed.antt =====
-- The invariant of the table of grants: every approved row stays within the configuration, its
-- verbs are valid, and on live it was decided by another person than the one who asked.
use mathlib.Core.List.{Memᴰ}
use warehousd.Prelude.{
  String, ◌≡◌, ◌≢◌, refl, sym, ap, ◌∙◌, Bool, true, false, some, [], ◌∷◌, includes, map, or_default,
  if◌then◌else◌, eq_iff, subset, arith, All,
}
use warehousd.Context.{live}
use warehousd.Config.{WarehousdConfig}
use warehousd.Config.Fields.{grantable_fields, unmaskable_fields}
use warehousd.Grants.Table.{approved, GrantRow, GrantTable}
use warehousd.Grants.Manage.Laws.{HasValidVerbs}
use warehousd.Grants.Decide.{update_where}

-- An approved row is within the configuration.
pub record IsWithin (cfg : WarehousdConfig) (r : GrantRow) : Type 0 where
  pub four_eyes : r.env ≡ live → r.decided_by ≢ some r.user_id
  pub verbs_valid :
      HasValidVerbs cfg r.collection (or_default r.verbs []) (or_default r.allowed_fields [])
  pub grantable : subset (or_default r.allowed_fields []) (grantable_fields cfg r.collection) ≡ true
  pub raw_within : subset (or_default r.unmasked_fields []) (or_default r.allowed_fields []) ≡ true
  pub raw_offered :
      subset (or_default r.unmasked_fields []) (unmaskable_fields cfg r.collection) ≡ true

abbrev pub Governed : WarehousdConfig → GrantRow → Type 0
Governed cfg r = r.status ≡ approved → IsWithin cfg r

abbrev pub id_of : GrantRow → String
id_of g = g.id

-- The primary key: no id stands twice.
abbrev pub HasUniqueIds : GrantTable → Type 0
HasUniqueIds [] = Unit
HasUniqueIds (g ∷ gs) = (includes (map id_of gs) g.id ≡ false) × HasUniqueIds gs

pub record IsGoverned (cfg : WarehousdConfig) (table : GrantTable) : Type 0 where
  pub rows : All (Governed cfg) table
  pub unique : HasUniqueIds table

pub mem-id : (gs : GrantTable) (r : GrantRow) → Memᴰ r gs → includes (map id_of gs) r.id ≡ true
mem-id [] r m = elim m [ ]
mem-id (g ∷ gs) r (Memᴰ.head e) = ground (arith, ap id_of e, eq_iff g.id r.id)
mem-id (g ∷ gs) r (Memᴰ.tail m) = ground (arith, mem-id gs r m)

-- Two rows of the table with one id are the same row.
pub same_id :
    (gs : GrantTable) (r s : GrantRow)
    → HasUniqueIds gs
    → Memᴰ r gs
    → Memᴰ s gs
    → r.id ≡ s.id
    → r ≡ s
same_id [] r s u m n e = elim m [ ]
same_id (g ∷ gs) r s u (Memᴰ.head p) (Memᴰ.head q) e = p ∙ sym q
same_id (g ∷ gs) r s u (Memᴰ.tail m) (Memᴰ.tail n) e = same_id gs r s u.1 m n e
same_id (g ∷ gs) r s u (Memᴰ.head p) (Memᴰ.tail n) e =
    absurd (ground (arith, mem-id gs s n, ap id_of p, u.0))
same_id (g ∷ gs) r s u (Memᴰ.tail m) (Memᴰ.head q) e =
    absurd (ground (arith, mem-id gs r m, ap id_of q, u.0))

pub All-update_where :
    (P : GrantRow → Type 0) (p : GrantRow → Bool) (f : GrantRow → GrantRow) (gs : GrantTable)
    → All P gs
    → ((r : GrantRow) → Memᴰ r gs → p r ≡ true → P (f r))
    → All P (update_where p f gs)
All-update_where P p f [] h k = tt
All-update_where P p f (g ∷ gs) (h, hs) k =
    (at_head (p g) refl, All-update_where P p f gs hs (λ r m e. k r (Memᴰ.tail m) e))
  where
    at_head : (b : Bool) → p g ≡ b → P (if b then f g else g)
    at_head true e = k g (Memᴰ.head refl) e
    at_head false e = h

pub map-id-update_where :
    (p : GrantRow → Bool) (f : GrantRow → GrantRow) (gs : GrantTable)
    → ((r : GrantRow) → (f r).id ≡ r.id)
    → map id_of (update_where p f gs) ≡ map id_of gs
map-id-update_where p f [] k = refl
map-id-update_where p f (g ∷ gs) k = ground (arith, map-id-update_where p f gs k, k g)

pub HasUniqueIds-map :
    (gs hs : GrantTable) → map id_of gs ≡ map id_of hs → HasUniqueIds hs → HasUniqueIds gs
HasUniqueIds-map [] hs e u = tt
HasUniqueIds-map (g ∷ gs) [] e u = absurd (cc)
HasUniqueIds-map (g ∷ gs) (h ∷ hs) e (fresh, u) =
    (ground (arith, fresh), HasUniqueIds-map gs hs (ground arith) u)
