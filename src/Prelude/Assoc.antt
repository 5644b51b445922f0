-- ===== src/Prelude/Assoc.antt =====
-- Maps with string keys, as association lists. The first entry of a key counts.
use Prim.Native.String.{String}
use mathlib.Core.Path.{◌≡◌, refl, subst}
use mathlib.Core.Logic.{inl, inr}
use mathlib.Core.Bool.{Bool, false}
use mathlib.Core.Option.{Option, none, some}
use mathlib.Core.List.{List, [], ◌∷◌}
use native.Mathlib.Omega.{arith}
use text.Mathlib.Text.{◌==◌}
use text.Mathlib.TextEquality.{eq_iff}
use warehousd.Prelude.Tests.{if◌then◌else◌, is_some, Bool-cases}
use warehousd.Prelude.Strings.{includes}
use warehousd.Prelude.Lists.{All}

module _ {ℓ} {V : Type ℓ} where
  abbrev pub lookup : String → List (String × V) → Option V
  lookup name [] = none
  lookup name ((key, value) ∷ rest) = if key == name then some value else lookup name rest

  -- `m[name] = value`
  abbrev pub insert : String → V → List (String × V) → List (String × V)
  insert name value [] = (name, value) ∷ []
  insert name value (entry ∷ rest) =
      if entry.0 == name then (name, value) ∷ rest else entry ∷ insert name value rest

  -- `Object.keys(m)`
  abbrev pub keys : List (String × V) → List String
  keys [] = []
  keys ((k, v) ∷ m) = k ∷ keys m

  -- The names of the entries that satisfy a test on their value.
  abbrev pub keys_where : (V → Bool) → List (String × V) → List String
  keys_where p [] = []
  keys_where p ((k, v) ∷ m) = let rest = keys_where p m in if p v then k ∷ rest else rest

  -- No key stands twice, as in every object of the source.
  abbrev pub IsMap : List (String × V) → Type 0
  IsMap [] = Unit
  IsMap ((k, v) ∷ m) = (includes (keys m) k ≡ false) × IsMap m

  pub is_some-lookup :
      (k : String) (m : List (String × V)) → is_some (lookup k m) ≡ includes (keys m) k
  is_some-lookup k [] = refl
  is_some-lookup k ((j, v) ∷ m) = ground (arith, is_some-lookup k m)

  pub includes-keys_where_none :
      (p : V → Bool) (k : String) (m : List (String × V))
      → includes (keys m) k ≡ false
      → includes (keys_where p m) k ≡ false
  includes-keys_where_none p k [] h = refl
  includes-keys_where_none p k ((j, v) ∷ m) h = ground (arith, includes-keys_where_none p k m)

  abbrev pub holds_at : (V → Bool) → Option V → Bool
  holds_at p none = false
  holds_at p (some v) = p v

  -- A name is listed exactly when its entry satisfies the test.
  pub includes-keys_where :
      (p : V → Bool) (k : String) (m : List (String × V))
      → IsMap m
      → includes (keys_where p m) k ≡ holds_at p (lookup k m)
  includes-keys_where p k [] h = refl
  includes-keys_where p k ((j, v) ∷ m) (fresh, h) = ground (
    arith,
    includes-keys_where p k m h,
    eq_iff j k,
    includes-keys_where_none p j m fresh,
    includes-keys_where_none p k m,
  )

  -- Reading a key after a key was written.
  pub lookup-insert :
      (k j : String) (v : V) (m : List (String × V))
      → lookup k (insert j v m) ≡ (if j == k then some v else lookup k m)
  lookup-insert k j v [] = refl
  lookup-insert k j v ((i, x) ∷ m) = elim (Bool-cases (i == j)) [
    | inl e ↦ rw (e, if◌then◌else◌) (ground (arith, eq_iff i j))
    | inr e ↦ rw (e, if◌then◌else◌) (ground (arith, lookup-insert k j v m, eq_iff j k, eq_iff i k))
  ]

  -- What holds of each entry holds of the one that is found.
  pub lookup-All {κ} :
      (P : String → V → Type κ) (k : String) (v : V) (m : List (String × V))
      → All (λ (x : String × V). P x.0 x.1) m
      → lookup k m ≡ some v
      → P k v
  lookup-All P k v [] h e = absurd (cc)
  lookup-All P k v ((j, x) ∷ m) (h, hs) e = elim (Bool-cases (j == k)) [
    | inl t ↦
        let key : j ≡ k = ground (arith, eq_iff j k) in
        let found : x ≡ v = ground arith in subst (λ a. P a v) key (subst (λ a. P j a) found h)
    | inr t ↦ lookup-All P k v m hs (ground arith)
  ]
