-- ===== src/Prelude/Strings.antt =====
-- Lists of names: `includes`, and inclusion of one list in another.
use Prim.Native.String.{String}
use mathlib.Core.Path.{◌≡◌, refl}
use mathlib.Core.Bool.{Bool, true, false, not, ◌&&◌, ◌||◌, false≢true}
use mathlib.Core.Logic.{inl, inr}
use mathlib.Core.List.{List, [], ◌∷◌, ◌++◌}
use native.Mathlib.Omega.{arith}
use text.Mathlib.Text.{◌==◌}
use text.Mathlib.TextEquality.{eq_iff}
use text.Mathlib.TextPositions.{eq_refl}
use warehousd.Prelude.Tests.{or_eq}
use warehousd.Prelude.Lists.{filter, any}

-- `xs.includes(x)`
abbrev pub includes : List String → String → Bool
includes [] x = false
includes (y ∷ ys) x = y == x || includes ys x

-- Every name of `xs` is one of `ys`.
abbrev pub subset : List String → List String → Bool
subset [] ys = true
subset (x ∷ xs) ys = includes ys x && subset xs ys

pub includes-filter :
    (p : String → Bool) (xs : List String) (x : String)
    → includes (filter p xs) x ≡ (includes xs x && p x)
includes-filter p [] x = refl
includes-filter p (y ∷ xs) x = ground (arith, includes-filter p xs x, eq_iff y x)

pub includes-append :
    (xs ys : List String) (x : String) → includes (xs ++ ys) x ≡ (includes xs x || includes ys x)
includes-append [] ys x = refl
includes-append (y ∷ xs) ys x = ground (arith, includes-append xs ys x)

pub subset_sound :
    (xs ys : List String) (x : String)
    → subset xs ys ≡ true
    → includes xs x ≡ true
    → includes ys x ≡ true
subset_sound [] ys x h k = cc
subset_sound (y ∷ xs) ys x h k = ground (arith, subset_sound xs ys x, eq_iff y x)

-- `[...new Set(xs)]`: the first occurrence of each name.
abbrev pub distinct : List String → List String
distinct [] = []
distinct (x ∷ xs) = x ∷ filter (λ y. not (y == x)) (distinct xs)

pub includes-distinct : (xs : List String) (y : String) → includes (distinct xs) y ≡ includes xs y
includes-distinct [] y = refl
includes-distinct (x ∷ xs) y = ground (
  arith,
  includes-distinct xs y,
  includes-filter (λ (z : String). not (z == x)) (distinct xs) y,
  eq_iff x y,
  eq_iff y x,
)

-- No name stands twice.
abbrev pub IsDistinct : List String → Type 0
IsDistinct [] = Unit
IsDistinct (x ∷ xs) = (includes xs x ≡ false) × IsDistinct xs

IsDistinct-filter :
    (p : String → Bool) (xs : List String) → IsDistinct xs → IsDistinct (filter p xs)
IsDistinct-filter p [] h = tt
IsDistinct-filter p (x ∷ xs) (fresh, h) =
    ground (arith, IsDistinct-filter p xs h, includes-filter p xs x)

pub IsDistinct-distinct : (xs : List String) → IsDistinct (distinct xs)
IsDistinct-distinct [] = tt
IsDistinct-distinct (x ∷ xs) = (
  ground (arith, includes-filter (λ (z : String). not (z == x)) (distinct xs) x, eq_iff x x),
  IsDistinct-filter (λ z. not (z == x)) (distinct xs) (IsDistinct-distinct xs),
)

-- A name that two lists share.
pub any-includes :
    (xs ys : List String)
    → any (includes ys) xs ≡ true
    → (x : String) × (includes xs x ≡ true) × (includes ys x ≡ true)
any-includes [] ys h = absurd (false≢true h)
any-includes (x ∷ xs) ys h = elim (or_eq (includes ys x) (any (includes ys) xs) h) [
  | inl here ↦ (x, ground (arith, eq_refl x), here)
  | inr there ↦ let (y, in_xs, in_ys) = any-includes xs ys there in (y, ground arith, in_ys)
]

pub any-includes_intro :
    (xs ys : List String) (x : String)
    → includes xs x ≡ true
    → includes ys x ≡ true
    → any (includes ys) xs ≡ true
any-includes_intro [] ys x h k = h
any-includes_intro (y ∷ xs) ys x h k = ground (arith, any-includes_intro xs ys x, eq_iff y x)
