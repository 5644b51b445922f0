-- ===== src/Prelude/Lists.antt =====
-- Lists with Boolean predicates and native lengths.
use Prim.Native.Nat.{ℕ, zero, suc, ◌+◌}
use mathlib.Core.Path.{◌≡◌, refl, sym, subst}
use mathlib.Core.Logic.{inl, inr}
use mathlib.Core.Bool.{Bool, true, false, ◌&&◌, ◌||◌}
use mathlib.Core.Option.{Option, none, some}
use mathlib.Core.List.{List, [], ◌∷◌, ◌++◌, Memᴰ}
use native.Mathlib.Omega.{arith}
use warehousd.Prelude.Tests.{if◌then◌else◌, Bool-cases}

module _ {ℓ} {A : Type ℓ} where
  abbrev pub length : List A → ℕ
  length [] = 0
  length (x ∷ xs) = suc (length xs)

  abbrev pub filter : (A → Bool) → List A → List A
  filter p [] = []
  filter p (x ∷ xs) = let rest = filter p xs in if p x then x ∷ rest else rest

  abbrev pub all : (A → Bool) → List A → Bool
  all p [] = true
  all p (x ∷ xs) = p x && all p xs

  abbrev pub any : (A → Bool) → List A → Bool
  any p [] = false
  any p (x ∷ xs) = p x || any p xs

  abbrev pub find : (A → Bool) → List A → Option A
  find p [] = none
  find p (x ∷ xs) = let rest = find p xs in if p x then some x else rest

  abbrev pub get_elem? : List A → ℕ → Option A
  get_elem? [] i = none
  get_elem? (x ∷ xs) zero = some x
  get_elem? (x ∷ xs) (suc i) = get_elem? xs i

  abbrev pub take : ℕ → List A → List A
  take zero xs = []
  take (suc n) [] = []
  take (suc n) (x ∷ xs) = x ∷ take n xs

  abbrev pub drop : ℕ → List A → List A
  drop zero xs = xs
  drop (suc n) [] = []
  drop (suc n) (x ∷ xs) = drop n xs

  pub length-append : (xs ys : List A) → length (xs ++ ys) ≡ length xs + length ys
  length-append [] ys = omega arith
  length-append (x ∷ xs) ys = omega (arith, length-append xs ys)

  pub filter-append :
      (p : A → Bool) (xs ys : List A) → filter p (xs ++ ys) ≡ filter p xs ++ filter p ys
  filter-append p [] ys = refl
  filter-append p (x ∷ xs) ys = ground (arith, filter-append p xs ys)

  pub all-append : (p : A → Bool) (xs ys : List A) → all p (xs ++ ys) ≡ (all p xs && all p ys)
  all-append p [] ys = refl
  all-append p (x ∷ xs) ys = ground (arith, all-append p xs ys)

  pub any-append : (p : A → Bool) (xs ys : List A) → any p (xs ++ ys) ≡ (any p xs || any p ys)
  any-append p [] ys = refl
  any-append p (x ∷ xs) ys = ground (arith, any-append p xs ys)

  pub find-some : (p : A → Bool) (xs : List A) (x : A) → find p xs ≡ some x → p x ≡ true
  find-some p [] x h = cc
  find-some p (y ∷ xs) x h = ground (arith, find-some p xs x)

  abbrev pub is_empty : List A → Bool
  is_empty [] = true
  is_empty (x ∷ xs) = false

  pub all-filter_self : (p : A → Bool) (xs : List A) → all p (filter p xs) ≡ true
  all-filter_self p [] = refl
  all-filter_self p (x ∷ xs) = ground (arith, all-filter_self p xs)

  pub all-filter : (p q : A → Bool) (xs : List A) → all p xs ≡ true → all p (filter q xs) ≡ true
  all-filter p q [] h = refl
  all-filter p q (x ∷ xs) h = ground (arith, all-filter p q xs)

module _ {ℓ κ} {A : Type ℓ} (P : A → Type κ) where
  abbrev pub All : List A → Type κ
  All [] = Unit
  All (x ∷ xs) = P x × All xs

  pub All-append : (xs ys : List A) → All xs → All ys → All (xs ++ ys)
  All-append [] ys h k = k
  All-append (x ∷ xs) ys (p, h) k = (p, All-append xs ys h k)

-- A member of a filtered list is a member that passes the test, and the other way round.
module _ {ℓ} {A : Type ℓ} (p : A → Bool) where
  at_head :
      (x a : A) (xs : List A)
      → p x ≡ true
      → Memᴰ a (x ∷ filter p xs)
      → (Memᴰ a (filter p xs) → Memᴰ a xs × (p a ≡ true))
      → Memᴰ a (x ∷ xs) × (p a ≡ true)
  at_head x a xs h (Memᴰ.head e) ih = (Memᴰ.head e, subst (λ z. p z ≡ true) (sym e) h)
  at_head x a xs h (Memᴰ.tail m) ih = let (n, q) = ih m in (Memᴰ.tail n, q)

  pub Memᴰ-filter : (xs : List A) (a : A) → Memᴰ a (filter p xs) → Memᴰ a xs × (p a ≡ true)
  Memᴰ-filter [] a m = elim m [ ]
  Memᴰ-filter (x ∷ xs) a m = elim (Bool-cases (p x)) [
    | inl h ↦ at_head x a xs h (rw (h, if◌then◌else◌) at m) (Memᴰ-filter xs a)
    | inr h ↦ let (n, q) = Memᴰ-filter xs a (rw (h, if◌then◌else◌) at m) in (Memᴰ.tail n, q)
  ]

  pub Memᴰ-filter_intro : (xs : List A) (a : A) → Memᴰ a xs → p a ≡ true → Memᴰ a (filter p xs)
  Memᴰ-filter_intro [] a m h = elim m [ ]
  Memᴰ-filter_intro (x ∷ xs) a (Memᴰ.head e) h =
      let h' : p x ≡ true = subst (λ z. p z ≡ true) e h in rw (h', if◌then◌else◌) (Memᴰ.head e)
  Memᴰ-filter_intro (x ∷ xs) a (Memᴰ.tail m) h = elim (Bool-cases (p x)) [
    | inl k ↦ rw (k, if◌then◌else◌) (Memᴰ.tail (Memᴰ-filter_intro xs a m h))
    | inr k ↦ rw (k, if◌then◌else◌) (Memᴰ-filter_intro xs a m h)
  ]

  pub All_of_filter {κ} :
      (P : A → Type κ) (xs : List A) → All P (filter p xs) → All (λ x. p x ≡ true → P x) xs
  All_of_filter P [] h = tt
  All_of_filter P (x ∷ xs) h = elim (Bool-cases (p x)) [
    | inl e ↦ let (here, rest) = rw (e, if◌then◌else◌) at h in (λ _. here, All_of_filter P xs rest)
    | inr e ↦ (λ t. absurd (cc), All_of_filter P xs (rw (e, if◌then◌else◌) at h))
  ]

module _ {ℓ} {A : Type ℓ} where
  pub find-mem :
      (p : A → Bool) (xs : List A) (a : A) → find p xs ≡ some a → Memᴰ a xs × (p a ≡ true)
  find-mem p [] a h = absurd (cc)
  find-mem p (x ∷ xs) a h = elim (Bool-cases (p x)) [
    | inl e ↦
        let same : x ≡ a = ground arith in (Memᴰ.head (sym same), subst (λ z. p z ≡ true) same e)
    | inr e ↦ let (m, q) = find-mem p xs a (ground arith) in (Memᴰ.tail m, q)
  ]

  pub All-mem {κ} : (P : A → Type κ) (xs : List A) (a : A) → All P xs → Memᴰ a xs → P a
  All-mem P [] a h m = elim m [ ]
  All-mem P (x ∷ xs) a (h, hs) (Memᴰ.head e) = subst P (sym e) h
  All-mem P (x ∷ xs) a (h, hs) (Memᴰ.tail m) = All-mem P xs a hs m

  -- A test that no member passes.
  pub any-false : (p : A → Bool) (xs : List A) (a : A) → any p xs ≡ false → Memᴰ a xs → p a ≡ false
  any-false p [] a h m = elim m [ ]
  any-false p (x ∷ xs) a h (Memᴰ.head e) =
      let off : p x ≡ false = ground arith in subst (λ z. p z ≡ false) (sym e) off
  any-false p (x ∷ xs) a h (Memᴰ.tail m) = any-false p xs a (ground arith) m
