-- ===== src/Grants/Filters/Scan.antt =====
-- Texts as code points: the scanning that grants/filters.ts does by regular expressions.
use Prim.Native.Char.{code}
use Prim.Native.String as Str
use mathlib.Core.List.{reverse}
use warehousd.Prelude.{
  ℕ, zero, suc, ◌+◌, ◌-◌, ◌/◌, ◌%◌, String, Bool, true, false, ◌&&◌, ◌||◌, Option, none, some, List,
  [], ◌∷◌, ◌++◌, if◌then◌else◌, ltb, leb, nat_eq, length,
}

abbrev pub Text : Type 0
Text = List ℕ

abbrev pub codes : String → Text
codes Str.String.[] = []
codes (Str.String.◌∷◌ c s) = code c ∷ codes s

abbrev pub text_eq : Text → Text → Bool
text_eq [] [] = true
text_eq (a ∷ as') (b ∷ bs) = nat_eq a b && text_eq as' bs
text_eq _ _ = false

-- White space and line ends of JavaScript.
abbrev pub is_space : ℕ → Bool
is_space c =
    (leb 9 c && leb c 13)
    || nat_eq c 32
    || nat_eq c 160
    || nat_eq c 0x1680
    || (leb 0x2000 c && leb c 0x200a)
    || nat_eq c 0x2028
    || nat_eq c 0x2029
    || nat_eq c 0x202f
    || nat_eq c 0x205f
    || nat_eq c 0x3000
    || nat_eq c 0xfeff

abbrev pub drop_while : (ℕ → Bool) → Text → Text
drop_while p [] = []
drop_while p (c ∷ s) = let rest = drop_while p s in if p c then rest else c ∷ s

abbrev pub take_while : (ℕ → Bool) → Text → Text
take_while p [] = []
take_while p (c ∷ s) = let rest = take_while p s in if p c then c ∷ rest else []

-- `s.trim()`
abbrev pub trim : Text → Text
trim s = reverse (drop_while is_space (reverse (drop_while is_space s)))

abbrev pub is_digit : ℕ → Bool
is_digit c = leb b'0' c && leb c b'9'

-- `toLowerCase` on ASCII; no other letter's lower case is among those that are looked for.
abbrev pub lower : ℕ → ℕ
lower c = if leb b'A' c && leb c b'Z' then c + 32 else c

abbrev pub is_hex : ℕ → Bool
is_hex c = is_digit c || (leb b'a' c && leb c b'f')

-- One expected character, and `n` digits.
abbrev pub eat : (ℕ → Bool) → Text → Option Text
eat p [] = none
eat p (c ∷ s) = if p c then some s else none

abbrev pub eat_digits : ℕ → Text → Option Text
eat_digits zero s = some s
eat_digits (suc n) [] = none
eat_digits (suc n) (c ∷ s) = if is_digit c then eat_digits n s else none

infixl 5 ◌>>=◌
abbrev pub ◌>>=◌ {ℓ κ} : {A : Type ℓ} {B : Type κ} → Option A → (A → Option B) → Option B
none >>= k = none
some a >>= k = k a

-- `n.toString()`: the decimal digits. A number has fewer digits than itself plus one.
abbrev pub show_from : ℕ → ℕ → Text → Text
show_from zero n acc = acc
show_from (suc f) n acc =
    let more = show_from f (n / 10) ((b'0' + n % 10) ∷ acc) in
    if ltb n 10 then (b'0' + n) ∷ acc else more

unfoldable pub show : ℕ → Text
show n = show_from (suc n) n []

-- `text.padStart(w, "0")`
abbrev pub zeros : ℕ → Text
zeros zero = []
zeros (suc n) = b'0' ∷ zeros n

abbrev pub pad_start : ℕ → Text → Text
pad_start w s = zeros (w - length s) ++ s
