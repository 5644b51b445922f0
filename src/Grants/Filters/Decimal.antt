-- ===== src/Grants/Filters/Decimal.antt =====
-- `canonicalDecimal` of grants/filters.ts.
use mathlib.Core.List.{reverse}
use warehousd.Prelude.{
  ℕ, ◌+◌, ◌-◌, ◌*◌, Bool, false, not, ◌&&◌, ◌||◌, Option, none, some, [], ◌∷◌, ◌++◌, if◌then◌else◌,
  nat_eq, length, is_empty,
}
use warehousd.Grants.Filters.Scan.{Text, trim, is_digit, take_while, drop_while, show, ◌>>=◌}

-- What DECIMAL captures: the sign, the digits before and after the point, and the exponent with
-- its sign.
pub record Numeral : Type 0 where
  pub negative : Bool
  pub int_part : Text
  pub frac_part : Text
  pub exp_negative : Bool
  pub exp_digits : Text

abbrev is_sign : ℕ → Bool
is_sign c = nat_eq c b'+' || nat_eq c b'-'

-- `[+-]?`, as whether it was a minus, and what follows.
abbrev sign : Text → Bool × Text
sign [] = (false, [])
sign (c ∷ s) = if is_sign c then (nat_eq c b'-', s) else (false, c ∷ s)

-- `(?:[eE]([+-]?\d+))?$`
abbrev exponent : Text → Option (Bool × Text)
exponent [] = some (false, [])
exponent (c ∷ s) =
    let (minus, rest) = sign s in
    if (nat_eq c b'e' || nat_eq c b'E')
      && not (is_empty rest)
      && is_empty (drop_while is_digit rest)
    then some (minus, rest)
    else none

-- `(?:\.(\d*))?`
abbrev fraction : Text → Text × Text
fraction [] = ([], [])
fraction (c ∷ s) =
    if nat_eq c b'.' then (take_while is_digit s, drop_while is_digit s) else ([], c ∷ s)

-- `DECIMAL.exec(s)`
unfoldable pub match_decimal : Text → Option Numeral
match_decimal s =
    let (minus, after_sign) = sign s in
    let (frac, after_frac) = fraction (drop_while is_digit after_sign) in
    do
      (exp_minus, exp) ← exponent after_frac
      some (record {
        negative = minus;
        int_part = take_while is_digit after_sign;
        frac_part = frac;
        exp_negative = exp_minus;
        exp_digits = exp;
      })

-- The number that digits spell.
abbrev pub value_from : ℕ → Text → ℕ
value_from n [] = n
value_from n (c ∷ s) = value_from (n * 10 + (c - b'0')) s

abbrev pub value : Text → ℕ
value s = value_from 0 s

-- A canonical decimal: zero, or a sign, digits that neither begin nor end with a zero, and a power
-- of ten, `scale_up - scale_down`, of which one is 0.
pub data Canonical : Type 0 where
  zero_value : Canonical
  scaled : Bool → Text → ℕ → ℕ → Canonical

abbrev is_zero_digit : ℕ → Bool
is_zero_digit c = nat_eq c b'0'

abbrev pub exp_up : Numeral → ℕ
exp_up m = if m.exp_negative then 0 else value m.exp_digits

abbrev pub exp_down : Numeral → ℕ
exp_down m = if m.exp_negative then value m.exp_digits else 0

-- Trailing zeros come off and raise the scale.
abbrev pub trailing : Text → ℕ
trailing s = length s - length (drop_while is_zero_digit (reverse s))

abbrev pub strip_trailing : Text → Text
strip_trailing s = reverse (drop_while is_zero_digit (reverse s))

abbrev pub scaled_by : Bool → Text → ℕ → ℕ → Canonical
scaled_by minus digits up down = scaled minus digits (up - down) (down - up)

unfoldable pub canonical_numeral : Numeral → Option Canonical
canonical_numeral m =
    let all_digits = m.int_part ++ m.frac_part in
    let digits = drop_while is_zero_digit all_digits in
    if is_empty all_digits
    then none
    else if is_empty digits
    then some zero_value
    else some (
        scaled_by m.negative (strip_trailing digits) (exp_up m + trailing digits)
          (exp_down m + length m.frac_part))

-- `${sign}${digits}e${scale}`, and "0".
unfoldable pub show_canonical : Canonical → Text
unfolding show
show_canonical zero_value = b'0' ∷ []
show_canonical (scaled minus digits up down) =
    (if minus then b'-' ∷ [] else [])
    ++ digits
    ++ b'e' ∷ (if nat_eq down 0 then show up else b'-' ∷ show down)

unfoldable pub canonical_decimal : Text → Option Text
unfolding match_decimal canonical_numeral show_canonical
canonical_decimal raw = do
  m ← match_decimal (trim raw)
  c ← canonical_numeral m
  some (show_canonical c)
