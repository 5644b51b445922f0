-- ===== src/Grants/Filters/Canonical.antt =====
-- `canonicalize` of grants/filters.ts: one text per value, so that two values are compared exactly.
use mathlib.Core.List.{reverse}
use warehousd.Prelude.{
  ℕ, Bool, true, false, not, ◌&&◌, ◌||◌, Option, none, some, List, [], ◌∷◌, ◌++◌, if◌then◌else◌,
  nat_eq, length, is_empty, any, all, map, filter, ◌==◌,
}
use warehousd.Config.{FieldType, uuid, text, numeric, int, timestamptz, date, boolean, json}
use warehousd.Value.{Scalar, Platform}
use warehousd.Grants.Filters.Scan.{
  Text, codes, trim, is_digit, is_hex, lower, text_eq, eat, eat_digits, drop_while, is_space,
  pad_start, show, ◌>>=◌,
}
use warehousd.Grants.Filters.Decimal.{canonical_decimal}

abbrev is_char : ℕ → ℕ → Bool
is_char c d = nat_eq c d

-- `/^\d{4}-\d{2}-\d{2}/`, and what follows.
abbrev calendar_day : Text → Option Text
calendar_day s = do
  a ← eat_digits 4 s
  b ← eat (is_char b'-') a
  c ← eat_digits 2 b
  d ← eat (is_char b'-') c
  eat_digits 2 d

abbrev at_end : Option Text → Bool
at_end none = false
at_end (some s) = is_empty s

-- DATE_ONLY
unfoldable pub date_only : Text → Bool
date_only s = at_end (calendar_day s)

-- `(\.\d+)?`
abbrev fraction_of_second : Text → Option Text
fraction_of_second [] = some []
fraction_of_second (c ∷ s) =
    if nat_eq c b'.'
    then (do after ← eat is_digit s; some (drop_while is_digit after))
    else some (c ∷ s)

-- `(:\d{2}(\.\d+)?)?`
abbrev seconds : Text → Option Text
seconds [] = some []
seconds (c ∷ s) =
    if nat_eq c b':' then (do after ← eat_digits 2 s; fraction_of_second after) else some (c ∷ s)

-- `(Z|z|[+-]\d{2}:\d{2})$`
abbrev zone : Text → Bool
zone [] = false
zone (c ∷ s) =
    if nat_eq c b'Z' || nat_eq c b'z'
    then is_empty s
    else if nat_eq c b'+' || nat_eq c b'-'
    then at_end (do a ← eat_digits 2 s; b ← eat (is_char b':') a; eat_digits 2 b)
    else false

abbrev zone_of : Option Text → Bool
zone_of none = false
zone_of (some s) = zone (drop_while is_space s)

-- ISO_WITH_ZONE
unfoldable pub iso_with_zone : Text → Bool
iso_with_zone s = zone_of (do
  day ← calendar_day s
  after_t ← eat (λ c. nat_eq c b'T' || nat_eq c 32) day
  hours ← eat_digits 2 after_t
  colon ← eat (is_char b':') hours
  minutes ← eat_digits 2 colon
  seconds minutes)

abbrev digits_to_end : Text → Bool
digits_to_end s = not (is_empty s) && is_empty (drop_while is_digit s)

-- INTEGER
unfoldable pub is_integer : Text → Bool
is_integer [] = false
is_integer (c ∷ s) =
    if nat_eq c b'+' || nat_eq c b'-' then digits_to_end s else digits_to_end (c ∷ s)

unfoldable pub canonical_date : Scalar → Option Text
unfolding date_only show
canonical_date (Scalar.date none) = none
canonical_date (Scalar.date (some d)) = some (
    pad_start 4 (show d.year)
    ++ (b'-' ∷ pad_start 2 (show d.month))
    ++ (b'-' ∷ pad_start 2 (show d.day)))
canonical_date (Scalar.str s) = if date_only (trim (codes s)) then some (trim (codes s)) else none
canonical_date _ = none

unfoldable pub canonical_instant : Platform → Scalar → Option Text
unfolding iso_with_zone
canonical_instant platform (Scalar.date none) = none
canonical_instant platform (Scalar.date (some d)) = some (codes d.time)
canonical_instant platform (Scalar.str s) =
    if iso_with_zone (trim (codes s)) then platform.instant_of (trim (codes s)) else none
canonical_instant platform _ = none

abbrev true_literals : List Text
true_literals = codes "t" ∷ codes "true" ∷ codes "y" ∷ codes "yes" ∷ codes "on" ∷ codes "1" ∷ []

abbrev false_literals : List Text
false_literals = codes "f" ∷ codes "false" ∷ codes "n" ∷ codes "no" ∷ codes "off" ∷ codes "0" ∷ []

abbrev truth : Bool → Text
truth true = codes "true"
truth false = codes "false"

unfoldable pub canonical_boolean : Scalar → Option Text
canonical_boolean (Scalar.bool b) = some (truth b)
canonical_boolean (Scalar.str s) =
    let word = map lower (trim (codes s)) in
    if any (text_eq word) true_literals
    then some (truth true)
    else if any (text_eq word) false_literals
    then some (truth false)
    else none
canonical_boolean (Scalar.num n) =
    if n.text == "1" then some (truth true) else if n.text == "0" then some (truth false) else none
canonical_boolean _ = none

-- `.replace(/^\{/, "")`
abbrev drop_first : ℕ → Text → Text
drop_first c [] = []
drop_first c (d ∷ s) = if nat_eq c d then s else d ∷ s

-- Case, one pair of braces and all hyphens are insignificant.
abbrev uuid_hex : Text → Text
uuid_hex s =
    let unbraced = reverse (drop_first b'}' (reverse (drop_first b'{' (map lower (trim s))))) in
    filter (λ c. not (nat_eq c b'-')) unbraced

unfoldable pub canonical_uuid : Scalar → Option Text
canonical_uuid (Scalar.str s) =
    let hex = uuid_hex (codes s) in
    if nat_eq (length hex) 32 && all is_hex hex then some hex else none
canonical_uuid _ = none

unfoldable pub canonical_int : Scalar → Option Text
unfolding canonical_decimal is_integer
canonical_int (Scalar.num n) = if n.safe_integer then canonical_decimal (codes n.text) else none
canonical_int (Scalar.str s) =
    if is_integer (trim (codes s)) then canonical_decimal (codes s) else none
canonical_int _ = none

unfoldable pub canonical_numeric : Scalar → Option Text
unfolding canonical_decimal
canonical_numeric (Scalar.num n) = if n.finite then canonical_decimal (codes n.text) else none
canonical_numeric (Scalar.str s) = canonical_decimal (codes s)
canonical_numeric _ = none

-- `String(v)` of a scalar that is no object.
unfoldable pub canonical_text : Scalar → Option Text
canonical_text (Scalar.str s) = some (codes s)
canonical_text (Scalar.bool b) = some (truth b)
canonical_text (Scalar.num n) = some (codes n.text)
canonical_text _ = none

abbrev pub is_null : Scalar → Bool
is_null Scalar.null = true
is_null Scalar.undefined = true
is_null _ = false

-- The type of a field; a field that declares none is text.
abbrev by_type : Platform → Option FieldType → Scalar → Option Text
by_type platform none v = canonical_text v
by_type platform (some text) v = canonical_text v
by_type platform (some int) v = canonical_int v
by_type platform (some numeric) v = canonical_numeric v
by_type platform (some timestamptz) v = canonical_instant platform v
by_type platform (some date) v = canonical_date v
by_type platform (some boolean) v = canonical_boolean v
by_type platform (some uuid) v = canonical_uuid v
by_type platform (some json) v = none

unfoldable pub canonicalize : Platform → Option FieldType → Scalar → Option Text
unfolding canonical_text canonical_int canonical_numeric canonical_instant canonical_date
    canonical_boolean canonical_uuid
canonicalize platform type v = if is_null v then none else by_type platform type v
