-- ===== src/Import/Coerce.antt =====
-- packages/broker/src/import/validate.ts: one submitted value, coerced to the type of its field.
use warehousd.Prelude.{
  ℕ, zero, suc, String, Bool, true, false, Option, none, some, List, [], ◌∷◌, any, map, nat_eq,
  if◌then◌else◌,
}
use warehousd.Config.{
  FieldType, uuid, text, numeric, int, timestamptz, date, boolean, json, FieldConfig,
}
use warehousd.Value.{Num, Scalar, Value, one, many}
use warehousd.Grants.Filters.Scan.{Text, codes, text_eq, trim, lower, is_hex, eat, ◌>>=◌}

-- What the program asks of its platform: `String(v)`, `Number(text)`, `Number.isInteger`, the day
-- and the instant of `Date.parse(text)` printed by `toISOString`, and `JSON.parse`. `none` is NaN
-- and the error.
pub record Conversions : Type 0 where
  pub text_of : Value → String
  pub number_of : Text → Num
  pub is_integer : Num → Bool
  pub day_of : String → Option String
  pub instant_of : String → Option String
  pub json_of : String → Option Value

pub data Coerced : Type 0 where
  value : Value → Coerced
  reason : String → Coerced

-- `[0-9a-f]{n}`, in either case.
eat_hex : ℕ → Text → Option Text
eat_hex zero cs = some cs
eat_hex (suc n) cs = eat (λ c. is_hex (lower c)) cs >>= eat_hex n

abbrev dash : Text → Option Text
dash cs = eat (λ c. nat_eq c b'-') cs

-- UUID_RE
unfoldable pub is_uuid : Text → Bool
unfolding eat_hex
is_uuid cs =
    elim (eat_hex 8 cs
      >>= dash
      >>= eat_hex 4
      >>= dash
      >>= eat_hex 4
      >>= dash
      >>= eat_hex 4
      >>= dash
      >>= eat_hex 12) [ some [] ↦ true | _ ↦ false ]

abbrev one_of : Text → List String → Bool
one_of s words = any (λ w. text_eq s (codes w)) words

abbrev boolean_of : Text → Coerced
boolean_of s =
    if one_of s ("true" ∷ "t" ∷ "1" ∷ "yes" ∷ [])
    then value (one (Scalar.bool true))
    else if one_of s ("false" ∷ "f" ∷ "0" ∷ "no" ∷ [])
    then value (one (Scalar.bool false))
    else reason "invalid_boolean"

abbrev text_or : String → Option String → Coerced
text_or why none = reason why
text_or why (some s) = value (one (Scalar.str s))

abbrev value_or : String → Option Value → Coerced
value_or why none = reason why
value_or why (some v) = value v

abbrev pub is_nothing : Value → Bool
is_nothing (one Scalar.null) = true
is_nothing (one Scalar.undefined) = true
is_nothing v = false

module _ (p : Conversions) where
  -- `typeof v === "number" ? v : Number(String(v).trim())`
  abbrev number : Value → Num
  number (one (Scalar.num n)) = n
  number v = p.number_of (trim (codes (p.text_of v)))

  abbrev coerce_uuid : Value → Coerced
  coerce_uuid (one (Scalar.str s)) =
      if is_uuid (codes s) then value (one (Scalar.str s)) else reason "invalid_uuid"
  coerce_uuid v = reason "invalid_uuid"

  abbrev coerce_boolean : Value → Coerced
  coerce_boolean (one (Scalar.bool b)) = value (one (Scalar.bool b))
  coerce_boolean v = boolean_of (map lower (trim (codes (p.text_of v))))

  -- An array, an object and a Date are objects to `typeof`.
  abbrev coerce_json : Value → Coerced
  coerce_json (many vs) = value (many vs)
  coerce_json (one Scalar.object) = value (one Scalar.object)
  coerce_json (one (Scalar.date d)) = value (one (Scalar.date d))
  coerce_json v = value_or "invalid_json" (p.json_of (p.text_of v))

  abbrev coerce_text : Value → Coerced
  coerce_text (one (Scalar.str s)) = value (one (Scalar.str s))
  coerce_text (one (Scalar.num n)) = value (one (Scalar.str (p.text_of (one (Scalar.num n)))))
  coerce_text v = reason "invalid_text"

  abbrev coerce_number : (Num → Bool) → String → Value → Coerced
  coerce_number test why v =
      let n = number v in if test n then value (one (Scalar.num n)) else reason why

  abbrev coerce_as : Option FieldType → Value → Coerced
  coerce_as none v = coerce_text v
  coerce_as (some uuid) v = coerce_uuid v
  coerce_as (some int) v = coerce_number p.is_integer "invalid_int" v
  coerce_as (some numeric) v = coerce_number (λ n. n.finite) "invalid_numeric" v
  coerce_as (some boolean) v = coerce_boolean v
  coerce_as (some date) v = text_or "invalid_date" (p.day_of (p.text_of v))
  coerce_as (some timestamptz) v = text_or "invalid_date" (p.instant_of (p.text_of v))
  coerce_as (some json) v = coerce_json v
  coerce_as (some text) v = coerce_text v

  unfoldable pub coerce : Value → FieldConfig → Coerced
  unfolding is_uuid
  coerce v f =
      if is_nothing v
      then (if f.nullable then value (one Scalar.null) else reason "null_not_allowed")
      else coerce_as f.type v
