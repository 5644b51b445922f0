-- ===== src/Value.antt =====
-- The values that rows, intents and grants carry: the source's `unknown`, as far as it is looked
-- at. A number is what `toString`, `Number.isSafeInteger` and `Number.isFinite` say of it; a Date
-- is its `getTime` as text and its local calendar day, or invalid; an array inside an array and
-- any other object are `object`.
use warehousd.Prelude.{ℕ, String, Bool, Option, List, [], ◌∷◌, lookup, or_default}

pub record Num : Type 0 where
  pub text : String
  pub safe_integer : Bool
  pub finite : Bool

pub record DateParts : Type 0 where
  pub time : String
  pub year : ℕ
  pub month : ℕ
  pub day : ℕ

pub data Scalar : Type 0 where
  null undefined object : Scalar
  bool : Bool → Scalar
  num : Num → Scalar
  str : String → Scalar
  date : Option DateParts → Scalar

pub data Value : Type 0 where
  one : Scalar → Value
  many : List Scalar → Value

-- `Record<string, unknown>`
abbrev pub Document : Type 0
Document = List (String × Value)

-- `row[name]`
abbrev pub get : String → Document → Value
get name row = or_default (lookup name row) (one undefined)

-- An array is an object to `typeof`.
abbrev pub scalar_of : Value → Scalar
scalar_of (one s) = s
scalar_of (many ss) = object

-- `Array.isArray(v) ? v : [v]`
abbrev pub elements : Value → List Scalar
elements (one s) = s ∷ []
elements (many ss) = ss

pub data FilterOp : Type 0 where
  eq in_list : FilterOp

pub record DocumentFilter : Type 0 where
  pub field : String
  pub op : FilterOp
  pub value : Value

-- What the program asks of its platform: the instant that `new Date(text).getTime()` gives for a
-- text, printed, or `none` for NaN.
pub record Platform : Type 0 where
  pub instant_of : List ℕ → Option (List ℕ)
