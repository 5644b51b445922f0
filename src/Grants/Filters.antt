-- ===== src/Grants/Filters.antt =====
-- packages/broker/src/grants/filters.ts: which documents a grant reaches, evaluated in process.
pub mod Scan
pub mod Decimal
pub mod Canonical
pub mod Laws
mod Tests
use warehousd.Prelude.{
  String, Bool, true, false, not, ◌&&◌, ◌||◌, Option, none, some, List, [], ◌∷◌, lookup, any, all,
  map, is_some, if◌then◌else◌, ◌==◌, includes, join,
}
use warehousd.Config.Posture.{other}
use warehousd.Config.{
  FieldType, uuid, text, numeric, int, timestamptz, date, boolean, json, FieldConfig,
  CollectionConfig,
}
use warehousd.Value.{
  Scalar, Value, one, many, Document, get, elements, FilterOp, eq, in_list, DocumentFilter,
  Platform, scalar_of,
}
use warehousd.Acl.Principals.{acl_admits}
use warehousd.Grants.Filters.Scan.{Text, text_eq}
use warehousd.Grants.Filters.Canonical.{canonicalize, is_null}

pub record FilterValidationError : Type 0 where
  pub field : String
  pub detail : String

-- `f.op === "in" && Array.isArray(f.value) ? f.value : [f.value]`
abbrev pub wanted : DocumentFilter → List Scalar
wanted f = elim f.op [ in_list ↦ elements f.value | eq ↦ scalar_of f.value ∷ [] ]

abbrev type_name : Option FieldType → String
type_name none = "text"
type_name (some uuid) = "uuid"
type_name (some text) = "text"
type_name (some numeric) = "numeric"
type_name (some int) = "int"
type_name (some timestamptz) = "timestamptz"
type_name (some date) = "date"
type_name (some boolean) = "boolean"
type_name (some json) = "json"

abbrev pub type_of : Option FieldConfig → Option FieldType
type_of none = none
type_of (some f) = f.type

-- What any object answers to besides its own properties.
abbrev pub object_prototype : List String
object_prototype =
    "constructor" ∷ "__defineGetter__" ∷ "__defineSetter__" ∷ "hasOwnProperty" ∷ "__lookupGetter__"
    ∷ "__lookupSetter__" ∷ "isPrototypeOf" ∷ "propertyIsEnumerable" ∷ "toString" ∷ "valueOf"
    ∷ "__proto__" ∷ "toLocaleString" ∷ []

-- Read as a field, such a property has none of a field's attributes.
abbrev pub no_attributes : FieldConfig
no_attributes = record {
  type = none;
  posture = other;
  mask = none;
  pk = false;
  view_join = false;
  relation = false;
  nullable = false;
}

-- `c.fields[name]`, a read through the prototype.
unfoldable pub field_at : CollectionConfig → String → Option FieldConfig
field_at c name = elim (lookup name c.fields) [
  | some f ↦ some f
  | none ↦ if includes object_prototype name then some no_attributes else none
]

-- null on either side equals nothing.
abbrev pub same : Option Text → Option Text → Bool
same (some a) (some b) = text_eq a b
same _ _ = false

abbrev pub acl_column : String
acl_column = "_acl"

-- The names of an access list, unless an element is no string.
abbrev pub principals_of : List Scalar → Option (List String)
principals_of [] = some []
principals_of (Scalar.str s ∷ ss) = elim (principals_of ss) [
  | none ↦ none
  | some ps ↦ some (s ∷ ps)
]
principals_of (_ ∷ ss) = none

-- The column as the row carries it: absent denies, null is public, and what is no list of
-- strings denies.
abbrev pub column_admits : Option Value → List String → Bool
column_admits none principals = false
column_admits (some (one Scalar.null)) principals = acl_admits none principals
column_admits (some (one Scalar.undefined)) principals = acl_admits none principals
column_admits (some (one _)) principals = false
column_admits (some (many ss)) principals = elim (principals_of ss) [
  | none ↦ false
  | some ps ↦ acl_admits (some ps) principals
]

module _ (platform : Platform) where
  -- A null value is legal: it matches nothing.
  abbrev pub comparable : Option FieldType → Scalar → Bool
  comparable type v = is_null v || is_some (canonicalize platform type v)

  abbrev pub check_field : DocumentFilter → Option FieldConfig → Option FilterValidationError
  check_field f none = some (record { field = f.field; detail = "no such field on the collection" })
  check_field f (some field) =
      if field.view_join || field.relation
      then some (record {
        field = f.field;
        detail = "view_join and relation fields are not stored on the base table";
      })
      else if all (comparable field.type) (wanted f)
      then none
      else some
          (record { field = f.field; detail = join "value is not a valid " (type_name field.type) })

  unfoldable pub validate_document_filters :
      List DocumentFilter → CollectionConfig → Option FilterValidationError
  unfolding canonicalize field_at
  validate_document_filters [] c = none
  validate_document_filters (f ∷ fs) c =
      let rest = validate_document_filters fs c in
      elim (check_field f (field_at c f.field)) [ none ↦ rest | some e ↦ some e ]

  -- A field that the prototype answers for has no type, as one that is missing.
  unfoldable pub matches_filter : Document → CollectionConfig → DocumentFilter → Bool
  unfolding canonicalize
  matches_filter row c f =
      let type = type_of (lookup f.field c.fields) in
      any
        (λ v.
          any (λ a. same (canonicalize platform type v) (canonicalize platform type a))
            (elements (get f.field row)))
        (wanted f)

  unfoldable pub matches_filters : Document → List DocumentFilter → CollectionConfig → Bool
  unfolding matches_filter
  matches_filters row filters c = all (matches_filter row c) filters

  unfoldable pub admits : Document → List DocumentFilter → List String → CollectionConfig → Bool
  unfolding matches_filters acl_admits
  admits row filters principals c =
      matches_filters row filters c
      && (not c.acl || column_admits (lookup acl_column row) principals)

  unfoldable pub admits_post_image : Document → List DocumentFilter → CollectionConfig → Bool
  unfolding matches_filters
  admits_post_image row filters c = matches_filters row filters c
