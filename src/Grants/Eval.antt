-- ===== src/Grants/Eval.antt =====
-- packages/broker/src/grants/eval.ts: the one grant that a call runs under. `now` is the database's
-- clock, and rows that the ordering leaves equal keep the order of the table.
pub mod Order
pub mod Laws
pub mod Batch
mod Tests
use warehousd.Prelude.{
  ℕ, ◌<◌, String, Bool, true, false, not, ◌&&◌, ◌||◌, Option, none, some, List, [], ◌∷◌, ltb, leb,
  filter, map, includes, is_some, is_empty, or_default, if◌then◌else◌, ◌==◌, strip_prefix,
}
use warehousd.Context.{Env, env_eq, BrokerContext}
use warehousd.Value.{Scalar, Value, one, many, FilterOp, eq, in_list, DocumentFilter}
use warehousd.Acl.Principals.{Membership, user_prefix, user_principal, load_principals}
use warehousd.Grants.Table.{
  Status, approved, status_eq, FilterColumn, absent, legacy, filters, GrantRow, GrantTable,
}

pub record ActiveGrant : Type 0 where
  pub id : String
  pub allowed_fields : List String
  pub unmasked_fields : List String
  pub document_filter : List DocumentFilter
  pub verbs : List String
  pub mode : String
  pub principals : List String
  pub expires_at : Option ℕ
  pub principal : String

-- A grant, none, or the error that is thrown for a row of the old shape.
pub data Loaded : Type 0 where
  no_grant : Loaded
  granted : ActiveGrant → Loaded
  rebuild : String → Loaded

-- `expires_at is null or expires_at > now()`
abbrev pub unexpired : ℕ → Option ℕ → Bool
unexpired now none = true
unexpired now (some t) = ltb now t

-- `principal = any($1)`
abbrev pub held_by : List String → Option String → Bool
held_by principals none = false
held_by principals (some p) = includes principals p

-- The `where` of both loaders, for one collection.
abbrev pub applies : List String → BrokerContext → ℕ → String → GrantRow → Bool
applies principals ctx now collection g =
    held_by principals g.principal
    && g.collection == collection
    && env_eq g.env ctx.env
    && g.workspace_id == ctx.workspace_id
    && status_eq g.status approved
    && unexpired now g.expires_at

-- `principal like 'user:%'`
abbrev pub is_personal : GrantRow → Bool
is_personal g = elim g.principal [ none ↦ false | some p ↦ is_some (strip_prefix user_prefix p) ]

-- SPECIFICITY: whether the first row stands strictly before the second.
abbrev pub precedes : GrantRow → GrantRow → Bool
precedes g h =
    if is_personal g
    then not (is_personal h) || ltb h.requested_at g.requested_at
    else not (is_personal h) && ltb h.requested_at g.requested_at

-- `order by … limit 1`
abbrev pub better : GrantRow → Option GrantRow → GrantRow
better g none = g
better g (some h) = if precedes h g then h else g

unfoldable pub first_of_order : List GrantRow → Option GrantRow
first_of_order [] = none
first_of_order (g ∷ gs) = some (better g (first_of_order gs))

-- The caller's ceiling: `null` is no ceiling.
abbrev pub under_ceiling : BrokerContext → String → Bool
under_ceiling ctx collection = elim ctx.allowed_collections [
  | none ↦ true
  | some cs ↦ includes cs collection
]

abbrev pub self : String
self = "$self"

abbrev pub bind_scalar : String → Scalar → Scalar
bind_scalar user_id (Scalar.str s) = if s == self then Scalar.str user_id else Scalar.str s
bind_scalar user_id s = s

abbrev pub bind_value : String → FilterOp → Value → Value
bind_value user_id op (one s) = one (bind_scalar user_id s)
bind_value user_id in_list (many ss) = many (map (bind_scalar user_id) ss)
bind_value user_id eq (many ss) = many ss

-- `$self` becomes the caller, as a value and as an element of an `in` list.
unfoldable pub bind_filter : String → DocumentFilter → DocumentFilter
bind_filter user_id f = record f { value = bind_value user_id f.op f.value }

abbrev pub grant_of : GrantRow → List DocumentFilter → String → List String → ActiveGrant
grant_of row document_filter user_id principals = record {
  id = row.id;
  allowed_fields = or_default row.allowed_fields [];
  unmasked_fields = or_default row.unmasked_fields [];
  document_filter = document_filter;
  verbs = or_default row.verbs ("read" ∷ []);
  mode = or_default row.mode "direct";
  principals = principals;
  expires_at = row.expires_at;
  principal = or_default row.principal (user_principal user_id);
}

abbrev pub with_filters : GrantRow → FilterColumn → String → List String → Loaded
with_filters row absent user_id principals = granted (grant_of row [] user_id principals)
with_filters row (filters fs) user_id principals =
    granted (grant_of row (map (bind_filter user_id) fs) user_id principals)
with_filters row legacy user_id principals = rebuild row.id

unfoldable pub to_active_grant : GrantRow → String → List String → Loaded
unfolding bind_filter user_principal
to_active_grant row user_id principals = with_filters row row.document_filter user_id principals

abbrev pub loaded : Option GrantRow → String → List String → Loaded
loaded none user_id principals = no_grant
loaded (some row) user_id principals = to_active_grant row user_id principals

unfoldable pub load_active_grant :
    GrantTable → List Membership → ℕ → BrokerContext → String → Loaded
unfolding first_of_order to_active_grant load_principals
load_active_grant grants memberships now ctx collection =
    if not (under_ceiling ctx collection)
    then no_grant
    else (let principals = load_principals memberships ctx in
        loaded (first_of_order (filter (applies principals ctx now collection) grants)) ctx.user_id
          principals)
