-- ===== src/Verbs/Guard.antt =====
-- packages/broker/src/verbs/guard.ts: the ladder from a collection's name to the grant, the masks
-- and the access list under which a verb runs.
pub mod Laws
pub mod Refusals
mod Tests
use warehousd.Prelude.{
  ℕ, String, Bool, true, false, not, ◌&&◌, ◌||◌, Option, none, some, List, [], ◌∷◌, ◌++◌, includes,
  lookup, if◌then◌else◌, ◌==◌, is_some,
}
use warehousd.Context.{BrokerContext}
use warehousd.Config.{MaskConfig, FieldConfig, CollectionConfig, WarehousdConfig, find_collection}
use warehousd.Config.Fields.{masked_fields_for}
use warehousd.Value.{Platform}
use warehousd.Acl.Principals.{Membership}
use warehousd.Grants.Filters.{validate_document_filters}
use warehousd.Grants.Table.{GrantTable}
use warehousd.Grants.Eval.{ActiveGrant, Loaded, no_grant, granted, rebuild, load_active_grant}
use warehousd.Audit.{AuditGrant, AuditDetail, Trail, AuditWriter, AuditedRefusal, refuse}

-- `VerbDeps` as far as the guard reads it: the config, the tables and the clock.
pub record VerbDeps : Type 0 where
  pub cfg : WarehousdConfig
  pub platform : Platform
  pub grants : GrantTable
  pub memberships : List Membership
  pub now : ℕ

pub record MaskPlan : Type 0 where
  pub masked : List String
  pub mask_for : String → Option MaskConfig

pub record Granted : Type 0 where
  pub collection : CollectionConfig
  pub grant : ActiveGrant
  pub plan : MaskPlan
  pub acl_principals : Option (List String)

-- `fault` is the exception that a grant row of the old shape raises.
pub data Resolved : Type 0 where
  resolved : Granted → Resolved
  refusal : AuditedRefusal → Resolved
  fault : String → Resolved

pub record GuardOptions : Type 0 where
  pub collection_check : CollectionConfig → Option String
  pub fields : List String
  pub detail : AuditDetail
  pub check_filters : Bool

abbrev pub acl_opts : CollectionConfig → ActiveGrant → Option (List String)
acl_opts c grant = if c.acl then some grant.principals else none

abbrev pub mask_of : Option FieldConfig → Option MaskConfig
mask_of none = none
mask_of (some f) = f.mask

unfoldable pub mask_plan : WarehousdConfig → String → CollectionConfig → List String → MaskPlan
mask_plan cfg collection c unmasked =
    let masked = masked_fields_for cfg collection unmasked in
    record {
      masked = masked;
      mask_for = λ field. if includes masked field then mask_of (lookup field c.fields) else none;
    }

abbrev pub audit_grant : ActiveGrant → AuditGrant
audit_grant g = record { id = g.id; principals = g.principals; principal = g.principal }

abbrev pub with_grant : AuditDetail → ActiveGrant → AuditDetail
with_grant detail g = record detail { grant = some (audit_grant g) }

abbrev pub missing_verb : String → String
missing_verb verb = if verb == "read" then "no_grant" else "verb_denied"

abbrev pub verb_detail : String → AuditDetail → ActiveGrant → AuditDetail
verb_detail verb detail g = if verb == "read" then detail else with_grant detail g

-- The first requested field outside the grant, if there is one.
abbrev pub all_allowed : List String → List String → Bool
all_allowed allowed [] = true
all_allowed allowed (f ∷ fs) = includes allowed f && all_allowed allowed fs

module _ (d : VerbDeps) (w : AuditWriter) (ctx : BrokerContext) (collection : String)
    (verb : String) (opts : GuardOptions) where
  abbrev pub refused_with : String → AuditDetail → Trail → Resolved × Trail
  refused_with reason detail trail =
      let (r, trail') = refuse w (some collection) reason detail trail in (refusal r, trail')

  -- What is asked of a grant, in order: the verb, the fields, the document filters.
  unfoldable pub check_grant : CollectionConfig → ActiveGrant → Trail → Resolved × Trail
  check_grant c grant trail =
      if not (includes grant.verbs verb)
      then refused_with (missing_verb verb) (verb_detail verb opts.detail grant) trail
      else if not (all_allowed grant.allowed_fields opts.fields)
      then refused_with "field_denied" (with_grant opts.detail grant) trail
      else if opts.check_filters
          && is_some (validate_document_filters d.platform grant.document_filter c)
      then refused_with "invalid_intent" (with_grant opts.detail grant) trail
      else (
        resolved (record {
          collection = c;
          grant = grant;
          plan = mask_plan d.cfg collection c grant.unmasked_fields;
          acl_principals = acl_opts c grant;
        }),
        trail,
      )

  abbrev pub on_loaded : CollectionConfig → Loaded → Trail → Resolved × Trail
  on_loaded c no_grant trail = refused_with "no_grant" opts.detail trail
  on_loaded c (rebuild id) trail = (fault id, trail)
  on_loaded c (granted grant) trail = check_grant c grant trail

  -- The structural questions come before a grant is loaded.
  abbrev pub on_structure : CollectionConfig → Option String → Trail → Resolved × Trail
  on_structure c (some reason) trail = refused_with reason opts.detail trail
  on_structure c none trail =
      on_loaded c (load_active_grant d.grants d.memberships d.now ctx collection) trail

  abbrev pub on_collection : Option CollectionConfig → Trail → Resolved × Trail
  on_collection none trail = refused_with "unknown_collection" opts.detail trail
  on_collection (some c) trail = on_structure c (opts.collection_check c) trail

  unfoldable pub resolve_granted : Trail → Resolved × Trail
  unfolding check_grant
  resolve_granted trail = on_collection (find_collection d.cfg collection) trail
