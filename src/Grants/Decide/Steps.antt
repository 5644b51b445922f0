-- ===== src/Grants/Decide/Steps.antt =====
-- The life of the table of grants: requests, approvals, denials and revocations, in any order.
use mathlib.Core.List.{Memᴰ}
use warehousd.Prelude.{
  ℕ, String, ◌≡◌, ◌≢◌, refl, sym, subst, ◌∙◌, Bool, true, false, not, ◌&&◌, ◌||◌, Option, none,
  some, List, [], ◌∷◌, ◌++◌, includes, find, map, any, or_default, if◌then◌else◌, either_way, ◌==◌,
  eq_iff, subset, arith, All-append, find-mem,
}
use warehousd.Config.{WarehousdConfig}
use warehousd.Value.{Platform}
use warehousd.Acl.Principals.{Membership}
use warehousd.Grants.Table.{Status, pending, approved, GrantRow, GrantTable}
use warehousd.Grants.Manage.{RequestInput, requested_row, request_grant, default_workspace_id}
use warehousd.Grants.Manage.Laws.{HasValidVerbs}
use warehousd.Config.Fields.{grantable_fields}
use warehousd.Acl.Principals.{user_principal}
use warehousd.Grants.Approval.{
  narrower_than_inherited, unknown_grant, ApproveOptions, ApproveError, Decision, decision_of,
  is_grant, check_decision,
}
use warehousd.Grants.Approval.Laws.{IsAllowed, check_decision-IsAllowed}
use warehousd.Grants.Decide.{
  clash, clashes, failed, approval, ApproveResult, approve_row, update_where, decidable,
  update_approved, on_checked, on_grant, approve_grant, close,
}
use warehousd.Grants.Decide.Governed.{
  IsWithin, Governed, id_of, HasUniqueIds, IsGoverned, same_id, All-update_where,
  map-id-update_where, HasUniqueIds-map,
}

update-IsGoverned :
    (cfg : WarehousdConfig) (p : GrantRow → Bool) (f : GrantRow → GrantRow) (table : GrantTable)
    → ((r : GrantRow) → (f r).id ≡ r.id)
    → ((r : GrantRow) → Memᴰ r table → p r ≡ true → Governed cfg (f r))
    → IsGoverned cfg table
    → IsGoverned cfg (update_where p f table)
update-IsGoverned cfg p f table same k g = record {
  rows = All-update_where (Governed cfg) p f table g.rows k;
  unique =
      HasUniqueIds-map (update_where p f table) table (map-id-update_where p f table same) g.unique;
}

-- The fields that the row keeps are those that were checked.
row_fields :
    (named stored : Option (List String))
    → or_default named (or_default stored [])
      ≡ or_default (elim named [ none ↦ stored | some fs ↦ some fs ]) []
row_fields none stored = refl
row_fields (some fs) stored = refl

approve_row-IsWithin :
    (cfg : WarehousdConfig) (platform : Platform) (grant : GrantRow) (named : Option (List String))
    (d : Decision)
    → d.allowed_fields ≡ or_default named (or_default grant.allowed_fields [])
    → IsAllowed cfg platform grant d
    → IsWithin cfg (approve_row named d grant)
approve_row-IsWithin cfg platform grant named d e a =
    let stored = e ∙ row_fields named grant.allowed_fields in
    record {
      four_eyes = λ on same. a.four_eyes on (cc);
      verbs_valid =
          subst (λ fs. HasValidVerbs cfg grant.collection d.verbs fs) stored a.verbs_valid;
      grantable =
          subst (λ fs. subset fs (grantable_fields cfg grant.collection) ≡ true) stored a.grantable;
      raw_within = subst (λ fs. subset d.unmasked_fields fs ≡ true) stored a.raw_within;
      raw_offered = a.raw_offered;
    }

is_grant-decidable :
    (id ws : String) (g r : GrantRow) (status : Status)
    → is_grant id ws g ≡ true
    → decidable g.id ws status r ≡ true
    → r.id ≡ g.id
is_grant-decidable id ws g r status e t = ground (arith, eq_iff r.id g.id)

update_approved-IsGoverned :
    (cfg : WarehousdConfig) (platform : Platform) (memberships : List Membership) (now : ℕ)
    (grant : GrantRow) (named : Option (List String)) (d : Decision) (table : GrantTable)
    → d.allowed_fields ≡ or_default named (or_default grant.allowed_fields [])
    → IsAllowed cfg platform grant d
    → Memᴰ grant table
    → IsGoverned cfg table
    → IsGoverned cfg (update_approved table memberships now grant named d).1
update_approved-IsGoverned cfg platform memberships now grant named d table e a m g =
    let target = decidable grant.id d.workspace_id pending in
    let within = approve_row-IsWithin cfg platform grant named d e a in
    let updated =
      update-IsGoverned cfg target (approve_row named d) table (λ r. refl)
        (λ r n t _.
          subst (λ x. IsWithin cfg (approve_row named d x))
            (same_id table grant r g.unique m n (ground (arith, eq_iff r.id grant.id))) within)
        g in
    let kept : ApproveResult × GrantTable → Type 0 = λ o. IsGoverned cfg o.1 in
    let warning =
      narrower_than_inherited table memberships now grant d.workspace_id
        (or_default grant.principal (user_principal grant.user_id)) d.allowed_fields in
    let done : ApproveResult × GrantTable =
      (approval warning, update_where target (approve_row named d) table) in
    let clashed = any (λ r. target r && clashes table r) table in
    either_way kept (not (any target table)) (failed unknown_grant, table)
      (if clashed then (clash, table) else done) g
      (either_way kept clashed (clash, table) done g updated)

on_checked-IsGoverned :
    (cfg : WarehousdConfig) (platform : Platform) (memberships : List Membership) (now : ℕ)
    (grant : GrantRow) (named : Option (List String)) (d : Decision) (table : GrantTable)
    (o : Option ApproveError)
    → d.allowed_fields ≡ or_default named (or_default grant.allowed_fields [])
    → check_decision cfg platform grant d ≡ o
    → Memᴰ grant table
    → IsGoverned cfg table
    → IsGoverned cfg (on_checked table memberships now grant named d o).1
on_checked-IsGoverned cfg platform memberships now grant named d table (some x) e h m g = g
on_checked-IsGoverned cfg platform memberships now grant named d table none e h m g =
    update_approved-IsGoverned cfg platform memberships now grant named d table e
      (check_decision-IsAllowed cfg platform grant d h) m g

-- An approval keeps the table within the configuration, whatever it is asked to store and
-- whichever way it ends.
pub approve_grant-IsGoverned :
    (cfg : WarehousdConfig) (platform : Platform) (memberships : List Membership) (now : ℕ)
    (id by : String) (opts : ApproveOptions) (table : GrantTable)
    → IsGoverned cfg table
    → IsGoverned cfg (approve_grant cfg platform memberships now id by opts table).1
unfolding approve_grant
approve_grant-IsGoverned cfg platform memberships now id by opts table g =
    let p = is_grant id (or_default opts.workspace_id default_workspace_id) in
    at_found p (find p table) refl
  where
    at_found :
        (p : GrantRow → Bool) (o : Option GrantRow)
        → find p table ≡ o
        → IsGoverned cfg (on_grant cfg platform table memberships now by opts o).1
    at_found p none e = g
    at_found p (some grant) e =
        let d = decision_of cfg now grant by opts in
        on_checked-IsGoverned cfg platform memberships now grant opts.allowed_fields d table
          (check_decision cfg platform grant d) refl refl (find-mem p table grant e).0 g

pub close-IsGoverned :
    (cfg : WarehousdConfig) (p : GrantRow → Bool) (status : Status) (by : String)
    (table : GrantTable)
    → status ≢ approved
    → IsGoverned cfg table
    → IsGoverned cfg (update_where p (close status by) table)
close-IsGoverned cfg p status by table other g =
    update-IsGoverned cfg p (close status by) table (λ r. refl) (λ r m t on. absurd (other on)) g

includes-map-snoc :
    (gs : GrantTable) (r : GrantRow) (k : String)
    → includes (map id_of (gs ++ r ∷ [])) k ≡ (includes (map id_of gs) k || r.id == k)
includes-map-snoc [] r k = ground arith
includes-map-snoc (g ∷ gs) r k = ground (arith, includes-map-snoc gs r k)

HasUniqueIds-snoc :
    (table : GrantTable) (r : GrantRow)
    → includes (map id_of table) r.id ≡ false
    → HasUniqueIds table
    → HasUniqueIds (table ++ r ∷ [])
HasUniqueIds-snoc [] r fresh u = (refl, tt)
HasUniqueIds-snoc (g ∷ gs) r fresh (here, u) = (
  ground (arith, includes-map-snoc gs r g.id, eq_iff r.id g.id, eq_iff g.id r.id),
  HasUniqueIds-snoc gs r (ground arith) u,
)

pub request_grant-IsGoverned :
    (cfg : WarehousdConfig) (id : String) (now : ℕ) (i : RequestInput) (table after : GrantTable)
    → includes (map id_of table) id ≡ false
    → request_grant id now i table ≡ some after
    → IsGoverned cfg table
    → IsGoverned cfg after
unfolding request_grant
request_grant-IsGoverned cfg id now i table after fresh e g =
    let row = requested_row id now i (or_default i.principal (user_principal i.user_id)) in
    let appended : after ≡ table ++ row ∷ [] = ground arith in
    subst (IsGoverned cfg) (sym appended) (record {
      rows = All-append (Governed cfg) table (row ∷ []) g.rows ((λ on. absurd (cc)), tt);
      unique = HasUniqueIds-snoc table row fresh g.unique;
    })
