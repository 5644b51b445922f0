-- ===== src/Grants/Decide/Permanence.antt =====
-- What calls do to a row that stands in the table: it is never removed, and its status moves from
-- pending to approved or denied, and from approved to revoked.
use mathlib.Core.List.{Memᴰ}
use warehousd.Prelude.{
  ℕ, String, ◌≡◌, refl, sym, subst, ap, ◌⊎◌, inl, inr, Bool, true, false, not, ◌&&◌, Option, none,
  some, List, [], ◌∷◌, ◌++◌, find, any, or_default, if◌then◌else◌, either_way, arith,
}
use warehousd.Config.{WarehousdConfig}
use warehousd.Value.{Platform}
use warehousd.Acl.Principals.{Membership, user_principal}
use warehousd.Grants.Table.{
  Status, pending, approved, denied, revoked, status_eq, GrantRow, GrantTable,
}
use warehousd.Grants.Manage.{RequestInput, requested_row, request_grant, default_workspace_id}
use warehousd.Grants.Approval.{
  ApproveOptions, is_grant, ApproveError, Decision, decision_of, check_decision,
  narrower_than_inherited, unknown_grant,
}
use warehousd.Grants.Decide.{
  ApproveResult, approve_row, update_where, decidable, approve_grant, close, deny_grant,
  revoke_grant, update_approved, on_checked, on_grant, failed, clash, clashes, approval,
}
use warehousd.Grants.Decide.Lifecycle.{Step}

-- What one call can do to one row.
pub data Move : GrantRow → GrantRow → Type 0 where
  stay : (g : GrantRow) → Move g g
  approve :
      (g : GrantRow) (named : Option (List String)) (d : Decision)
      → g.status ≡ pending
      → Move g (approve_row named d g)
  deny : (g : GrantRow) (by : String) → g.status ≡ pending → Move g (close denied by g)
  revoke : (g : GrantRow) (by : String) → g.status ≡ approved → Move g (close revoked by g)

-- Every row of the first table has moved to a row of the second.
abbrev pub Moved : GrantTable → GrantTable → Type 0
Moved before after = (r : GrantRow) → Memᴰ r before → (s : GrantRow) × Memᴰ s after × Move r s

Moved-refl : (table : GrantTable) → Moved table table
Moved-refl table r m = (r, m, Move.stay r)

mem-update_where :
    (p : GrantRow → Bool) (f : GrantRow → GrantRow) (gs : GrantTable) (r : GrantRow)
    → Memᴰ r gs
    → Memᴰ (if p r then f r else r) (update_where p f gs)
mem-update_where p f [] r m = elim m [ ]
mem-update_where p f (g ∷ gs) r (Memᴰ.head e) = Memᴰ.head (ap (λ x. if p x then f x else x) e)
mem-update_where p f (g ∷ gs) r (Memᴰ.tail m) = Memᴰ.tail (mem-update_where p f gs r m)

update-Moved :
    (p : GrantRow → Bool) (f : GrantRow → GrantRow) (table : GrantTable)
    → ((r : GrantRow) → p r ≡ true → Move r (f r))
    → Moved table (update_where p f table)
update-Moved p f table k r m =
    (if p r then f r else r, mem-update_where p f table r m, at_test (p r) refl)
  where
    at_test : (b : Bool) → p r ≡ b → Move r (if b then f r else r)
    at_test true e = k r e
    at_test false e = Move.stay r

status_sound : (s t : Status) → status_eq s t ≡ true → s ≡ t
status_sound pending pending e = refl
status_sound approved approved e = refl
status_sound denied denied e = refl
status_sound revoked revoked e = refl
status_sound pending approved e = absurd (cc)
status_sound pending denied e = absurd (cc)
status_sound pending revoked e = absurd (cc)
status_sound approved pending e = absurd (cc)
status_sound approved denied e = absurd (cc)
status_sound approved revoked e = absurd (cc)
status_sound denied pending e = absurd (cc)
status_sound denied approved e = absurd (cc)
status_sound denied revoked e = absurd (cc)
status_sound revoked pending e = absurd (cc)
status_sound revoked approved e = absurd (cc)
status_sound revoked denied e = absurd (cc)

decidable-status :
    (id ws : String) (status : Status) (r : GrantRow)
    → decidable id ws status r ≡ true
    → r.status ≡ status
decidable-status id ws status r e = status_sound r.status status (ground arith)

mem-append : (gs hs : GrantTable) (r : GrantRow) → Memᴰ r gs → Memᴰ r (gs ++ hs)
mem-append [] hs r m = elim m [ ]
mem-append (g ∷ gs) hs r (Memᴰ.head e) = Memᴰ.head e
mem-append (g ∷ gs) hs r (Memᴰ.tail m) = Memᴰ.tail (mem-append gs hs r m)

request-Moved :
    (id : String) (now : ℕ) (i : RequestInput) (table after : GrantTable)
    → request_grant id now i table ≡ some after
    → Moved table after
unfolding request_grant
request-Moved id now i table after e r m =
    let row = requested_row id now i (or_default i.principal (user_principal i.user_id)) in
    let appended : after ≡ table ++ row ∷ [] = ground arith in
    (r, subst (Memᴰ r) (sym appended) (mem-append table (row ∷ []) r m), Move.stay r)

update_approved-Moved :
    (table : GrantTable) (memberships : List Membership) (now : ℕ) (grant : GrantRow)
    (named : Option (List String)) (d : Decision)
    → Moved table (update_approved table memberships now grant named d).1
update_approved-Moved table memberships now grant named d =
    let target = decidable grant.id d.workspace_id pending in
    let kept : ApproveResult × GrantTable → Type 0 = λ o. Moved table o.1 in
    let warning =
      narrower_than_inherited table memberships now grant d.workspace_id
        (or_default grant.principal (user_principal grant.user_id)) d.allowed_fields in
    let done : ApproveResult × GrantTable =
      (approval warning, update_where target (approve_row named d) table) in
    let clashed = any (λ r. target r && clashes table r) table in
    either_way kept (not (any target table)) (failed unknown_grant, table)
      (if clashed then (clash, table) else done) (Moved-refl table)
      (either_way kept clashed (clash, table) done (Moved-refl table)
        (update-Moved target (approve_row named d) table
          (λ r t. Move.approve r named d (decidable-status grant.id d.workspace_id pending r t))))

approve-Moved :
    (cfg : WarehousdConfig) (platform : Platform) (memberships : List Membership) (now : ℕ)
    (id by : String) (opts : ApproveOptions) (table : GrantTable)
    → Moved table (approve_grant cfg platform memberships now id by opts table).1
unfolding approve_grant
approve-Moved cfg platform memberships now id by opts table =
    at_found (find (is_grant id (or_default opts.workspace_id default_workspace_id)) table)
  where
    at_checked :
        (g : GrantRow) (d : Decision) (o : Option ApproveError)
        → Moved table (on_checked table memberships now g opts.allowed_fields d o).1
    at_checked g d none = update_approved-Moved table memberships now g opts.allowed_fields d
    at_checked g d (some e) = Moved-refl table

    at_found :
        (o : Option GrantRow)
        → Moved table (on_grant cfg platform table memberships now by opts o).1
    at_found none = Moved-refl table
    at_found (some g) =
        let d = decision_of cfg now g by opts in at_checked g d (check_decision cfg platform g d)

Step-Moved :
    (cfg : WarehousdConfig) (before after : GrantTable) → Step cfg before after → Moved before after
unfolding deny_grant revoke_grant
Step-Moved cfg before after (Step.requested id now i _ _ fresh e) =
    request-Moved id now i before after e
Step-Moved cfg before _ (Step.decided platform memberships now id by opts _) =
    approve-Moved cfg platform memberships now id by opts before
Step-Moved cfg before _ (Step.refused id by ws _) =
    update-Moved (decidable id ws pending) (close denied by) before
      (λ r t. Move.deny r by (decidable-status id ws pending r t))
Step-Moved cfg before _ (Step.withdrawn id by ws _) =
    update-Moved (decidable id ws approved) (close revoked by) before
      (λ r t. Move.revoke r by (decidable-status id ws approved r t))

-- The tables that calls can leave from a table on.
pub data Later (cfg : WarehousdConfig) (before : GrantTable) : GrantTable → Type 0 where
  here : Later cfg before before
  after :
      (table last : GrantTable)
      → Later cfg before table
      → Step cfg table last
      → Later cfg before last

abbrev pub IsClosed : GrantRow → Type 0
IsClosed r = (r.status ≡ denied) ⊎ (r.status ≡ revoked)

Move-closed : (r s : GrantRow) → Move r s → IsClosed r → s ≡ r
Move-closed r _ (Move.stay _) c = refl
Move-closed r _ (Move.approve _ named d e) c = absurd (elim c [ inl h ↦ cc | inr h ↦ cc ])
Move-closed r _ (Move.deny _ by e) c = absurd (elim c [ inl h ↦ cc | inr h ↦ cc ])
Move-closed r _ (Move.revoke _ by e) c = absurd (elim c [ inl h ↦ cc | inr h ↦ cc ])

-- A grant that was denied or revoked stands unchanged, in all its columns, in every table that
-- later requests, approvals, denials and revocations leave.
pub closed_is_final :
    (cfg : WarehousdConfig) (before last : GrantTable) (r : GrantRow)
    → Later cfg before last
    → Memᴰ r before
    → IsClosed r
    → Memᴰ r last
closed_is_final cfg before _ r Later.here m c = m
closed_is_final cfg before _ r (Later.after table last l s) m c =
    let (x, n, v) = Step-Moved cfg table last s r (closed_is_final cfg before table r l m c) in
    subst (λ y. Memᴰ y last) (Move-closed r x v c) n

Move-approved :
    (r s : GrantRow)
    → Move r s
    → r.status ≡ approved
    → (s ≡ r) ⊎ ((by : String) × (s ≡ close revoked by r))
Move-approved r _ (Move.stay _) c = inl refl
Move-approved r _ (Move.approve _ named d e) c = absurd (cc)
Move-approved r _ (Move.deny _ by e) c = absurd (cc)
Move-approved r _ (Move.revoke _ by e) c = inr (by, refl)

-- A grant that was approved stands, in every table that later calls leave, either unchanged or
-- with its status set to revoked and its decider to the one who revoked it: no later call widens
-- it, extends it or returns it to pending.
pub approved_is_only_revoked :
    (cfg : WarehousdConfig) (before last : GrantTable) (r : GrantRow)
    → Later cfg before last
    → Memᴰ r before
    → r.status ≡ approved
    → Memᴰ r last ⊎ ((by : String) × Memᴰ (close revoked by r) last)
approved_is_only_revoked cfg before _ r Later.here m c = inl m
approved_is_only_revoked cfg before _ r (Later.after table last l s) m c =
    elim (approved_is_only_revoked cfg before table r l m c) [
      | inl k ↦
          let (x, n, v) = Step-Moved cfg table last s r k in
          elim (Move-approved r x v c) [
            | inl e ↦ inl (subst (λ y. Memᴰ y last) e n)
            | inr (by, e) ↦ inr (by, subst (λ y. Memᴰ y last) e n)
          ]
      | inr (by, k) ↦
          let (x, n, v) = Step-Moved cfg table last s (close revoked by r) k in
          inr (by, subst (λ y. Memᴰ y last) (Move-closed (close revoked by r) x v (inr refl)) n)
    ]
