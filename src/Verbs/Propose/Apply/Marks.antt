-- ===== src/Verbs/Propose/Apply/Marks.antt =====
-- What setting the mark of the current revision and the status of a revision changes.
use warehousd.Prelude.{
  String, ◌≡◌, refl, sym, ap, ◌∙◌, subst, ◌⊎◌, inl, inr, Bool, true, false, not, ◌&&◌, ◌||◌, [],
  ◌∷◌, ◌++◌, map, any, if◌then◌else◌, ◌==◌, arith, eq_iff, Bool-cases,
}
use warehousd.Value.{Value, get}
use warehousd.Revisions.{
  RevisionStatus, pending, RevisionRow, RevisionTable, is_current_of, clear_current,
}
use warehousd.Revisions.Current.{rival, HasOneCurrent}
use warehousd.Verbs.Propose.Dataset.{is_pending}
use warehousd.Verbs.Propose.Apply.{set_status}

-- A revision without the two marks that a decision may change.
abbrev pub erased : RevisionRow → RevisionRow
erased r = record r { current = false; status = pending }

-- The pending proposal with that id.
abbrev pub is_open : String → RevisionRow → Bool
is_open rev r = r.rev == rev && is_pending r.status

-- Every revision of `before` stands in `after`, in order and in every column but the two marks, and
-- of the pending proposals exactly the one that was decided is pending no more.
pub record Settles (rev : String) (before after : RevisionTable) : Type 0 where
  pub appended : RevisionTable
  pub history : map erased after ≡ map erased before ++ appended
  pub closed : (r : String) → any (is_open r) after ≡ (any (is_open r) before && not (r == rev))

pub erased-mark :
    (rev : String) (status : RevisionStatus) (rows : RevisionTable)
    → map erased (map (set_status rev status) rows) ≡ map erased rows
erased-mark rev status [] = refl
erased-mark rev status (r ∷ rows) = ground (arith, erased-mark rev status rows)

pub erased-demote :
    (rev : String) (rows : RevisionTable)
    → map erased (map (clear_current rev) rows) ≡ map erased rows
erased-demote rev [] = refl
erased-demote rev (r ∷ rows) = ground (arith, erased-demote rev rows)

pub erased-snoc :
    (rows : RevisionTable) (r : RevisionRow)
    → map erased (rows ++ r ∷ []) ≡ map erased rows ++ erased r ∷ []
erased-snoc [] r = refl
erased-snoc (x ∷ rows) r = ap (λ rest. erased x ∷ rest) (erased-snoc rows r)

pub open-demote :
    (rev r : String) (rows : RevisionTable)
    → any (is_open r) (map (clear_current rev) rows) ≡ any (is_open r) rows
open-demote rev r [] = refl
open-demote rev r (x ∷ rows) = ground (arith, open-demote rev r rows)

pub open-snoc :
    (r : String) (rows : RevisionTable) (x : RevisionRow)
    → is_pending x.status ≡ false
    → any (is_open r) (rows ++ x ∷ []) ≡ any (is_open r) rows
open-snoc r [] x h = ground arith
open-snoc r (y ∷ rows) x h = ground (arith, open-snoc r rows x h)

open-set_status :
    (rev r : String) (status : RevisionStatus) (x : RevisionRow)
    → is_pending status ≡ false
    → is_open r (set_status rev status x) ≡ (is_open r x && not (r == rev))
open-set_status rev r status x h = elim (Bool-cases (x.rev == rev)) [
  | inl e ↦
      let same : x.rev ≡ rev = ground (arith, eq_iff x.rev rev) in
      rw (e, if◌then◌else◌, h) (at_key (ap (λ k. k == r) same))
  | inr e ↦ rw (e, if◌then◌else◌) (elsewhere (Bool-cases (r == rev)) e)
]
  where
    at_key :
        (x.rev == r) ≡ (rev == r)
        → (x.rev == r && false) ≡ ((x.rev == r && is_pending x.status) && not (r == rev))
    at_key k = ground (arith, eq_iff rev r, eq_iff r rev)

    elsewhere :
        ((r == rev) ≡ true) ⊎ ((r == rev) ≡ false)
        → (x.rev == rev) ≡ false
        → is_open r x ≡ (is_open r x && not (r == rev))
    elsewhere (inr n) e = ground arith
    elsewhere (inl y) e =
        let same : r ≡ rev = ground (arith, eq_iff r rev) in
        let off : (x.rev == r) ≡ false = subst (λ k. (x.rev == k) ≡ false) (sym same) e in
        ground arith

share : (a b n : Bool) → ((a && n) || (b && n)) ≡ ((a || b) && n)
share a b n = ground arith

pub open-mark :
    (rev r : String) (status : RevisionStatus) (rows : RevisionTable)
    → is_pending status ≡ false
    → any (is_open r) (map (set_status rev status) rows) ≡ (any (is_open r) rows && not (r == rev))
open-mark rev r status [] h = refl
open-mark rev r status (x ∷ rows) h =
    ap (λ a. a || any (is_open r) (map (set_status rev status) rows))
      (open-set_status rev r status x h)
    ∙ ap (λ a. (is_open r x && not (r == rev)) || a) (open-mark rev r status rows h)
    ∙ share (is_open r x) (any (is_open r) rows) (not (r == rev))

module _ (same_key : Value → Value → Bool) (pk : String) where
  any-mark :
      (ws : String) (id : Value) (rev : String) (status : RevisionStatus) (rows : RevisionTable)
      → any (is_current_of same_key pk ws id) (map (set_status rev status) rows)
        ≡ any (is_current_of same_key pk ws id) rows
  any-mark ws id rev status [] = refl
  any-mark ws id rev status (r ∷ rows) = ground (arith, any-mark ws id rev status rows)

  pub HasOneCurrent-mark :
      (rev : String) (status : RevisionStatus) (rows : RevisionTable)
      → HasOneCurrent same_key pk rows
      → HasOneCurrent same_key pk (map (set_status rev status) rows)
  HasOneCurrent-mark rev status [] h = tt
  HasOneCurrent-mark rev status (r ∷ rows) (one, h) =
      (at_mark (r.rev == rev), HasOneCurrent-mark rev status rows h)
    where
      at_mark :
          (b : Bool)
          → (if b then record r { status = status } else r).current ≡ true
          → any
              (rival same_key pk (if b then record r { status = status } else r))
              (map (set_status rev status) rows)
            ≡ false
      at_mark true e = any-mark r.workspace_id (get pk r.columns) rev status rows ∙ one e
      at_mark false e = any-mark r.workspace_id (get pk r.columns) rev status rows ∙ one e
