-- ===== src/Revisions/View.antt =====
-- The abstract view of the revision store: a map from keys to documents, which is what a read shows.
-- It forgets the history, the order of the rows and the bookkeeping columns.
use warehousd.Prelude.{
  String, ◌≡◌, refl, sym, subst, ap, ◌∙◌, inl, inr, Bool, true, false, Option, none, some, [], ◌∷◌,
  ◌++◌, map, find, lookup, includes, IsDistinct, if◌then◌else◌, ◌==◌, eq_iff, eq_refl, arith,
  Bool-cases, by_test,
}
use warehousd.Config.{CollectionConfig}
use warehousd.Config.Fields.{data_cols_of}
use warehousd.Value.{Value, Document, get}
use warehousd.Revisions.{
  RevisionOp, delete, RevisionRow, RevisionTable, is_current_of, insert_revision, current_revision,
  or_null, clear_current, demote_revision, Revision, revise_document,
}
use warehousd.Revisions.Laws.{appended}
use warehousd.Revisions.Current.{
  IsKeyEquality, HasOneCurrent, find_holds, appended-key, revise_document-current,
}

-- A map of documents, as the caller of one workspace sees it.
abbrev pub Documents : Type 0
Documents = Value → Option Document

-- A tombstone shows no document.
abbrev pub shown_as : RevisionOp → Document → Option Document
shown_as delete d = none
shown_as _ d = some d

abbrev pub shown : Option RevisionRow → Option Document
shown none = none
shown (some r) = shown_as r.op r.columns

module _ (same_key : Value → Value → Bool) where
  -- `documents[id] = d`, up to the database's equality on keys.
  abbrev pub with_document : Value → Option Document → Documents → Documents
  with_document id d documents k = if same_key id k then d else documents k

  module _ (pk ws : String) where
    unfoldable pub view : RevisionTable → Documents
    unfolding current_revision
    view rows k = shown (current_revision same_key pk ws k rows)

    find_ext :
        (p q : RevisionRow → Bool) (rows : RevisionTable)
        → ((x : RevisionRow) → p x ≡ q x)
        → find p rows ≡ find q rows
    find_ext p q [] h = refl
    find_ext p q (x ∷ rows) h = ground (arith, find_ext p q rows h, h x)

    find-snoc_none :
        (p : RevisionRow → Bool) (rows : RevisionTable) (r : RevisionRow)
        → p r ≡ false
        → find p (rows ++ r ∷ []) ≡ find p rows
    find-snoc_none p [] r h = ground arith
    find-snoc_none p (x ∷ rows) r h = ground (arith, find-snoc_none p rows r h)

    abbrev rev_of : RevisionRow → String
    rev_of r = r.rev

    find-demote_absent :
        (p : RevisionRow → Bool) (rev : String) (rows : RevisionTable)
        → includes (map rev_of rows) rev ≡ false
        → find p (map (clear_current rev) rows) ≡ find p rows
    find-demote_absent p rev [] h = refl
    find-demote_absent p rev (x ∷ rows) h =
        ground (arith, find-demote_absent p rev rows (ground arith))

    includes-found :
        (p : RevisionRow → Bool) (rows : RevisionTable) (r : RevisionRow)
        → find p rows ≡ some r
        → includes (map rev_of rows) r.rev ≡ true
    includes-found p [] r h = absurd (cc)
    includes-found p (x ∷ rows) r h = elim (Bool-cases (p x)) [
      | inl e ↦
          let same : x ≡ r = ground arith in
          let rev : x.rev ≡ r.rev = ap rev_of same in ground (arith, eq_iff x.rev r.rev)
      | inr e ↦ ground (arith, includes-found p rows r (ground arith))
    ]

    -- Demoting the revision that `q` finds is not noticed by a test that it does not pass.
    find-demote_other :
        (p q : RevisionRow → Bool) (rows : RevisionTable) (r : RevisionRow)
        → IsDistinct (map rev_of rows)
        → find q rows ≡ some r
        → p r ≡ false
        → p (record r { current = false }) ≡ false
        → find p (map (clear_current r.rev) rows) ≡ find p rows
    find-demote_other p q [] r d h f f' = refl
    find-demote_other p q (x ∷ rows) r (fresh, d) h f f' = elim (Bool-cases (q x)) [
      | inl e ↦
          let same : x ≡ r = ground arith in
          let rev : x.rev ≡ r.rev = ap rev_of same in
          let absent : includes (map rev_of rows) r.rev ≡ false =
            subst (λ v. includes (map rev_of rows) v ≡ false) rev fresh in
          let left = ap p same ∙ f in
          let cleared : p (clear_current r.rev x) ≡ false =
            ap (λ (y : RevisionRow). p (clear_current r.rev y)) same
            ∙ rw (eq_refl r.rev, if◌then◌else◌) f' in
          ground (arith, find-demote_absent p r.rev rows absent, left, cleared)
      | inr e ↦
          let found : find q rows ≡ some r = ground arith in
          let other : (x.rev == r.rev) ≡ false =
            ground (arith, includes-found q rows r found, eq_iff x.rev r.rev) in
          let kept : clear_current r.rev x ≡ x = rw (other, if◌then◌else◌) refl in
          ground (arith, find-demote_other p q rows r d found f f', ap p kept)
    ]

    module _ (equality : IsKeyEquality same_key) where
      same_document :
          (id k : Value) (x : RevisionRow)
          → same_key id k ≡ true
          → is_current_of same_key pk ws k x ≡ is_current_of same_key pk ws id x
      same_document id k x h = ground (
        arith,
        equality.transitive (get pk x.columns) id k,
        equality.transitive (get pk x.columns) k id,
        equality.symmetric id k,
      )

      other_document :
          (id k v : Value) → same_key id k ≡ false → same_key v id ≡ true → same_key v k ≡ false
      other_document id k v h e = elim (Bool-cases (same_key v k)) [
        | inr n ↦ n
        | inl y ↦ absurd (ground (arith, equality.symmetric v id, equality.transitive id v k))
      ]

      -- A revision is an assignment to the map. Where revision ids are unique, each document has one
      -- current revision at most, and the document's current revision was read in the workspace and
      -- keeps its key, a revision that goes through shows its row under the document's key, or
      -- nothing where it is a delete, and every other document as before.
      pub revise_document-view :
          (c : CollectionConfig) (rev : String) (id : Value) (r : RevisionRow) (changed : Document)
          (meta : Revision) (rows after : RevisionTable) (k : Value)
          → IsDistinct (map (λ (x : RevisionRow). x.rev) rows)
          → HasOneCurrent same_key pk rows
          → current_revision same_key pk ws id rows ≡ some r
          → meta.workspace_id ≡ ws
          → includes (data_cols_of c) pk ≡ true
          → lookup pk changed ≡ none
          → or_null (get pk r.columns) ≡ get pk r.columns
          → revise_document same_key pk c rev r changed meta rows ≡ some after
          → view after k
            ≡ with_document id
                (shown_as meta.op (appended c rev r changed meta).columns)
                (view rows)
                k
      unfolding view current_revision revise_document insert_revision demote_revision
      revise_document-view c rev id r changed meta rows after k d one e place stored unstated set
            h =
          by_test (λ x. view after k ≡ x) (same_key id k) _ _ here elsewhere
        where
          p : RevisionRow → Bool
          p = is_current_of same_key pk ws k

          new : RevisionRow
          new = appended c rev r changed meta

          here : same_key id k ≡ true → view after k ≡ shown_as meta.op new.columns
          here t =
              let at_k : current_revision same_key pk ws k rows ≡ some r =
                find_ext p (is_current_of same_key pk ws id) rows (λ x. same_document id k x t)
                ∙ e in
              let (after', went, _, now) =
                revise_document-current same_key pk equality c rev ws k r changed meta rows one at_k
                  place stored unstated set in
              let same : after' ≡ after = ground arith in
              ap (λ (t : RevisionTable). shown (current_revision same_key pk ws k t)) (sym same)
              ∙ ap shown now

          elsewhere : same_key id k ≡ false → view after k ≡ view rows k
          elsewhere t =
              let found =
                find_holds same_key pk equality (is_current_of same_key pk ws id) rows r e in
              let keyed : same_key (get pk r.columns) id ≡ true = ground arith in
              let off : same_key (get pk r.columns) k ≡ false =
                other_document id k (get pk r.columns) t keyed in
              let new_off : same_key (get pk new.columns) k ≡ false =
                ap (λ v. same_key v k)
                  (appended-key same_key pk c rev r changed meta stored unstated set)
                ∙ off in
              let made : after ≡ map (clear_current r.rev) rows ++ new ∷ [] = ground arith in
              ap (λ (t : RevisionTable). shown (find p t)) made
              ∙ ap shown (find-snoc_none p (map (clear_current r.rev) rows) new (ground arith))
              ∙ ap shown (
                  find-demote_other p (is_current_of same_key pk ws id) rows r d e (ground arith)
                    (ground arith))
