-- ===== src/Verbs/Propose/Apply/Tables.antt =====
-- What a decision leaves of the table of its collection: the history, and every other pending
-- proposal.
use warehousd.Prelude.{
  ℕ, String, ◌≡◌, refl, sym, ap, ◌∙◌, subst, inl, inr, false, not, ◌&&◌, Option, none, some, [],
  ◌∷◌, ◌++◌, map, any, append-nil, ◌==◌, arith, Bool-cases,
}
use warehousd.Context.{BrokerContext}
use warehousd.Config.{CollectionConfig}
use warehousd.Value.{Document}
use warehousd.Grants.Eval.{ActiveGrant}
use warehousd.Revisions.{
  rejected, superseded, RevisionRow, RevisionTable, violates_index, bound_columns, insert_revision,
  demote_revision,
}
use warehousd.Revisions.Current.{
  IsKeyEquality, HasOneCurrent, HasOneCurrent-demote, HasOneCurrent-snoc,
}
use warehousd.Verbs.Mutate.Intent.{WriteDeps}
use warehousd.Verbs.Propose.Apply.{
  Applied, done, stopped, lost_race, fault, mark_status, demote_base, merged_revision,
  commit_revision, apply_approval, apply_rejection,
}
use warehousd.Verbs.Propose.Apply.Laws.{Approves, apply_approval_lem}
use warehousd.Verbs.Propose.Apply.Marks.{
  erased, is_open, Settles, erased-mark, erased-demote, erased-snoc, open-demote, open-snoc,
  open-mark, HasOneCurrent-mark,
}

-- A statement about the table that a decision leaves when it goes through.
abbrev pub Leaves : (RevisionTable → Type 0) → Applied → Type 0
Leaves Q (done id rev after entry) = Q after
Leaves Q (stopped why) = Unit
Leaves Q lost_race = Unit
Leaves Q fault = Unit

module _ (e : WriteDeps) (ctx : BrokerContext) (name : String) (c : CollectionConfig)
    (grant : ActiveGrant) (pk : String) (proposal : RevisionRow) where
  abbrev pub merged_row : Document → ℕ → RevisionRow
  merged_row merged seq =
      let row = merged_revision e ctx name c grant pk proposal merged seq in
      record row { columns = bound_columns c row.columns }

  -- What committing has done, step by step: demote, insert under the unique index, retire.
  pub commit_revision-steps :
      (current : Option RevisionRow) (merged : Document) (seq : ℕ) (rows after : RevisionTable)
      → commit_revision e ctx name c grant pk proposal current merged seq rows ≡ some after
      → let demoted = demote_base e ctx name c grant pk proposal current rows in
        (violates_index e.same_key pk (merged_row merged seq) demoted ≡ false)
        × (mark_status proposal.rev superseded (demoted ++ merged_row merged seq ∷ []) ≡ after)
  unfolding commit_revision insert_revision
  commit_revision-steps current merged seq rows after h =
      elim (Bool-cases (
        violates_index e.same_key pk (merged_row merged seq)
          (demote_base e ctx name c grant pk proposal current rows))) [
            | inl v ↦ absurd (ground arith)
            | inr v ↦ (v, ground arith)
          ]

  erased-demote_base :
      (current : Option RevisionRow) (rows : RevisionTable)
      → map erased (demote_base e ctx name c grant pk proposal current rows) ≡ map erased rows
  unfolding demote_revision
  erased-demote_base none rows = refl
  erased-demote_base (some r) rows = erased-demote r.rev rows

  open-demote_base :
      (current : Option RevisionRow) (r : String) (rows : RevisionTable)
      → any (is_open r) (demote_base e ctx name c grant pk proposal current rows)
        ≡ any (is_open r) rows
  unfolding demote_revision
  open-demote_base none r rows = refl
  open-demote_base (some x) r rows = open-demote x.rev r rows

  HasOneCurrent-demote_base :
      (current : Option RevisionRow) (rows : RevisionTable)
      → HasOneCurrent e.same_key pk rows
      → HasOneCurrent e.same_key pk (demote_base e ctx name c grant pk proposal current rows)
  unfolding demote_revision
  HasOneCurrent-demote_base none rows h = h
  HasOneCurrent-demote_base (some r) rows h = HasOneCurrent-demote e.same_key pk r.rev rows h

  commit_revision-Settles :
      (current : Option RevisionRow) (merged : Document) (seq : ℕ) (rows after : RevisionTable)
      → commit_revision e ctx name c grant pk proposal current merged seq rows ≡ some after
      → Settles proposal.rev rows after
  unfolding mark_status
  commit_revision-Settles current merged seq rows after h =
      let (_, made) = commit_revision-steps current merged seq rows after h in
      let demoted = demote_base e ctx name c grant pk proposal current rows in
      let new = merged_row merged seq in
      record {
        appended = erased new ∷ [];
        history =
            ap (map erased) (sym made)
            ∙ erased-mark proposal.rev superseded (demoted ++ new ∷ [])
            ∙ erased-snoc demoted new
            ∙ ap (λ xs. xs ++ erased new ∷ []) (erased-demote_base current rows);
        closed = λ r.
            ap (any (is_open r)) (sym made)
            ∙ open-mark proposal.rev r superseded (demoted ++ new ∷ []) refl
            ∙ ap (λ b. b && not (r == proposal.rev))
                (open-snoc r demoted new refl ∙ open-demote_base current r rows);
      }

  pub apply_rejection-Settles :
      (rows : RevisionTable)
      → Leaves (Settles proposal.rev rows) (apply_rejection e ctx name c grant pk proposal rows)
  unfolding apply_rejection mark_status
  apply_rejection-Settles rows = record {
    appended = [];
    history = erased-mark proposal.rev rejected rows ∙ sym (append-nil (map erased rows));
    closed = λ r. open-mark proposal.rev r rejected rows refl;
  }

  approved-Leaves :
      (Q : RevisionTable → Type 0) (rows : RevisionTable) (a : Applied)
      → Approves e ctx name c grant pk proposal rows a
      → ((current : Option RevisionRow) (merged : Document) (seq : ℕ) (after : RevisionTable)
          → commit_revision e ctx name c grant pk proposal current merged seq rows ≡ some after
          → Q after)
      → Leaves Q a
  approved-Leaves Q rows (done id rev after entry) (current, seq, h) k =
      k current _ seq after h.committed
  approved-Leaves Q rows (stopped why) h k = tt
  approved-Leaves Q rows lost_race h k = tt
  approved-Leaves Q rows fault h k = tt

  -- An approval that goes through keeps every revision of the table in every column but the mark of
  -- the current one and the status, and closes exactly the proposal that it decides.
  pub apply_approval-Settles :
      (rows : RevisionTable)
      → Leaves (Settles proposal.rev rows) (apply_approval e ctx name c grant pk proposal rows)
  apply_approval-Settles rows =
      approved-Leaves (Settles proposal.rev rows) rows
        (apply_approval e ctx name c grant pk proposal rows)
        (apply_approval_lem e ctx name c grant pk proposal rows)
        (λ current merged seq after. commit_revision-Settles current merged seq rows after)

  module _ (equality : IsKeyEquality e.same_key) where
    pub commit_revision-HasOneCurrent :
        (current : Option RevisionRow) (merged : Document) (seq : ℕ) (rows after : RevisionTable)
        → HasOneCurrent e.same_key pk rows
        → commit_revision e ctx name c grant pk proposal current merged seq rows ≡ some after
        → HasOneCurrent e.same_key pk after
    unfolding mark_status
    commit_revision-HasOneCurrent current merged seq rows after one h =
        let (index, made) = commit_revision-steps current merged seq rows after h in
        let demoted = demote_base e ctx name c grant pk proposal current rows in
        let new = merged_row merged seq in
        subst (HasOneCurrent e.same_key pk) made (
          HasOneCurrent-mark e.same_key pk proposal.rev superseded (demoted ++ new ∷ []) (
            HasOneCurrent-snoc e.same_key pk equality new demoted index
              (HasOneCurrent-demote_base current rows one)))
