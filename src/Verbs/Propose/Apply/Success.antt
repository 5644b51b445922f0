-- ===== src/Verbs/Propose/Apply/Success.antt =====
-- When the approval of a change goes through: the base makes room for the merged revision.
use mathlib.Core.List.{Memᴰ}
use warehousd.Prelude.{
  ℕ, ◌+◌, String, ◌≡◌, ◌≢◌, refl, sym, ap, ◌∙◌, subst, inl, inr, Bool, true, false, not, ◌&&◌,
  Option, none, some, List, [], ◌∷◌, ◌++◌, map, filter, any, includes, includes-append,
  if◌then◌else◌, arith, eq_iff, Bool-cases, Memᴰ-filter,
}
use warehousd.Context.{BrokerContext}
use warehousd.Config.{CollectionConfig}
use warehousd.Config.Fields.{data_cols_of}
use warehousd.Value.{get}
use warehousd.Grants.Filters.{admits_post_image}
use warehousd.Grants.Eval.{ActiveGrant}
use warehousd.Revisions.{
  RevisionOp, create, update, RevisionStatus, approved, RevisionRow, RevisionTable, or_null,
  is_current_of, violates_index, insert_revision, clear_current, demote_revision, current_revision,
}
use warehousd.Revisions.Current.{
  IsKeyEquality, HasOneCurrent, bound-column, any-shift, none_left, find_holds, find-snoc,
}
use warehousd.Verbs.Mutate.Intent.{ChangeLogEntry, WriteDeps}
use warehousd.Verbs.Propose.Decision.{
  is_create_op, merged_columns, new_seq, with_seq, merge_revision,
}
use warehousd.Verbs.Propose.Decision.Laws.{merged_columns_lem}
use warehousd.Verbs.Propose.Apply.{
  done, on_top_of, is_approved, is_later, is_update_op, changed_since, fields_of_all, has_moved,
  base_on, resolve_base, commit_revision, on_committed, on_merged, on_base, apply_approval,
}
use warehousd.Verbs.Propose.Apply.Outcome.{
  left, IsUnmoved, IsBasis, approved_row, is_create_op_sound, mark_status-left,
}
use warehousd.Verbs.Propose.Apply.Tables.{commit_revision-HasOneCurrent}

includes-fields_of_all_none :
    (rows : RevisionTable) (f : String)
    → ((r : RevisionRow) → Memᴰ r rows → includes r.fields f ≡ false)
    → includes (fields_of_all rows) f ≡ false
unfolding fields_of_all
includes-fields_of_all_none [] f h = refl
includes-fields_of_all_none (r ∷ rows) f h = ground (
  arith,
  includes-append r.fields (fields_of_all rows) f,
  h r (Memᴰ.head refl),
  includes-fields_of_all_none rows f (λ x m. h x (Memᴰ.tail m)),
)

any_of_none :
    (p : String → Bool) (fs : List String)
    → ((f : String) → includes fs f ≡ true → p f ≡ false)
    → any p fs ≡ false
any_of_none p [] h = refl
any_of_none p (f ∷ fs) h =
    ground (arith, h f (ground (arith, eq_iff f f)), any_of_none p fs (λ g m. h g (ground arith)))

is_approved_sound : (s : RevisionStatus) → is_approved s ≡ true → s ≡ approved
is_approved_sound s h = ground arith

module _ (e : WriteDeps) (ctx : BrokerContext) (name : String) (c : CollectionConfig)
    (grant : ActiveGrant) (pk : String) (proposal : RevisionRow) where
  IsUnmoved-has_moved :
      (rows : RevisionTable)
      → IsUnmoved e ctx name c grant pk proposal rows
      → has_moved e ctx name c grant pk proposal proposal.base rows ≡ false
  unfolding changed_since
  IsUnmoved-has_moved rows h = at_base proposal.base refl
    where
      at_base :
          (o : Option ℕ)
          → proposal.base ≡ o
          → has_moved e ctx name c grant pk proposal o rows ≡ false
      at_base none k = refl
      at_base (some base) k =
          let still : any (includes (changed_since e ctx name c grant pk proposal base rows))
                proposal.fields
              ≡ false =
            any_of_none (includes (changed_since e ctx name c grant pk proposal base rows))
              proposal.fields
              (λ f named.
                includes-fields_of_all_none
                  (filter (is_later e ctx name c grant pk proposal base) rows) f
                  (λ r m.
                    let (listed, later) =
                      Memᴰ-filter (is_later e ctx name c grant pk proposal base) rows r m in
                    h base f r k named listed
                      (ground (arith, eq_iff r.workspace_id ctx.workspace_id)) (ground arith)
                      (is_approved_sound r.status (ground arith)) (ground arith))) in
          ground arith

  is_change : proposal.op ≢ create → is_create_op proposal.op ≡ false
  is_change h = elim (Bool-cases (is_create_op proposal.op)) [
    | inl y ↦ absurd (h (is_create_op_sound proposal.op y))
    | inr n ↦ n
  ]

  -- A base that satisfies the conditions is the one that is found.
  IsBasis-resolve_base :
      (rows : RevisionTable) (current : RevisionRow)
      → IsBasis e ctx name c grant pk proposal rows (some current)
      → resolve_base e ctx name c grant pk proposal rows ≡ on_top_of (some current)
  unfolding resolve_base
  IsBasis-resolve_base rows current (revises, read, open_, unmoved) =
      let change = is_change revises in
      let still = IsUnmoved-has_moved rows unmoved in
      let based : base_on e ctx name c grant pk proposal rows (some current)
          ≡ on_top_of (some current) =
        rw (open_, still, if◌then◌else◌) refl in
      rw (change, if◌then◌else◌) (ap (base_on e ctx name c grant pk proposal rows) read ∙ based)

  -- The merged revision is under the key of the base.
  approved_row-key :
      (current : RevisionRow)
      → includes (data_cols_of c) pk ≡ true
      → includes proposal.fields pk ≡ false
      → or_null (get pk current.columns) ≡ get pk current.columns
      → get pk (approved_row e ctx name c grant pk proposal (some current)).columns
        ≡ get pk current.columns
  approved_row-key current stored unnamed set =
      let merged = merged_columns c proposal (some current) in
      let kept : get pk merged ≡ get pk current.columns =
        merged_columns_lem c proposal (some current) pk stored ∙ rw (unnamed, if◌then◌else◌) refl in
      bound-column e.same_key pk c merged pk stored ∙ ap or_null kept ∙ set

  module _ (equality : IsKeyEquality e.same_key) (rows : RevisionTable) (current : RevisionRow)
      (one_each : HasOneCurrent e.same_key pk rows)
      (read : current_revision e.same_key pk ctx.workspace_id (get pk proposal.columns) rows
        ≡ some current)
      (key : get pk (approved_row e ctx name c grant pk proposal (some current)).columns
        ≡ get pk current.columns) where
    abbrev new : RevisionRow
    new = approved_row e ctx name c grant pk proposal (some current)

    abbrev demoted : RevisionTable
    demoted = map (clear_current current.rev) rows

    gone :
        any (is_current_of e.same_key pk ctx.workspace_id (get pk proposal.columns)) demoted ≡ false
    unfolding current_revision
    gone =
        none_left e.same_key pk equality ctx.workspace_id (get pk proposal.columns) rows current
          one_each read

    same : e.same_key (get pk current.columns) (get pk proposal.columns) ≡ true
    unfolding current_revision
    same =
        let found =
          find_holds e.same_key pk equality
            (is_current_of e.same_key pk ctx.workspace_id (get pk proposal.columns)) rows current
            read in
        ground arith

    -- The index has room.
    free : violates_index e.same_key pk new demoted ≡ false
    free =
        subst (λ v. any (is_current_of e.same_key pk ctx.workspace_id v) demoted ≡ false) (sym key)
          (any-shift e.same_key pk equality ctx.workspace_id (get pk current.columns)
            (get pk proposal.columns) demoted same gone)

    any-left :
        (xs : RevisionTable)
        → any
            (is_current_of e.same_key pk ctx.workspace_id (get pk proposal.columns))
            (map (left proposal.rev (some current)) xs)
          ≡ any
              (is_current_of e.same_key pk ctx.workspace_id (get pk proposal.columns))
              (map (clear_current current.rev) xs)
    any-left [] = refl
    any-left (x ∷ xs) = ground (arith, any-left xs)

    abbrev after : RevisionTable
    after = map (left proposal.rev (some current)) rows ++ new ∷ []

    becomes_current :
        current_revision e.same_key pk ctx.workspace_id (get pk proposal.columns) after ≡ some new
    unfolding current_revision
    becomes_current =
        let keyed = subst (λ v. e.same_key v (get pk proposal.columns) ≡ true) (sym key) same in
        find-snoc e.same_key pk equality
          (is_current_of e.same_key pk ctx.workspace_id (get pk proposal.columns))
          (map (left proposal.rev (some current)) rows) new (any-left rows ∙ gone)
          (ground (arith, keyed, eq_iff ctx.workspace_id ctx.workspace_id))

    commits :
        e.new_rev ≢ proposal.rev
        → commit_revision e ctx name c grant pk proposal
            (some current)
            (merged_columns c proposal (some current))
            (current.seq + 1)
            rows
          ≡ some after
    unfolding commit_revision insert_revision demote_revision
    commits fresh =
        rw (free, if◌then◌else◌)
          (ap (λ x. some x)
            (mark_status-left e ctx name c grant pk proposal (some current) rows new fresh))

  is_update_op_sound : (op : RevisionOp) → is_update_op op ≡ true → op ≡ update
  is_update_op_sound op h = ground arith

  post_passes :
      (current : RevisionRow)
      → (proposal.op ≡ update
          → admits_post_image e.platform
              (merged_columns c proposal (some current))
              grant.document_filter
              c
            ≡ true)
      → (is_update_op proposal.op
          && not (
              admits_post_image e.platform
                (merged_columns c proposal (some current))
                grant.document_filter
                c))
        ≡ false
  post_passes current h = elim (Bool-cases (is_update_op proposal.op)) [
    | inl y ↦ let ok = h (is_update_op_sound proposal.op y) in ground arith
    | inr n ↦ ground arith
  ]

  -- An approval of an update or a delete whose base satisfies the conditions of an approval goes
  -- through, where the result of an update passes the grant's filters, the proposal does not name the
  -- key, the key is stored and not null in the base, no document has two current revisions in the
  -- table, and the id drawn is not the proposal's. Afterwards no document has two current revisions,
  -- and that of this document is the merged one: the base is out of its way in the unique index. The
  -- database's equality on keys is symmetric and transitive.
  pub apply_approval-succeeds :
      (rows : RevisionTable) (current : RevisionRow)
      → IsKeyEquality e.same_key
      → e.new_rev ≢ proposal.rev
      → HasOneCurrent e.same_key pk rows
      → IsBasis e ctx name c grant pk proposal rows (some current)
      → (proposal.op ≡ update
          → admits_post_image e.platform
              (merged_columns c proposal (some current))
              grant.document_filter
              c
            ≡ true)
      → includes (data_cols_of c) pk ≡ true
      → includes proposal.fields pk ≡ false
      → or_null (get pk current.columns) ≡ get pk current.columns
      → (id : String) × (after : RevisionTable) × (entry : ChangeLogEntry) × (apply_approval e ctx
            name c grant pk proposal rows
          ≡ done id (some e.new_rev) after entry)
        × HasOneCurrent e.same_key pk after
        × (current_revision e.same_key pk ctx.workspace_id (get pk proposal.columns) after
            ≡ some (approved_row e ctx name c grant pk proposal (some current)))
  unfolding apply_approval merge_revision
  apply_approval-succeeds rows current equality fresh one_each basis post stored unnamed set =
      let merged = merged_columns c proposal (some current) in
      let key = approved_row-key current stored unnamed set in
      let read = basis.1 in
      let committed = commits equality rows current one_each read key fresh in
      let numbered : new_seq proposal (some current) ≡ some (current.seq + 1) =
        rw (is_change basis.0, if◌then◌else◌) refl in
      let passed : on_merged e ctx name c grant pk proposal (some current) rows
            (some (merged, current.seq + 1))
          ≡ on_committed e ctx name c grant pk proposal merged
              (some (after equality rows current one_each read key)) =
        rw (post_passes current post, if◌then◌else◌)
          (ap (on_committed e ctx name c grant pk proposal merged) committed) in
      (
        _,
        after equality rows current one_each read key,
        _,
        ap (on_base e ctx name c grant pk proposal rows) (IsBasis-resolve_base rows current basis)
            ∙ ap
                (λ o.
                  on_merged e ctx name c grant pk proposal (some current) rows (with_seq merged o))
                numbered
            ∙ passed,
        commit_revision-HasOneCurrent e ctx name c grant pk proposal equality (some current) merged
            (current.seq + 1) rows (after equality rows current one_each read key) one_each
            committed,
        becomes_current equality rows current one_each read key,
      )
