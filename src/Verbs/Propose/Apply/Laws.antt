-- ===== src/Verbs/Propose/Apply/Laws.antt =====
-- What an approval has established when it goes through.
use warehousd.Prelude.{
  ℕ, String, ◌≡◌, refl, inl, inr, true, false, not, ◌&&◌, Option, none, some, arith, subst, by_test,
  Bool-cases,
}
use warehousd.Context.{BrokerContext}
use warehousd.Config.{CollectionConfig}
use warehousd.Value.{Document, get}
use warehousd.Grants.Filters.{admits, admits_post_image}
use warehousd.Grants.Eval.{ActiveGrant}
use warehousd.Revisions.{RevisionRow, RevisionTable, current_revision}
use warehousd.Verbs.Mutate.Intent.{WriteDeps}
use warehousd.Verbs.Mutate.Dataset.{with_acl}
use warehousd.Verbs.Propose.Decision.{
  is_create_op, merged_columns, new_seq, with_seq, merge_revision,
}
use warehousd.Verbs.Propose.Apply.{
  Applied, done, stopped, lost_race, fault, Base, on_top_of, unfounded, is_update_op,
  proposed_document, has_moved, base_on, resolve_base, commit_revision, on_committed, on_merged,
  on_base, apply_approval,
}

module _ (e : WriteDeps) (ctx : BrokerContext) (name : String) (c : CollectionConfig)
    (grant : ActiveGrant) (pk : String) (proposal : RevisionRow) where
  -- What the proposal is applied on top of: nothing for a create that the grant admits, otherwise
  -- the current revision, which the grant admits, and since the proposal's base none of the
  -- proposal's fields was changed by an approved revision.
  abbrev pub IsBase : RevisionTable → Option RevisionRow → Type 0
  IsBase rows none =
      (is_create_op proposal.op ≡ true)
      × (admits e.platform (proposed_document e ctx name c grant pk proposal) grant.document_filter
            grant.principals c
          ≡ true)
  IsBase rows (some current) =
      (is_create_op proposal.op ≡ false)
      × (current_revision e.same_key pk ctx.workspace_id (get pk proposal.columns) rows
          ≡ some current)
      × (admits e.platform (with_acl e ctx.workspace_id name c pk current) grant.document_filter
            grant.principals c
          ≡ true)
      × (has_moved e ctx name c grant pk proposal proposal.base rows ≡ false)

  base_on-IsBase :
      (rows : RevisionTable) (o current : Option RevisionRow)
      → is_create_op proposal.op ≡ false
      → current_revision e.same_key pk ctx.workspace_id (get pk proposal.columns) rows ≡ o
      → base_on e ctx name c grant pk proposal rows o ≡ on_top_of current
      → IsBase rows current
  base_on-IsBase rows none current k f h = absurd (cc)
  base_on-IsBase rows (some r) none k f h = absurd (ground arith)
  base_on-IsBase rows (some r) (some r') k f h =
      let same : r ≡ r' = ground arith in
      subst (λ x. IsBase rows (some x)) same (k, f, ground arith, ground arith)

  resolve_base-IsBase :
      (rows : RevisionTable) (current : Option RevisionRow)
      → resolve_base e ctx name c grant pk proposal rows ≡ on_top_of current
      → IsBase rows current
  unfolding resolve_base
  resolve_base-IsBase rows current h = elim (Bool-cases (is_create_op proposal.op)) [
    | inr k ↦ base_on-IsBase rows _ current k refl (ground arith)
    | inl k ↦
        let open_ : admits e.platform (proposed_document e ctx name c grant pk proposal)
              grant.document_filter grant.principals c
            ≡ true =
          ground arith in
        let same : none ≡ current = ground arith in subst (IsBase rows) same (k, open_)
  ]

  -- The approval of a proposal: its base, what an update makes of the document is admitted too, and
  -- the merged revision was committed.
  pub record IsApproval (rows after : RevisionTable) (current : Option RevisionRow) (seq : ℕ)
      : Type 0 where
    pub base : IsBase rows current
    pub numbered : new_seq proposal current ≡ some seq
    pub post_admitted :
        is_update_op proposal.op ≡ true
        → admits_post_image e.platform (merged_columns c proposal current) grant.document_filter c
          ≡ true
    pub committed :
        commit_revision e ctx name c grant pk proposal current
          (merged_columns c proposal current)
          seq
          rows
        ≡ some after

  abbrev pub Approves : RevisionTable → Applied → Type 0
  Approves rows (done id rev after entry) =
      (current : Option RevisionRow) × (seq : ℕ) × IsApproval rows after current seq
  Approves rows (stopped why) = Unit
  Approves rows lost_race = Unit
  Approves rows fault = Unit

  on_committed-Approves :
      (rows : RevisionTable) (current : Option RevisionRow) (seq : ℕ) (merged : Document)
      (o : Option RevisionTable)
      → ((after : RevisionTable) → o ≡ some after → IsApproval rows after current seq)
      → Approves rows (on_committed e ctx name c grant pk proposal merged o)
  on_committed-Approves rows current seq merged none k = tt
  on_committed-Approves rows current seq merged (some after) k = (current, seq, k after refl)

  on_merged-Approves :
      (rows : RevisionTable) (current : Option RevisionRow) (o : Option ℕ)
      → IsBase rows current
      → new_seq proposal current ≡ o
      → Approves rows (
          on_merged e ctx name c grant pk proposal current rows
            (with_seq (merged_columns c proposal current) o))
  on_merged-Approves rows current none b n = tt
  on_merged-Approves rows current (some seq) b n =
      by_test (Approves rows)
        (is_update_op proposal.op
          && not (
              admits_post_image e.platform (merged_columns c proposal current) grant.document_filter
                c))
        _ _ (λ _. tt)
        (λ t.
          on_committed-Approves rows current seq (merged_columns c proposal current)
            (commit_revision e ctx name c grant pk proposal current
              (merged_columns c proposal current) seq rows)
            (λ after h. record {
              base = b;
              numbered = n;
              post_admitted = λ u. ground arith;
              committed = h;
            }))

  -- An approval that goes through has a base that the approver's grant admits and on which none of
  -- the proposal's fields has moved, makes of it a document that the grant's filters admit too, and
  -- commits the merged revision under the next number.
  pub apply_approval_lem :
      (rows : RevisionTable) → Approves rows (apply_approval e ctx name c grant pk proposal rows)
  unfolding apply_approval merge_revision
  apply_approval_lem rows = at_base (resolve_base e ctx name c grant pk proposal rows) refl
    where
      at_base :
          (b : Base)
          → resolve_base e ctx name c grant pk proposal rows ≡ b
          → Approves rows (on_base e ctx name c grant pk proposal rows b)
      at_base (unfounded why) h = tt
      at_base (on_top_of current) h =
          on_merged-Approves rows current (new_seq proposal current)
            (resolve_base-IsBase rows current h) refl
