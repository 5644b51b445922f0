-- ===== src/Verbs/Propose/Apply/Outcome.antt =====
-- What an approval that goes through has found in the table, and the table that it leaves.
use mathlib.Core.List.{Memᴰ}
use warehousd.Prelude.{
  ℕ, ◌+◌, ◌<◌, String, ◌≡◌, ◌≢◌, refl, sym, ap, ◌∙◌, subst, inl, inr, Bool, true, false, Option,
  none, some, List, [], ◌∷◌, ◌++◌, map, filter, any, lookup, lookup-insert, keys, includes,
  includes-append, is_empty, if◌then◌else◌, ◌==◌, arith, eq_iff, Bool-cases, Memᴰ-filter_intro,
  false≢true, all,
}
use warehousd.Context.{BrokerContext}
use warehousd.Config.{CollectionConfig}
use warehousd.Value.{Value, Document, DocumentFilter, get}
use warehousd.Grants.Filters.{
  acl_column, matches_filter, matches_filters, admits, admits_post_image,
}
use warehousd.Grants.Filters.Laws.{IsOpenTo, admits-IsOpenTo}
use warehousd.Grants.Eval.{ActiveGrant}
use warehousd.Revisions.{
  RevisionOp, create, update, approved, superseded, RevisionRow, RevisionTable, bound_columns,
  demote_revision, current_revision,
}
use warehousd.Verbs.Mutate.Intent.{WriteDeps}
use warehousd.Verbs.Mutate.Dataset.{with_acl}
use warehousd.Verbs.Propose.Decision.{is_create_op, copy_columns, merged_columns, new_seq}
use warehousd.Verbs.Propose.Apply.{
  Applied, done, stopped, lost_race, fault, is_approved, is_later, is_update_op, changed_since,
  fields_of_all, has_moved, set_status, mark_status, with_list, proposed_document, demote_base,
  apply_approval,
}
use warehousd.Verbs.Propose.Apply.Copied.{
  get-copy_columns_any, get-with_list, matches_copied, all-member,
}
use warehousd.Verbs.Propose.Apply.Laws.{IsBase, Approves, apply_approval_lem}
use warehousd.Verbs.Propose.Apply.Tables.{merged_row, commit_revision-steps}

none_included :
    (p : String → Bool) (fs : List String) (f : String)
    → any p fs ≡ false
    → includes fs f ≡ true
    → p f ≡ false
none_included p [] f h m = absurd (cc)
none_included p (g ∷ fs) f h m = elim (Bool-cases (g == f)) [
  | inl y ↦
      let same : g ≡ f = ground (arith, eq_iff g f) in
      let off : p g ≡ false = ground arith in subst (λ x. p x ≡ false) same off
  | inr n ↦ none_included p fs f (ground arith) (ground arith)
]

includes-fields_of_all :
    (rows : RevisionTable) (r : RevisionRow) (f : String)
    → includes (fields_of_all rows) f ≡ false
    → Memᴰ r rows
    → includes r.fields f ≡ false
unfolding fields_of_all
includes-fields_of_all [] r f h m = elim m [ ]
includes-fields_of_all (x ∷ rows) r f h (Memᴰ.head e) =
    let off : includes x.fields f ≡ false =
      ground (arith, includes-append x.fields (fields_of_all rows) f) in
    subst (λ (z : RevisionRow). includes z.fields f ≡ false) (sym e) off
includes-fields_of_all (x ∷ rows) r f h (Memᴰ.tail m) =
    includes-fields_of_all rows r f
      (ground (arith, includes-append x.fields (fields_of_all rows) f)) m

pub is_create_op_sound : (op : RevisionOp) → is_create_op op ≡ true → op ≡ create
is_create_op_sound op h = ground arith

-- How a revision of the table is left: the base is current no more, the proposal is superseded.
abbrev pub retired : String → RevisionRow → RevisionRow
retired proposal r = if r.rev == proposal then record r { status = superseded } else r

abbrev pub left : String → Option RevisionRow → RevisionRow → RevisionRow
left proposal none r = retired proposal r
left proposal (some base) r =
    retired proposal (if r.rev == base.rev then record r { current = false } else r)

abbrev pub number_after : Option RevisionRow → ℕ
number_after none = 1
number_after (some base) = base.seq + 1

module _ (e : WriteDeps) (ctx : BrokerContext) (name : String) (c : CollectionConfig)
    (grant : ActiveGrant) (pk : String) (proposal : RevisionRow) where
  -- No approved revision of the document that came after the proposal's base changed a field that
  -- the proposal names.
  abbrev pub IsUnmoved : RevisionTable → Type 0
  IsUnmoved rows =
      (base : ℕ) (f : String) (r : RevisionRow)
      → proposal.base ≡ some base
      → includes proposal.fields f ≡ true
      → Memᴰ r rows
      → r.workspace_id ≡ ctx.workspace_id
      → e.same_key (get pk r.columns) (get pk proposal.columns) ≡ true
      → r.status ≡ approved
      → base < r.seq
      → includes r.fields f ≡ false

  -- What the proposal is applied on top of: nothing for a create whose values the grant's filters and
  -- the access list that the row carries admit, otherwise the current revision of the document, which
  -- the grant admits and on which the proposal's fields have not moved.
  abbrev pub IsBasis : RevisionTable → Option RevisionRow → Type 0
  IsBasis rows none =
      (proposal.op ≡ create)
      × ((f : DocumentFilter)
          → Memᴰ f grant.document_filter
          → f.field ≢ acl_column
          → matches_filter e.platform proposal.columns c f ≡ true)
      × ((v : Value)
          → c.acl ≡ true
          → lookup acl_column proposal.columns ≡ some v
          → IsOpenTo grant.principals v)
  IsBasis rows (some current) =
      (proposal.op ≢ create)
      × (current_revision e.same_key pk ctx.workspace_id (get pk proposal.columns) rows
          ≡ some current)
      × (admits e.platform (with_acl e ctx.workspace_id name c pk current) grant.document_filter
            grant.principals c
          ≡ true)
      × IsUnmoved rows

  -- The revision that the approval appends: the proposer's, approved, current, under the next number,
  -- with the merged columns.
  abbrev pub approved_row : Option RevisionRow → RevisionRow
  approved_row base = record {
    rev = e.new_rev;
    seq = number_after base;
    by = proposal.by;
    op = proposal.op;
    status = approved;
    fields = proposal.fields;
    base = proposal.base;
    current = true;
    workspace_id = ctx.workspace_id;
    columns = bound_columns c (merged_columns c proposal base);
  }

  pub record IsOutcome (rows after : RevisionTable) : Type 0 where
    pub base : Option RevisionRow
    pub basis : IsBasis rows base
    pub post_admitted :
        proposal.op ≡ update
        → admits_post_image e.platform (merged_columns c proposal base) grant.document_filter c
          ≡ true
    pub written : after ≡ map (left proposal.rev base) rows ++ approved_row base ∷ []

  abbrev pub Ends : RevisionTable → Applied → Type 0
  Ends rows (done id rev after entry) = IsOutcome rows after
  Ends rows (stopped why) = Unit
  Ends rows lost_race = Unit
  Ends rows fault = Unit

  has_moved-IsUnmoved :
      (rows : RevisionTable)
      → has_moved e ctx name c grant pk proposal proposal.base rows ≡ false
      → IsUnmoved rows
  unfolding changed_since
  has_moved-IsUnmoved rows h base f r is_base named m place key status later =
      let moved : has_moved e ctx name c grant pk proposal (some base) rows ≡ false =
        subst (λ o. has_moved e ctx name c grant pk proposal o rows ≡ false) is_base h in
      let filled = includes-not_empty proposal.fields f named in
      let still : any (includes (changed_since e ctx name c grant pk proposal base rows))
            proposal.fields
          ≡ false =
        quiet moved filled in
      includes-fields_of_all (filter (is_later e ctx name c grant pk proposal base) rows) r f
        (none_included (includes (changed_since e ctx name c grant pk proposal base rows))
          proposal.fields f still named)
        (Memᴰ-filter_intro (is_later e ctx name c grant pk proposal base) rows r m after)
    where
      includes-not_empty :
          (fs : List String) (x : String) → includes fs x ≡ true → is_empty fs ≡ false
      includes-not_empty [] x k = absurd (cc)
      includes-not_empty (y ∷ fs) x k = refl

      quiet :
          has_moved e ctx name c grant pk proposal (some base) rows ≡ false
          → is_empty proposal.fields ≡ false
          → any (includes (changed_since e ctx name c grant pk proposal base rows)) proposal.fields
            ≡ false
      quiet a b = ground arith

      after : is_later e ctx name c grant pk proposal base r ≡ true
      after =
          let st : is_approved r.status ≡ true = ap is_approved status in
          ground (arith, eq_iff r.workspace_id ctx.workspace_id)

  IsBase-IsBasis :
      (rows : RevisionTable) (base : Option RevisionRow)
      → IsBase e ctx name c grant pk proposal rows base
      → IsBasis rows base
  unfolding admits matches_filters
  IsBase-IsBasis rows (some current) (revises, read, open_, still) = (
    λ q. false≢true (sym revises ∙ ap is_create_op q),
    read,
    open_,
    has_moved-IsUnmoved rows still,
  )
  IsBase-IsBasis rows none (creates, open_) = (
    is_create_op_sound proposal.op creates,
    λ f m ne.
        matches_copied e.platform c f copied proposal.columns (keys c.fields)
          (get-with_list (lookup acl_column proposal.columns)
              (copy_columns (keys c.fields) proposal.columns) f.field ne
            ∙ get-copy_columns_any (keys c.fields) proposal.columns f.field)
          (all-member (matches_filter e.platform copied c) grant.document_filter f
            (filters_pass open_) m),
    λ v on listed.
        let (u, at, opens) =
          admits-IsOpenTo grant.principals e.platform copied grant.document_filter c on open_ in
        let there : lookup acl_column copied ≡ some v =
          ap (λ o. lookup acl_column (with_list o (copy_columns (keys c.fields) proposal.columns)))
            listed
          ∙ lookup-insert acl_column acl_column v (copy_columns (keys c.fields) proposal.columns) in
        let same : u ≡ v = ground (arith, at, there) in
        subst (IsOpenTo grant.principals) same opens,
  )
    where
      copied : Document
      copied = proposed_document e ctx name c grant pk proposal

      filters_pass :
          admits e.platform copied grant.document_filter grant.principals c ≡ true
          → all (matches_filter e.platform copied c) grant.document_filter ≡ true
      filters_pass k = ground arith

  numbered :
      (rows : RevisionTable) (base : Option RevisionRow) (seq : ℕ)
      → IsBase e ctx name c grant pk proposal rows base
      → new_seq proposal base ≡ some seq
      → seq ≡ number_after base
  numbered rows none seq (creates, _) h = ground arith
  numbered rows (some current) seq (revises, _, _, _) h = ground arith

  set_status-new :
      (new : RevisionRow) → new.rev ≢ proposal.rev → set_status proposal.rev superseded new ≡ new
  set_status-new new fresh = elim (Bool-cases (new.rev == proposal.rev)) [
    | inl y ↦ absurd (fresh (ground (arith, eq_iff new.rev proposal.rev)))
    | inr n ↦ rw (n, if◌then◌else◌) refl
  ]

  pub mark_status-left :
      (base : Option RevisionRow) (rows : RevisionTable) (new : RevisionRow)
      → new.rev ≢ proposal.rev
      → mark_status proposal.rev superseded
          (demote_base e ctx name c grant pk proposal base rows ++ new ∷ [])
        ≡ map (left proposal.rev base) rows ++ new ∷ []
  unfolding mark_status demote_revision
  mark_status-left none [] new fresh = ap (λ r. r ∷ []) (set_status-new new fresh)
  mark_status-left (some b) [] new fresh = ap (λ r. r ∷ []) (set_status-new new fresh)
  mark_status-left none (r ∷ rows) new fresh =
      ap (λ rest. left proposal.rev none r ∷ rest) (mark_status-left none rows new fresh)
  mark_status-left (some b) (r ∷ rows) new fresh =
      ap (λ rest. left proposal.rev (some b) r ∷ rest) (mark_status-left (some b) rows new fresh)

  Approves-Ends :
      (rows : RevisionTable) (a : Applied)
      → e.new_rev ≢ proposal.rev
      → Approves e ctx name c grant pk proposal rows a
      → Ends rows a
  Approves-Ends rows (stopped why) fresh h = tt
  Approves-Ends rows lost_race fresh h = tt
  Approves-Ends rows fault fresh h = tt
  Approves-Ends rows (done id rev after entry) fresh (base, seq, h) =
      let merged = merged_columns c proposal base in
      let (_, made) =
        commit_revision-steps e ctx name c grant pk proposal base merged seq rows after
          h.committed in
      record {
        base = base;
        basis = IsBase-IsBasis rows base h.base;
        post_admitted = λ u. h.post_admitted (ap is_update_op u);
        written =
            sym made
            ∙ mark_status-left base rows (merged_row e ctx name c grant pk proposal merged seq)
                fresh
            ∙ ap
                (λ n.
                  map (left proposal.rev base) rows
                  ++ merged_row e ctx name c grant pk proposal merged n ∷ [])
                (numbered rows base seq h.base h.numbered);
      }

  -- An approval that goes through is on top of nothing, for a create whose values the approver's
  -- grant admits, or of the current revision of the document, which the grant admits, where no
  -- revision approved after the proposal's base changed a field that the proposal names; what an
  -- update makes of the document passes the grant's filters too. The table keeps every revision in
  -- its place and as it was, but that the base is no longer current and the proposal is superseded,
  -- and ends with the merged revision: current, approved, the proposer's, numbered after the base. The
  -- id drawn for it is not the proposal's.
  pub apply_approval-Ends :
      (rows : RevisionTable)
      → e.new_rev ≢ proposal.rev
      → Ends rows (apply_approval e ctx name c grant pk proposal rows)
  apply_approval-Ends rows fresh =
      Approves-Ends rows (apply_approval e ctx name c grant pk proposal rows) fresh
        (apply_approval_lem e ctx name c grant pk proposal rows)
