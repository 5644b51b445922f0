-- ===== src/Verbs/Propose/Decision/Laws.antt =====
-- Who may decide on a proposal, and what an approval merges.
use warehousd.Prelude.{
  String, ◌≡◌, refl, sym, subst, ap, ◌∙◌, ◌≢◌, ◌⊎◌, inl, inr, true, false, ◌||◌, Option, none, some,
  List, [], ◌∷◌, includes, keys, insert, all, is_some, if◌then◌else◌, ◌==◌, arith, eq_iff,
  Bool-cases,
}
use warehousd.Context.{BrokerContext}
use warehousd.Config.{CollectionConfig}
use warehousd.Config.Fields.{pk_of, data_cols_of}
use warehousd.Value.{Value, Document, Platform, get}
use warehousd.Grants.Filters.{validate_document_filters}
use warehousd.Grants.Eval.{ActiveGrant}
use warehousd.Revisions.{RevisionRow}
use warehousd.Verbs.Propose.Decision.{
  ProposalAction, approve, reject, authorized, check_four_eyes, on_key, on_approve_key,
  authorize_reject, authorize_approve, authorize_decision, base_of, copy_columns, lay_over,
  merged_columns,
}

-- What an approval asks for beyond what a rejection does.
abbrev pub ReadsProposal :
    Platform → CollectionConfig → ActiveGrant → RevisionRow → ProposalAction → Type 0
ReadsProposal platform c grant proposal reject = Unit
ReadsProposal platform c grant proposal approve =
    (all (includes grant.allowed_fields) proposal.fields ≡ true)
    × (is_some (validate_document_filters platform grant.document_filter c) ≡ false)

-- The decider is not the proposer, their grant carries `approve`, and for an approval covers the
-- fields of the proposal.
pub record MayDecide (platform : Platform) (ctx : BrokerContext) (c : CollectionConfig)
    (grant : ActiveGrant) (proposal : RevisionRow) (action : ProposalAction) (pk : String)
    : Type 0 where
  pub second_person : proposal.by ≢ ctx.user_id
  pub carries_approve : includes grant.verbs "approve" ≡ true
  pub keyed : pk_of c ≡ some pk
  pub reads : ReadsProposal platform c grant proposal action

module _ (platform : Platform) (ctx : BrokerContext) (c : CollectionConfig) (proposal : RevisionRow)
    (pk : String) where
  approve_key :
      (grant : ActiveGrant) (o : Option String)
      → on_approve_key platform c grant o ≡ authorized pk
      → (o ≡ some pk)
        × (is_some (validate_document_filters platform grant.document_filter c) ≡ false)
  approve_key grant none h = absurd (cc)
  approve_key grant (some k) h = ground arith

  reject_key :
      (grant : ActiveGrant) (o : Option String) → on_key grant o ≡ authorized pk → o ≡ some pk
  reject_key grant none h = absurd (cc)
  reject_key grant (some k) h = ground arith

  authorize_reject-MayDecide :
      (g : ActiveGrant)
      → authorize_reject ctx c (some g) proposal ≡ authorized pk
      → MayDecide platform ctx c g proposal reject pk
  unfolding check_four_eyes
  authorize_reject-MayDecide g h = record {
    second_person = λ s. ground (arith, eq_iff proposal.by ctx.user_id);
    carries_approve = ground arith;
    keyed = reject_key g (pk_of c) (ground arith);
    reads = tt;
  }

  authorize_approve-MayDecide :
      (g : ActiveGrant)
      → authorize_approve platform ctx c (some g) proposal ≡ authorized pk
      → MayDecide platform ctx c g proposal approve pk
  unfolding check_four_eyes
  authorize_approve-MayDecide g h =
      let (k, f) = approve_key g (pk_of c) (ground arith) in
      record {
        second_person = λ s. ground (arith, eq_iff proposal.by ctx.user_id);
        carries_approve = ground arith;
        keyed = k;
        reads = (ground arith, f);
      }

-- What a decision needs, where collection and grant may be missing.
abbrev pub MayDecideOn :
    Platform
    → BrokerContext
    → Option CollectionConfig
    → Option ActiveGrant
    → RevisionRow
    → ProposalAction
    → String
    → Type 0
MayDecideOn platform ctx (some c) (some grant) proposal action pk =
    MayDecide platform ctx c grant proposal action pk
MayDecideOn platform ctx _ _ proposal action pk = ⊥

-- A decision is authorised only for a caller who did not make the proposal, on an existing
-- collection with a key, under a grant that carries `approve`; for an approval that grant also
-- covers each field of the proposal and has filters that can be evaluated.
pub authorize_decision-MayDecide :
    (platform : Platform) (ctx : BrokerContext) (c : Option CollectionConfig)
    (grant : Option ActiveGrant) (proposal : RevisionRow) (action : ProposalAction) (pk : String)
    → authorize_decision platform ctx c grant proposal action ≡ authorized pk
    → MayDecideOn platform ctx c grant proposal action pk
unfolding authorize_decision
authorize_decision-MayDecide platform ctx none grant proposal action pk h = absurd (cc)
authorize_decision-MayDecide platform ctx (some c) none proposal approve pk h = absurd (cc)
authorize_decision-MayDecide platform ctx (some c) none proposal reject pk h = absurd (cc)
authorize_decision-MayDecide platform ctx (some c) (some g) proposal approve pk h =
    authorize_approve-MayDecide platform ctx c proposal pk g h
authorize_decision-MayDecide platform ctx (some c) (some g) proposal reject pk h =
    authorize_reject-MayDecide platform ctx c proposal pk g h

get-insert :
    (f g : String) (v : Value) (d : Document)
    → get f (insert g v d) ≡ (if g == f then v else get f d)
get-insert f g v [] = ground arith
get-insert f g v ((k, x) ∷ d) = elim (Bool-cases (k == g)) [
  | inl e ↦ rw (e, if◌then◌else◌) (ground (arith, eq_iff k g))
  | inr e ↦ rw (e, if◌then◌else◌) (ground (arith, get-insert f g v d, eq_iff g k, eq_iff k f))
]

pub get-copy_columns :
    (cols : List String) (row : Document) (f : String)
    → includes cols f ≡ true
    → get f (copy_columns cols row) ≡ get f row
unfolding copy_columns
get-copy_columns [] row f h = absurd (cc)
get-copy_columns (g ∷ cols) row f h = elim (Bool-cases (g == f)) [
  | inl e ↦ ground (arith, ap (λ x. get x row) (eq_to g f e))
  | inr e ↦ ground (arith, get-copy_columns cols row f (ground arith))
]
  where
    eq_to : (a b : String) → (a == b) ≡ true → a ≡ b
    eq_to a b e = ground (arith, eq_iff a b)

get-lay_over :
    (cols fields : List String) (row merged : Document) (f : String)
    → includes cols f ≡ true
    → get f (lay_over cols fields row merged)
      ≡ (if includes fields f then get f row else get f merged)
unfolding lay_over
get-lay_over cols [] row merged f h = refl
get-lay_over cols (g ∷ fields) row merged f h =
    get-lay_over cols fields row (if includes cols g then insert g (get g row) merged else merged) f
      h
    ∙ at_head (Bool-cases (g == f))
  where
    at_head :
        ((g == f) ≡ true) ⊎ ((g == f) ≡ false)
        → (if includes fields f
            then get f row
            else get f (if includes cols g then insert g (get g row) merged else merged))
          ≡ (if g == f || includes fields f then get f row else get f merged)
    at_head (inl e) =
        let same : g ≡ f = ground (arith, eq_iff g f) in
        let there : includes cols g ≡ true = subst (λ x. includes cols x ≡ true) (sym same) h in
        ground (arith, get-insert f g (get g row) merged, ap (λ x. get x row) same)
    at_head (inr e) = ground (arith, get-insert f g (get g row) merged)

-- The merge rule, for each column of the collection: a field that the proposal names takes the
-- proposal's value, and any other field keeps what the document holds when the proposal is decided,
-- or for a create what the proposal says.
pub merged_columns_lem :
    (c : CollectionConfig) (proposal : RevisionRow) (current : Option RevisionRow) (f : String)
    → includes (data_cols_of c) f ≡ true
    → get f (merged_columns c proposal current) ≡ (
        if includes proposal.fields f
        then get f proposal.columns
        else get f (base_of proposal current).columns)
unfolding merged_columns
merged_columns_lem c proposal current f h =
    get-lay_over (data_cols_of c) proposal.fields proposal.columns
      (copy_columns (data_cols_of c) (base_of proposal current).columns) f h
    ∙ ap (λ v. if includes proposal.fields f then get f proposal.columns else v)
        (get-copy_columns (data_cols_of c) (base_of proposal current).columns f h)

pub keys-copy_columns : (fs : List String) (row : Document) → keys (copy_columns fs row) ≡ fs
unfolding copy_columns
keys-copy_columns [] row = refl
keys-copy_columns (f ∷ fs) row = ap (λ xs. f ∷ xs) (keys-copy_columns fs row)
