-- ===== src/Verbs/Propose/Decision.antt =====
-- packages/broker/src/verbs/propose.ts, the pure part: whether a caller may decide on a proposal
-- (authorizeDecision), and the state that an approval gives the document (mergeRevision).
pub mod Laws
use warehousd.Prelude.{
  ℕ, ◌+◌, String, Bool, true, false, not, Option, none, some, List, [], ◌∷◌, includes, insert, all,
  is_some, if◌then◌else◌, ◌==◌,
}
use warehousd.Context.{BrokerContext}
use warehousd.Config.{CollectionConfig}
use warehousd.Config.Fields.{pk_of, data_cols_of}
use warehousd.Value.{Document, Platform, get}
use warehousd.Grants.Filters.{validate_document_filters}
use warehousd.Grants.Eval.{ActiveGrant}
use warehousd.Revisions.{RevisionOp, create, RevisionRow}

pub data ProposalAction : Type 0 where
  approve reject : ProposalAction

-- The key of the collection, or the reason and the grant that it names.
pub data Authorized : Type 0 where
  authorized : String → Authorized
  denied : String → Option ActiveGrant → Authorized

abbrev pub proposed_fields_of : RevisionRow → List String
proposed_fields_of proposal = proposal.fields

unfoldable pub check_four_eyes : RevisionRow → BrokerContext → Bool
check_four_eyes proposal ctx = proposal.by == ctx.user_id

abbrev pub on_key : ActiveGrant → Option String → Authorized
on_key grant none = denied "invalid_intent" (some grant)
on_key grant (some pk) = authorized pk

abbrev pub authorize_reject :
    BrokerContext → CollectionConfig → Option ActiveGrant → RevisionRow → Authorized
authorize_reject ctx c none proposal = denied "verb_denied" none
authorize_reject ctx c (some grant) proposal =
    if not (includes grant.verbs "approve")
    then denied "verb_denied" (some grant)
    else if check_four_eyes proposal ctx
    then denied "self_approval_denied" (some grant)
    else on_key grant (pk_of c)

-- The filters are asked of only once there is a key.
abbrev pub on_approve_key : Platform → CollectionConfig → ActiveGrant → Option String → Authorized
on_approve_key platform c grant none = denied "invalid_intent" (some grant)
on_approve_key platform c grant (some pk) =
    if is_some (validate_document_filters platform grant.document_filter c)
    then denied "invalid_intent" (some grant)
    else authorized pk

abbrev pub authorize_approve :
    Platform → BrokerContext → CollectionConfig → Option ActiveGrant → RevisionRow → Authorized
authorize_approve platform ctx c none proposal = denied "no_grant" none
authorize_approve platform ctx c (some grant) proposal =
    if check_four_eyes proposal ctx
    then denied "self_approval_denied" (some grant)
    else if not (includes grant.verbs "approve")
    then denied "verb_denied" (some grant)
    else if not (all (includes grant.allowed_fields) (proposed_fields_of proposal))
    then denied "field_denied" (some grant)
    else on_approve_key platform c grant (pk_of c)

unfoldable pub authorize_decision :
    Platform
    → BrokerContext
    → Option CollectionConfig
    → Option ActiveGrant
    → RevisionRow
    → ProposalAction
    → Authorized
unfolding check_four_eyes
authorize_decision platform ctx none grant proposal action = denied "unknown_collection" none
authorize_decision platform ctx (some c) grant proposal reject =
    authorize_reject ctx c grant proposal
authorize_decision platform ctx (some c) grant proposal approve =
    authorize_approve platform ctx c grant proposal

-- `currentRev ?? proposal`
abbrev pub base_of : RevisionRow → Option RevisionRow → RevisionRow
base_of proposal none = proposal
base_of proposal (some current) = current

unfoldable pub copy_columns : List String → Document → Document
copy_columns [] row = []
copy_columns (f ∷ fs) row = (f, get f row) ∷ copy_columns fs row

lay_over : List String → List String → Document → Document → Document
lay_over cols [] proposal merged = merged
lay_over cols (f ∷ fs) proposal merged =
    lay_over cols fs proposal (if includes cols f then insert f (get f proposal) merged else merged)

abbrev pub is_create_op : RevisionOp → Bool
is_create_op create = true
is_create_op _ = false

-- `none` where the source reads the sequence number of no revision, and throws.
abbrev pub new_seq : RevisionRow → Option RevisionRow → Option ℕ
new_seq proposal none = if is_create_op proposal.op then some 1 else none
new_seq proposal (some current) =
    if is_create_op proposal.op then some 1 else some (current.seq + 1)

unfoldable pub merged_columns : CollectionConfig → RevisionRow → Option RevisionRow → Document
unfolding copy_columns lay_over
merged_columns c proposal current =
    lay_over (data_cols_of c) (proposed_fields_of proposal) proposal.columns
      (copy_columns (data_cols_of c) (base_of proposal current).columns)

abbrev pub with_seq : Document → Option ℕ → Option (Document × ℕ)
with_seq merged none = none
with_seq merged (some seq) = some (merged, seq)

unfoldable pub merge_revision :
    CollectionConfig → RevisionRow → Option RevisionRow → Option (Document × ℕ)
unfolding merged_columns
merge_revision c proposal current =
    with_seq (merged_columns c proposal current) (new_seq proposal current)
