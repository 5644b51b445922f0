-- ===== src/Verbs/Propose/Batch/Laws.antt =====
-- What holds of a batch of decisions: four eyes on each of them, and what it leaves.
use mathlib.Core.List.{Memᴰ}
use warehousd.Prelude.{
  String, ◌≡◌, ◌≢◌, sym, ap, ◌∙◌, subst, inl, inr, Bool, some, List, [], lookup, map, includes, All,
  append-nil, arith, Bool-cases,
}
use warehousd.Context.{Env, BrokerContext}
use warehousd.Config.{CollectionConfig, find_collection}
use warehousd.Grants.Eval.{ActiveGrant, Loaded, no_grant, granted, rebuild, load_active_grant}
use warehousd.Grants.Eval.Batch.{found, as_option, load_active_grants, load_active_grants_lem}
use warehousd.Revisions.{pending, RevisionRow}
use warehousd.Audit.{AuditWriter, Trail}
use warehousd.Verbs.Guard.{VerbDeps}
use warehousd.Verbs.Mutate.Intent.{WriteDeps}
use warehousd.Verbs.Propose.Decision.Laws.{MayDecide}
use warehousd.Verbs.Propose.Apply.Marks.{erased}
use warehousd.Verbs.Propose.Tables.{
  Tables, BatchDecision, Pending, DecisionOutcome, BatchResult, decided, undecided, table_of,
  selected,
}
use warehousd.Verbs.Propose.Tables.Laws.{load_pending_many-IsLocated, selected-by, selected-rev}
use warehousd.Verbs.Propose.Decide.Laws.{IsCleared, Chain, stop, link}
use warehousd.Verbs.Propose.Decide.History.{KeepsTable, Chain-KeepsTable}
use warehousd.Verbs.Propose.Batch.{locate, names_of, decide_proposals}
use warehousd.Verbs.Propose.Batch.Core.{Runs, decide_proposals-Runs}

as_option-granted : (l : Loaded) (g : ActiveGrant) → as_option l ≡ some g → l ≡ granted g
as_option-granted no_grant g h = absurd (cc)
as_option-granted (granted x) g h = ground arith
as_option-granted (rebuild id) g h = absurd (cc)

module _ (d : VerbDeps) (e : WriteDeps) (draw : String → String) (has_write_pool : Env → Bool)
    (w : AuditWriter) (ctx : BrokerContext) where
  -- A proposal that was pending in the caller's workspace, was made by someone else, and on whose
  -- collection the caller's own active grant allows the decision.
  pub record IsDecided (before : Tables) (dcn : BatchDecision) : Type 0 where
    pub collection : String
    pub config : CollectionConfig
    pub grant : ActiveGrant
    pub pk : String
    pub proposal : RevisionRow
    pub declared : find_collection d.cfg collection ≡ some config
    pub held : Memᴰ proposal (table_of collection before)
    pub named : proposal.rev ≡ dcn.proposal_id
    pub waits : proposal.status ≡ pending
    pub at_home : proposal.workspace_id ≡ ctx.workspace_id
    pub second_person : proposal.by ≢ ctx.user_id
    pub active : load_active_grant d.grants d.memberships d.now ctx collection ≡ granted grant
    pub permitted :
        MayDecide e.platform ctx config grant
          (selected e ctx.workspace_id collection config proposal)
          dcn.action
          pk

  module _ (decisions : List BatchDecision) (before : Tables) where
    abbrev pub located : List (String × Pending)
    located = locate d e draw has_write_pool w ctx decisions before

    abbrev ids : List String
    ids = map (λ (b : BatchDecision). b.proposal_id) decisions

    abbrev names : List String
    names = names_of d e draw has_write_pool w ctx located

    loaded_one :
        (grants : List (String × ActiveGrant)) (coll : String) (g : ActiveGrant)
        → load_active_grants d.grants d.memberships d.now ctx names ≡ found grants
        → lookup coll grants ≡ some g
        → load_active_grant d.grants d.memberships d.now ctx coll ≡ granted g
    loaded_one grants coll g h l =
        let batch = load_active_grants_lem d.grants d.memberships d.now ctx names grants coll h in
        elim (Bool-cases (includes names coll)) [
          | inl y ↦ as_option-granted _ g (ground arith)
          | inr n ↦ absurd (ground arith)
        ]

    cleared-IsDecided :
        (grants : List (String × ActiveGrant)) (dcn : BatchDecision) (p : Pending)
        (c : CollectionConfig) (g : ActiveGrant) (pk : String)
        → load_active_grants d.grants d.memberships d.now ctx names ≡ found grants
        → IsCleared d e draw ctx located grants dcn p c g pk
        → IsDecided before dcn
    cleared-IsDecided grants dcn p c g pk h k =
        let at = load_pending_many-IsLocated d e ctx ids before dcn.proposal_id p k.found in
        let config : at.config ≡ c = ground (arith, at.declared, k.declared) in
        let row : p.row ≡ selected e ctx.workspace_id p.collection c at.stored =
          at.with_access ∙ ap (λ x. selected e ctx.workspace_id p.collection x at.stored) config in
        record {
          collection = p.collection;
          config = c;
          grant = g;
          pk = pk;
          proposal = at.stored;
          declared = k.declared;
          held = at.held;
          named = at.named;
          waits = at.waits;
          at_home = at.at_home;
          second_person = λ same. k.permitted.second_person (
              ap (λ (r : RevisionRow). r.by) row
              ∙ selected-by e ctx.workspace_id p.collection c at.stored
              ∙ same);
          active = loaded_one grants p.collection g h k.active;
          permitted = subst (λ r. MayDecide e.platform ctx c g r dcn.action pk) row k.permitted;
        }

    Chain-IsDecided :
        (grants : List (String × ActiveGrant)) (rest : List BatchDecision)
        (os : List DecisionOutcome) (s after : Tables)
        → load_active_grants d.grants d.memberships d.now ctx names ≡ found grants
        → Chain d e draw ctx located grants rest os s after
        → All (IsDecided before) rest
    Chain-IsDecided grants _ _ _ _ h (stop s) = tt
    Chain-IsDecided grants _ _ _ _ h (link dcn rest o os s between after (p, c, g, pk, k, _) m) = (
      cleared-IsDecided grants dcn p c g pk h k,
      Chain-IsDecided grants rest os between after h m,
    )

    identified : (id : String) (p : Pending) → lookup id located ≡ some p → p.row.rev ≡ id
    identified id p h =
        let at = load_pending_many-IsLocated d e ctx ids before id p h in
        ap (λ (r : RevisionRow). r.rev) at.with_access
        ∙ selected-rev e ctx.workspace_id p.collection at.config at.stored
        ∙ at.named

    -- The decisions of an answer: all of them, or none.
    abbrev pub made : BatchResult → List BatchDecision
    made (decided os) = decisions
    made (undecided why id os) = []

    abbrev pub Stands : BatchResult → Type 0
    Stands (decided os) = All (IsDecided before) decisions
    Stands (undecided why id os) = Unit

    Runs-Stands :
        (o : BatchResult × Tables × Trail)
        → Runs d e draw has_write_pool w ctx decisions before o
        → Stands o.0
    Runs-Stands (decided os, after, trail) (_, run) =
        Chain-IsDecided run.grants decisions run.outcomes before after run.loaded run.chain
    Runs-Stands (undecided why id os, after, trail) h = tt

    Runs-KeepsTable :
        (name : String) (o : BatchResult × Tables × Trail)
        → Runs d e draw has_write_pool w ctx decisions before o
        → KeepsTable d e draw ctx located [] name (made o.0) before o.1
    Runs-KeepsTable name (decided os, after, trail) (_, run) =
        let k =
          Chain-KeepsTable d e draw ctx located run.grants identified name decisions run.outcomes
            before after run.chain in
        record { appended = k.appended; history = k.history; closed = k.closed }
    Runs-KeepsTable name (undecided why id os, after, trail) h =
        subst (λ t. KeepsTable d e draw ctx located [] name [] before t) (sym h)
          (record {
            appended = [];
            history = sym (append-nil (map erased (table_of name before)));
            closed = λ r. ground arith;
          })

  -- A batch is decided only if the caller may make each of its decisions: its proposal was pending in
  -- the caller's workspace, in the table of a declared collection; someone else made it; and the
  -- caller's own active grant on that collection carries `approve` and, for an approval, covers each
  -- field that the proposal names.
  pub decide_proposals_four_eyes :
      (decisions : List BatchDecision) (s : Tables) (trail : Trail) (os : List DecisionOutcome)
      → (decide_proposals d e draw has_write_pool w ctx decisions s trail).0 ≡ decided os
      → All (IsDecided s) decisions
  decide_proposals_four_eyes decisions s trail os h = subst (Stands decisions s) h (
      Runs-Stands decisions s _
        (decide_proposals-Runs d e draw has_write_pool w ctx decisions s trail))

  -- Whatever a batch is answered, in the table of each collection every revision stands in its place
  -- and in every column but the mark of the current one and the status, revisions are at most
  -- appended, and of the pending proposals exactly the decided ones are pending no more.
  pub decide_proposals-KeepsTable :
      (decisions : List BatchDecision) (s : Tables) (trail : Trail) (name : String)
      → let answer = decide_proposals d e draw has_write_pool w ctx decisions s trail in
        KeepsTable d e draw ctx (located decisions s) [] name (made decisions s answer.0) s answer.1
  decide_proposals-KeepsTable decisions s trail name =
      Runs-KeepsTable decisions s name _
        (decide_proposals-Runs d e draw has_write_pool w ctx decisions s trail)
