-- ===== src/Verbs/Propose/Decide/History.antt =====
-- What a chain of decisions keeps of the tables: the history, and the pending proposals that it does
-- not decide.
use warehousd.Prelude.{
  String, ◌≡◌, refl, sym, ap, ◌∙◌, inl, inr, Bool, true, false, not, ◌&&◌, ◌||◌, Option, none, some,
  List, [], ◌∷◌, ◌++◌, lookup, map, any, append_assoc, append-nil, if◌then◌else◌, ◌==◌, arith,
  eq_iff, Bool-cases,
}
use warehousd.Context.{BrokerContext}
use warehousd.Config.{CollectionConfig}
use warehousd.Grants.Eval.{ActiveGrant}
use warehousd.Revisions.{RevisionTable}
use warehousd.Verbs.Guard.{VerbDeps}
use warehousd.Verbs.Mutate.Intent.{WriteDeps}
use warehousd.Verbs.Propose.Apply.Marks.{erased, is_open}
use warehousd.Verbs.Propose.Tables.{Tables, BatchDecision, Pending, DecisionOutcome, table_of}
use warehousd.Verbs.Propose.Decide.Laws.{IsCleared, IsStep, Chain, stop, link}
use warehousd.Verbs.Propose.Decide.Invariants.{step-table, step-Settles}

module _ (d : VerbDeps) (e : WriteDeps) (draw : String → String) (ctx : BrokerContext)
    (located : List (String × Pending)) (grants : List (String × ActiveGrant)) where
  abbrev pub of_collection : String → Option Pending → Bool
  of_collection name none = false
  of_collection name (some p) = p.collection == name

  -- Whether the proposal is decided in that collection.
  abbrev pub decides : String → List BatchDecision → String → Bool
  decides name [] r = false
  decides name (dcn ∷ rest) r =
      (r == dcn.proposal_id && of_collection name (lookup dcn.proposal_id located))
      || decides name rest r

  -- In the table of one collection, every revision stands as it was but for the mark of the current
  -- one and the status, and the pending proposals are those that were pending without the decided.
  pub record KeepsTable (name : String) (decisions : List BatchDecision) (before after : Tables)
      : Type 0 where
    pub appended : RevisionTable
    pub history : map erased (table_of name after) ≡ map erased (table_of name before) ++ appended
    pub closed :
        (r : String)
        → any (is_open r) (table_of name after)
          ≡ (any (is_open r) (table_of name before) && not (decides name decisions r))

  module _
      (identified : (id : String) (p : Pending) → lookup id located ≡ some p → p.row.rev ≡ id) where
    -- One step as a chain of one decision.
    step-KeepsTable :
        (dcn : BatchDecision) (p : Pending) (c : CollectionConfig) (grant : ActiveGrant)
        (pk : String) (o : DecisionOutcome) (before after : Tables) (name : String)
        → IsCleared d e draw ctx located grants dcn p c grant pk
        → IsStep d e draw ctx located grants dcn p c grant pk o before after
        → KeepsTable name (dcn ∷ []) before after
    step-KeepsTable dcn p c grant pk o before after name k h =
        elim (Bool-cases (p.collection == name)) [ inl t ↦ here t | inr t ↦ elsewhere t ]
      where
        table :
            table_of name after ≡ (if p.collection == name then h.rows else table_of name before)
        table = step-table d e draw ctx located grants dcn p c grant pk o before after h name

        listed : of_collection name (lookup dcn.proposal_id located) ≡ (p.collection == name)
        listed = ap (of_collection name) k.found

        here : (p.collection == name) ≡ true → KeepsTable name (dcn ∷ []) before after
        here t =
            let settled =
              step-Settles d e draw ctx located grants dcn p c grant pk o before after h in
            let coll : p.collection ≡ name = ground (arith, eq_iff p.collection name) in
            let was : table_of p.collection before ≡ table_of name before =
              ap (λ n. table_of n before) coll in
            let is : table_of name after ≡ h.rows = table ∙ rw (t, if◌then◌else◌) refl in
            record {
              appended = settled.appended;
              history =
                  ap (map erased) is
                  ∙ settled.history
                  ∙ ap (λ rows. map erased rows ++ settled.appended) was;
              closed = λ r.
                  ap (any (is_open r)) is
                  ∙ settled.closed r
                  ∙ ap (λ rows. any (is_open r) rows && not (r == p.row.rev)) was
                  ∙ ap (λ x. any (is_open r) (table_of name before) && not (r == x))
                      (identified dcn.proposal_id p k.found)
                  ∙ ground (arith, listed);
            }

        elsewhere : (p.collection == name) ≡ false → KeepsTable name (dcn ∷ []) before after
        elsewhere t =
            let is : table_of name after ≡ table_of name before =
              table ∙ rw (t, if◌then◌else◌) refl in
            record {
              appended = [];
              history = ap (map erased) is ∙ sym (append-nil (map erased (table_of name before)));
              closed = λ r. ap (any (is_open r)) is ∙ ground (arith, listed);
            }

    -- A chain of decisions keeps every revision of every collection, in order and in every column but
    -- the mark of the current one and the status, appends to them, and of the pending proposals
    -- closes exactly those that it decides.
    pub Chain-KeepsTable :
        (name : String) (decisions : List BatchDecision) (os : List DecisionOutcome)
        (before after : Tables)
        → Chain d e draw ctx located grants decisions os before after
        → KeepsTable name decisions before after
    Chain-KeepsTable name _ _ before after (stop s) = record {
      appended = [];
      history = sym (append-nil (map erased (table_of name s)));
      closed = λ r. ground arith;
    }
    Chain-KeepsTable name _ _ before after (link dcn rest o os _ between _ (p, c, g, pk, k, h) m) =
        let one = step-KeepsTable dcn p c g pk o before between name k h in
        let more = Chain-KeepsTable name rest os between after m in
        record {
          appended = one.appended ++ more.appended;
          history =
              more.history
              ∙ ap (λ rows. rows ++ more.appended) one.history
              ∙ append_assoc (map erased (table_of name before)) one.appended more.appended;
          closed = λ r.
              more.closed r
              ∙ ap (λ b. b && not (decides name rest r)) (one.closed r)
              ∙ ground arith;
        }
