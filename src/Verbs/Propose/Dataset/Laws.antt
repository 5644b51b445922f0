-- ===== src/Verbs/Propose/Dataset/Laws.antt =====
-- What proposing does to the store: one pending revision more, or nothing.
use warehousd.Prelude.{
  String, ◌≡◌, refl, ap, ◌∙◌, Bool, true, false, Option, none, some, [], ◌∷◌, ◌++◌, find, arith,
  by_test,
}
use warehousd.Context.{Env, BrokerContext}
use warehousd.Config.{CollectionConfig}
use warehousd.Config.Fields.{pk_of}
use warehousd.Value.{Value, Document}
use warehousd.Grants.Eval.{ActiveGrant}
use warehousd.Revisions.{RevisionRow, RevisionTable, is_current_of, current_revision}
use warehousd.Audit.{AuditWriter, Trail}
use warehousd.Verbs.Mutate.Intent.{MutationIntent, values_of, Store, WriteDeps}
use warehousd.Verbs.Mutate.Dataset.{coerce_values}
use warehousd.Verbs.Propose.Dataset.Drafts.{pending_row, IsFounded, Parks, proposing-Parks}
use warehousd.Verbs.Propose.Dataset.{
  ProposeResult, parked, declined, Proposing, commits, throws, Draft, proposing, settle_transaction,
  on_coerced, on_pk, propose_dataset,
}

module _ (e : WriteDeps) (w : AuditWriter) (ctx : BrokerContext) (c : CollectionConfig)
    (grant : ActiveGrant) (intent : MutationIntent) where
  -- The same of an answer.
  abbrev pub Answers : (Draft → Type 0) → Store → ProposeResult × Store × Trail → Type 0
  Answers F before (parked rev audit_id, after, trail) =
      (d : Draft) × F d
      × (after.revisions ≡ before.revisions ++ pending_row e w ctx c grant intent d ∷ [])
  Answers F before (declined r, after, trail) = after ≡ before

  settle_transaction-Answers :
      (F : Draft → Type 0) (before : Store) (b : Proposing)
      → Parks e w ctx c grant intent F before b
      → Answers F before (settle_transaction e w ctx c grant intent before b)
  settle_transaction-Answers F before (commits (parked rev a) after trail) h = h
  settle_transaction-Answers F before (commits (declined r) after trail) h = h
  settle_transaction-Answers F before (throws trail) h = refl

  module _ (has_write_pool : Env → Bool) where
    -- The collection has a key, the values fit, the environment has a pool for writes, and the draft
    -- rests on what the transaction read.
    abbrev pub IsProposed : Store → Draft → Type 0
    IsProposed before d =
        (pk : String) × (coerced : Document) × (pk_of c ≡ some pk)
        × (coerce_values e c (values_of intent) ≡ some coerced)
        × (has_write_pool ctx.env ≡ true)
        × IsFounded e w ctx c grant intent intent pk coerced before d

    weaken :
        (F G : Draft → Type 0) (before : Store) (o : ProposeResult × Store × Trail)
        → ((d : Draft) → F d → G d)
        → Answers F before o
        → Answers G before o
    weaken F G before (parked rev a, after, trail) k (d, f, h) = (d, k d f, h)
    weaken F G before (declined r, after, trail) k h = h

    -- A proposal leaves every revision in the table and appends one pending revision of the caller,
    -- or it is declined and leaves the store as it was. What it appends rests on the state that the
    -- transaction read: a create on a key that is neither held nor proposed, an update or a delete
    -- on the current revision, admitted by the grant before and, for an update, after the change.
    pub propose_dataset_lem :
        (store : Store) (trail : Trail)
        → Answers
            (IsProposed store)
            store
            (propose_dataset e w ctx c grant intent has_write_pool store trail)
    unfolding propose_dataset
    propose_dataset_lem store trail = at_pk (pk_of c) refl
      where
        at_values :
            (pk : String)
            → pk_of c ≡ some pk
            → (o : Option Document) → coerce_values e c (values_of intent) ≡ o
            → Answers
                (IsProposed store)
                store
                (on_coerced e w ctx c grant intent has_write_pool pk o store trail)
        at_values pk k none h = refl
        at_values pk k (some coerced) h =
            by_test (Answers (IsProposed store) store) (has_write_pool ctx.env) _ _
              (λ p.
                weaken (IsFounded e w ctx c grant intent intent pk coerced store) (IsProposed store)
                  store _ (λ d f. (pk, coerced, k, h, p, f))
                  (settle_transaction-Answers
                    (IsFounded e w ctx c grant intent intent pk coerced store) store
                    (proposing e w ctx c grant intent intent pk coerced store trail)
                    (proposing-Parks e w ctx c grant intent intent pk coerced store trail refl)))
              (λ p. refl)

        at_pk :
            (o : Option String)
            → pk_of c ≡ o
            → Answers
                (IsProposed store)
                store
                (on_pk e w ctx c grant intent has_write_pool o store trail)
        at_pk none k = refl
        at_pk (some pk) k = at_values pk k (coerce_values e c (values_of intent)) refl

    find-snoc_none :
        (p : RevisionRow → Bool) (rows : RevisionTable) (r : RevisionRow)
        → p r ≡ false
        → find p (rows ++ r ∷ []) ≡ find p rows
    find-snoc_none p [] r h = ground arith
    find-snoc_none p (x ∷ rows) r h = ground (arith, find-snoc_none p rows r h)

    invisible :
        (pk ws : String) (id : Value) (F : Draft → Type 0) (before : Store)
        (o : ProposeResult × Store × Trail)
        → Answers F before o
        → current_revision e.same_key pk ws id o.1.revisions
          ≡ current_revision e.same_key pk ws id before.revisions
    unfolding current_revision
    invisible pk ws id F before (parked rev a, after, trail) (d, f, h) =
        ap (find (is_current_of e.same_key pk ws id)) h
        ∙ find-snoc_none (is_current_of e.same_key pk ws id) before.revisions
            (pending_row e w ctx c grant intent d) refl
    invisible pk ws id F before (declined r, after, trail) h =
        ap (λ (s : Store). find (is_current_of e.same_key pk ws id) s.revisions) h

    -- Whatever a proposal is answered, the current revision of each document, in each workspace and
    -- under each key, is the one that it was: a proposal is not seen before it is approved.
    pub propose_dataset_invisible :
        (store : Store) (trail : Trail) (pk ws : String) (id : Value)
        → current_revision e.same_key pk ws id
            (propose_dataset e w ctx c grant intent has_write_pool store trail).1.revisions
          ≡ current_revision e.same_key pk ws id store.revisions
    propose_dataset_invisible store trail pk ws id =
        invisible pk ws id (IsProposed store) store
          (propose_dataset e w ctx c grant intent has_write_pool store trail)
          (propose_dataset_lem store trail)
