-- ===== src/Verbs/Mutate/Atomic.antt =====
-- A write that is refused leaves the data as it was.
use warehousd.Prelude.{String, ◌≡◌, refl, Option, none, some, List}
use warehousd.Context.{BrokerContext}
use warehousd.Config.{CollectionConfig}
use warehousd.Config.Fields.{pk_of}
use warehousd.Value.{Document}
use warehousd.Grants.Eval.{ActiveGrant}
use warehousd.Revisions.{RevisionRow, RevisionTable}
use warehousd.Audit.{AuditWriter, AuditedAllow, recorded, unrecorded, AuditedRefusal, Trail}
use warehousd.Verbs.Mutate.Intent.{
  MutationIntent, create, update, delete, Store, WriteDeps, applied, refused, values_of,
}
use warehousd.Verbs.Mutate.Dataset.{
  Body, commits, throws, coerce_values, asserted, record_write, create_document, create_refusals,
  revise_refusals, first_met, unless, on_current, body_of, with_id, in_transaction, on_coerced,
  on_pk, mutate_dataset,
}

-- What a body that ends in a refusal leaves.
abbrev pub Clean : Store → Body → Type 0
Clean before (commits (refused r) after trail) = after ≡ before
Clean before (commits (applied id rev audit_id) after trail) = Unit
Clean before (throws trail) = Unit

module _ (e : WriteDeps) (w : AuditWriter) (ctx : BrokerContext) (c : CollectionConfig)
    (grant : ActiveGrant) (intent : MutationIntent) where
  asserted-Clean :
      (before after : Store) (id : String) (o : AuditedAllow × Trail)
      → Clean before (asserted e w ctx c grant intent id after o)
  asserted-Clean before after id (recorded a, trail) = tt
  asserted-Clean before after id (unrecorded, trail) = tt

  record_write-Clean :
      (id : String) (fields : List String) (o : Option RevisionTable) (store : Store)
      (trail : Trail)
      → Clean store (record_write e w ctx c grant intent id fields o store trail)
  record_write-Clean id fields none store trail = tt
  record_write-Clean id fields (some rows) store trail = asserted-Clean store _ id _

  unless-Clean :
      (o : Option String) (store : Store) (trail : Trail) (next : Body)
      → Clean store next
      → Clean store (unless e w ctx c grant intent o store trail next)
  unless-Clean none store trail next h = h
  unless-Clean (some why) store trail next h = refl

  create_document-Clean :
      (pk : String) (coerced : Document) (store : Store) (trail : Trail)
      → Clean store (create_document e w ctx c grant intent pk coerced store trail)
  create_document-Clean pk coerced store trail =
      unless-Clean (first_met (create_refusals e w ctx c grant intent pk coerced store)) store trail
        _ (record_write-Clean _ _ _ store trail)

  on_current-Clean :
      (pk id : String) (expect : Option String) (coerced : Document) (o : Option RevisionRow)
      (store : Store) (trail : Trail)
      → Clean store (on_current e w ctx c grant intent pk id expect coerced o store trail)
  on_current-Clean pk id expect coerced none store trail = refl
  on_current-Clean pk id expect coerced (some current) store trail =
      unless-Clean (first_met (revise_refusals e w ctx c grant intent pk expect coerced current))
        store trail _ (record_write-Clean _ _ _ store trail)

  body_of-Clean :
      (i : MutationIntent) (pk : String) (coerced : Document) (store : Store) (trail : Trail)
      → Clean store (body_of e w ctx c grant intent i pk coerced store trail)
  body_of-Clean (create _ _) pk coerced store trail =
      create_document-Clean pk (with_id e w ctx c grant intent pk coerced) store trail
  body_of-Clean (update _ id expect _) pk coerced store trail =
      on_current-Clean pk id expect coerced _ store trail
  body_of-Clean (delete _ id expect) pk coerced store trail =
      on_current-Clean pk id expect coerced _ store trail

  in_transaction-Clean :
      (before : Store) (b : Body) (r : AuditedRefusal)
      → Clean before b
      → (in_transaction e w ctx c grant intent before b).0 ≡ refused r
      → (in_transaction e w ctx c grant intent before b).1 ≡ before
  in_transaction-Clean before (commits (refused _) after trail) r h k = h
  in_transaction-Clean before (commits (applied _ _ _) after trail) r h k = absurd (cc)
  in_transaction-Clean before (throws trail) r h k = refl

  -- A write that is answered with a refusal, for whichever reason and at whichever point, leaves
  -- the revisions and the change log as they were: also where the revision was written and the
  -- audit trail then did not take the decision.
  pub mutate_dataset-refused :
      (store : Store) (trail : Trail) (r : AuditedRefusal)
      → (mutate_dataset e w ctx c grant intent store trail).0 ≡ refused r
      → (mutate_dataset e w ctx c grant intent store trail).1 ≡ store
  unfolding mutate_dataset
  mutate_dataset-refused store trail r h = at_pk (pk_of c) h
    where
      at_values :
          (pk : String) (o : Option Document)
          → (on_coerced e w ctx c grant intent pk o store trail).0 ≡ refused r
          → (on_coerced e w ctx c grant intent pk o store trail).1 ≡ store
      at_values pk none k = refl
      at_values pk (some coerced) k =
          in_transaction-Clean store (body_of e w ctx c grant intent intent pk coerced store trail)
            r (body_of-Clean intent pk coerced store trail) k

      at_pk :
          (o : Option String)
          → (on_pk e w ctx c grant intent o store trail).0 ≡ refused r
          → (on_pk e w ctx c grant intent o store trail).1 ≡ store
      at_pk none k = refl
      at_pk (some pk) k = at_values pk (coerce_values e c (values_of intent)) k
