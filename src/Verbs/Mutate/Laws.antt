-- ===== src/Verbs/Mutate/Laws.antt =====
-- What a write that is answered as applied has established.
use warehousd.Prelude.{String, ◌≡◌, refl, true, false, Option, none, some, List, any, arith}
use warehousd.Context.{BrokerContext}
use warehousd.Config.{CollectionConfig}
use warehousd.Config.Fields.{pk_of}
use warehousd.Value.{Document, get}
use warehousd.Grants.Filters.{admits, admits_post_image}
use warehousd.Grants.Eval.{ActiveGrant}
use warehousd.Revisions.{
  RevisionRow, RevisionTable, next_data_row, is_current_of, insert_revision, revise_document,
}
use warehousd.Audit.{AuditWriter, AuditedAllow, recorded, unrecorded, Trail}
use warehousd.Verbs.Mutate.Intent.{
  MutationIntent, create, update, delete, Store, WriteDeps, applied, refused, values_of,
  collection_of,
}
use warehousd.Verbs.Mutate.Dataset.{
  Body, commits, throws, coerce_values, with_acl, stale, is_delete, first_met, asserted,
  record_write, unless, create_refusals, create_document, with_id, first_revision, revise_refusals,
  revision_by, on_current, find_current, body_of, in_transaction, on_coerced, on_pk, mutate_dataset,
}

-- A statement about the store of a body that ends in an applied write.
abbrev pub Holds : (Store → Type 0) → Body → Type 0
Holds Q (commits (applied id rev audit_id) after trail) = Q after
Holds Q (commits (refused r) after trail) = Unit
Holds Q (throws trail) = Unit

module _ (e : WriteDeps) (w : AuditWriter) (ctx : BrokerContext) (c : CollectionConfig)
    (grant : ActiveGrant) (intent : MutationIntent) where
  -- A create: the document that it makes passes the grant's filters, no current revision had its
  -- key, and its revision is the only change to the revisions.
  pub record IsCreated (pk : String) (coerced : Document) (before after : Store) : Type 0 where
    pub post_admitted :
        admits_post_image e.platform (next_data_row c none coerced) grant.document_filter c ≡ true
    pub free :
        any (is_current_of e.same_key pk ctx.workspace_id (get pk coerced)) before.revisions ≡ false
    pub inserted :
        insert_revision e.same_key pk c
          (first_revision e w ctx c grant intent coerced)
          before.revisions
        ≡ some after.revisions

  -- An update or a delete: the current revision was found and is admitted by the filters and the
  -- access list, what an update makes of it passes the filters, the caller had seen it, and its
  -- successor is the only change to the revisions.
  pub record IsRevised (pk id : String) (expect : Option String) (coerced : Document)
      (before after : Store) (current : RevisionRow) : Type 0 where
    pub found : find_current e w ctx c grant intent pk id before ≡ some current
    pub admitted :
        admits e.platform
          (with_acl e ctx.workspace_id (collection_of intent) c pk current)
          grant.document_filter
          grant.principals
          c
        ≡ true
    pub post_admitted :
        is_delete intent ≡ false
        → admits_post_image e.platform
            (next_data_row c (some current.columns) coerced)
            grant.document_filter
            c
          ≡ true
    pub seen : stale expect current.rev ≡ false
    pub succeeded :
        revise_document e.same_key pk c e.new_rev current coerced
          (revision_by e w ctx c grant intent)
          before.revisions
        ≡ some after.revisions

  abbrev pub IsApplied : MutationIntent → String → Document → Store → Store → Type 0
  IsApplied (create _ _) pk coerced before after =
      IsCreated pk (with_id e w ctx c grant intent pk coerced) before after
  IsApplied (update _ id expect _) pk coerced before after =
      (current : RevisionRow) × IsRevised pk id expect coerced before after current
  IsApplied (delete _ id expect) pk coerced before after =
      (current : RevisionRow) × IsRevised pk id expect coerced before after current

  asserted-Holds :
      (Q : Store → Type 0) (id : String) (after : Store) (o : AuditedAllow × Trail)
      → Q after
      → Holds Q (asserted e w ctx c grant intent id after o)
  asserted-Holds Q id after (recorded a, trail) h = h
  asserted-Holds Q id after (unrecorded, trail) h = tt

  record_write-Holds :
      (Q : Store → Type 0) (id : String) (fields : List String) (o : Option RevisionTable)
      (store : Store) (trail : Trail)
      → ((after : Store) → o ≡ some after.revisions → Q after)
      → Holds Q (record_write e w ctx c grant intent id fields o store trail)
  record_write-Holds Q id fields none store trail h = tt
  record_write-Holds Q id fields (some rows) store trail h = asserted-Holds Q id _ _ (h _ refl)

  unless-Holds :
      (Q : Store → Type 0) (o : Option String) (store : Store) (trail : Trail) (next : Body)
      → (o ≡ none → Holds Q next)
      → Holds Q (unless e w ctx c grant intent o store trail next)
  unless-Holds Q none store trail next h = h refl
  unless-Holds Q (some why) store trail next h = tt

  create_document-Holds :
      (pk : String) (coerced : Document) (store : Store) (trail : Trail)
      → Holds
          (IsCreated pk coerced store)
          (create_document e w ctx c grant intent pk coerced store trail)
  create_document-Holds pk coerced store trail =
      let refusals = create_refusals e w ctx c grant intent pk coerced store in
      unless-Holds (IsCreated pk coerced store) (first_met refusals) store trail _ (λ met.
        record_write-Holds (IsCreated pk coerced store) _ _ _ store trail
          (λ after i. record { post_admitted = ground arith; free = ground arith; inserted = i }))

  on_current-Holds :
      (pk id : String) (expect : Option String) (coerced : Document) (o : Option RevisionRow)
      (store : Store) (trail : Trail)
      → find_current e w ctx c grant intent pk id store ≡ o
      → Holds
          (λ after. (current : RevisionRow) × IsRevised pk id expect coerced store after current)
          (on_current e w ctx c grant intent pk id expect coerced o store trail)
  on_current-Holds pk id expect coerced none store trail f = tt
  on_current-Holds pk id expect coerced (some current) store trail f =
      let Q : Store → Type 0 =
        λ after. (r : RevisionRow) × IsRevised pk id expect coerced store after r in
      unless-Holds Q (first_met (revise_refusals e w ctx c grant intent pk expect coerced current))
        store trail _
        (λ met. record_write-Holds Q _ _ _ store trail (λ after i. (
          current,
          record {
            found = f;
            admitted = ground arith;
            post_admitted = λ d. ground arith;
            seen = ground arith;
            succeeded = i;
          },
        )))

  body_of-Holds :
      (i : MutationIntent) (pk : String) (coerced : Document) (store : Store) (trail : Trail)
      → Holds
          (IsApplied i pk coerced store)
          (body_of e w ctx c grant intent i pk coerced store trail)
  body_of-Holds (create _ _) pk coerced store trail =
      create_document-Holds pk (with_id e w ctx c grant intent pk coerced) store trail
  body_of-Holds (update _ id expect _) pk coerced store trail =
      on_current-Holds pk id expect coerced _ store trail refl
  body_of-Holds (delete _ id expect) pk coerced store trail =
      on_current-Holds pk id expect coerced _ store trail refl

  in_transaction-Holds :
      (Q : Store → Type 0) (before : Store) (b : Body) (id rev : String) (a : Option String)
      → Holds Q b
      → (in_transaction e w ctx c grant intent before b).0 ≡ applied id rev a
      → Q (in_transaction e w ctx c grant intent before b).1
  in_transaction-Holds Q before (commits (refused _) after trail) id rev a h k = absurd (cc)
  in_transaction-Holds Q before (commits (applied _ _ _) after trail) id rev a h k = h
  in_transaction-Holds Q before (throws trail) id rev a h k = absurd (cc)

  -- A write that is answered as applied had a declared key and values that fit their fields; a
  -- create made a document within the grant's filters under a free key; an update or a delete
  -- found the current revision within the filters and the access list, kept an updated document
  -- within the filters, and did not overwrite a revision that the caller had not seen. Its own
  -- revision is the only change to the revisions.
  pub mutate_dataset-applied :
      (store : Store) (trail : Trail) (id rev : String) (a : Option String)
      → (mutate_dataset e w ctx c grant intent store trail).0 ≡ applied id rev a
      → (pk : String) × (coerced : Document) × (pk_of c ≡ some pk)
        × (coerce_values e c (values_of intent) ≡ some coerced)
        × IsApplied intent pk coerced store (mutate_dataset e w ctx c grant intent store trail).1
  unfolding mutate_dataset
  mutate_dataset-applied store trail id rev a h = at_pk (pk_of c) refl h
    where
      at_values :
          (pk : String) (o : Option Document)
          → pk_of c ≡ some pk
          → coerce_values e c (values_of intent) ≡ o
          → (on_coerced e w ctx c grant intent pk o store trail).0 ≡ applied id rev a
          → (p : String) × (coerced : Document) × (pk_of c ≡ some p)
            × (coerce_values e c (values_of intent) ≡ some coerced)
            × IsApplied intent p coerced store
                (on_coerced e w ctx c grant intent pk o store trail).1
      at_values pk none p v k = absurd (cc)
      at_values pk (some coerced) p v k = (
        pk,
        coerced,
        p,
        v,
        in_transaction-Holds (IsApplied intent pk coerced store) store
            (body_of e w ctx c grant intent intent pk coerced store trail) id rev a
            (body_of-Holds intent pk coerced store trail) k,
      )

      at_pk :
          (o : Option String)
          → pk_of c ≡ o
          → (on_pk e w ctx c grant intent o store trail).0 ≡ applied id rev a
          → (p : String) × (coerced : Document) × (pk_of c ≡ some p)
            × (coerce_values e c (values_of intent) ≡ some coerced)
            × IsApplied intent p coerced store (on_pk e w ctx c grant intent o store trail).1
      at_pk none p k = absurd (cc)
      at_pk (some pk) p k = at_values pk (coerce_values e c (values_of intent)) p refl k
