-- ===== src/Verbs/Propose/Dataset/Drafts.antt =====
-- What a pending revision is made from, and that each branch of proposeDataset parks such a draft.
use warehousd.Prelude.{
  ◌+◌, String, ◌≡◌, ◌≢◌, refl, sym, ap, ◌∙◌, Bool, true, false, Option, none, some, List, [], ◌∷◌,
  ◌++◌, any, any-false, keys, arith, false≢true, eq_iff, ◌==◌, if◌then◌else◌,
}
use mathlib.Core.List.{Memᴰ}
use warehousd.Context.{BrokerContext}
use warehousd.Config.{CollectionConfig}
use warehousd.Value.{Scalar, one, Document, get}
use warehousd.Grants.Filters.{admits, admits_post_image}
use warehousd.Grants.Eval.{ActiveGrant}
use warehousd.Revisions.{
  RevisionOp, pending, RevisionRow, next_data_row, bound_columns, insert_revision, current_revision,
}
use warehousd.Audit.{AuditWriter, AuditedAllow, recorded, unrecorded, Trail}
use warehousd.Verbs.Mutate.Intent.{
  MutationIntent, create, update, delete, collection_of, Store, WriteDeps,
}
use warehousd.Verbs.Mutate.Dataset.{with_acl, with_id, is_undefined, is_delete, first_met}
use warehousd.Verbs.Propose.Dataset.{
  parked, declined, Proposing, commits, throws, Draft, unless_met, assert_parked, park, is_pending,
  is_clash, create_declines, revise_declines, revise_draft, propose_on, find_base, proposing,
}

module _ (e : WriteDeps) (w : AuditWriter) (ctx : BrokerContext) (c : CollectionConfig)
    (grant : ActiveGrant) (intent : MutationIntent) where
  -- The row that a draft becomes: pending, not current, and the caller's.
  abbrev pub pending_row : Draft → RevisionRow
  pending_row d = record {
    rev = e.new_rev;
    seq = d.seq;
    by = ctx.user_id;
    op = d.op;
    status = pending;
    fields = d.fields;
    base = d.base;
    current = false;
    workspace_id = ctx.workspace_id;
    columns = bound_columns c d.columns;
  }

  -- A draft of a new document, under a key that no revision holds or is proposed for.
  pub record IsNew (pk : String) (made : Document) (before : Store) (d : Draft) : Type 0 where
    pub is_draft : d ≡ record {
      seq = 1;
      op = RevisionOp.create;
      fields = keys made;
      base = none;
      columns = made;
    }
    pub keyed : get pk made ≢ one Scalar.undefined
    pub admitted :
        admits_post_image e.platform (next_data_row c none made) grant.document_filter c ≡ true
    pub free :
        (r : RevisionRow)
        → Memᴰ r before.revisions
        → r.workspace_id ≡ ctx.workspace_id
        → e.same_key (get pk r.columns) (get pk made) ≡ true
        → (r.current ≡ false) × (r.status ≢ pending)

  -- A draft on top of the current revision, which the grant admits.
  pub record IsOnTop (op : RevisionOp) (fields : List String) (pk id : String) (coerced : Document)
      (before : Store) (d : Draft) : Type 0 where
    pub current : RevisionRow
    pub read :
        current_revision e.same_key pk ctx.workspace_id (one (Scalar.str id)) before.revisions
        ≡ some current
    pub admitted :
        admits e.platform
          (with_acl e ctx.workspace_id (collection_of intent) c pk current)
          grant.document_filter
          grant.principals
          c
        ≡ true
    pub is_draft : d ≡ record {
      seq = current.seq + 1;
      op = op;
      fields = fields;
      base = some current.seq;
      columns = next_data_row c (some current.columns) coerced;
    }

  -- What a draft rests on.
  abbrev pub IsFounded : MutationIntent → String → Document → Store → Draft → Type 0
  IsFounded (create _ _) pk coerced before d =
      IsNew pk (with_id e w ctx c grant intent pk coerced) before d
  IsFounded (update _ id _ _) pk coerced before d =
      IsOnTop RevisionOp.update (keys coerced) pk id coerced before d
      × (admits_post_image e.platform d.columns grant.document_filter c ≡ true)
  IsFounded (delete _ id _) pk coerced before d =
      IsOnTop RevisionOp.delete [] pk id coerced before d

  -- One pending revision more, made from a draft that satisfies `F`, or the store as it was.
  abbrev pub Parks : (Draft → Type 0) → Store → Proposing → Type 0
  Parks F before (commits (parked rev audit_id) after trail) =
      (d : Draft) × F d × (after.revisions ≡ before.revisions ++ pending_row d ∷ [])
  Parks F before (commits (declined r) after trail) = after ≡ before
  Parks F before (throws trail) = Unit

  module _ (F : Draft → Type 0) where
    assert_parked-Parks :
        (before after : Store) (d : Draft) (o : AuditedAllow × Trail)
        → F d
        → after.revisions ≡ before.revisions ++ pending_row d ∷ []
        → Parks F before (assert_parked e w ctx c grant intent after o)
    assert_parked-Parks before after d (recorded a, trail) f h = (d, f, h)
    assert_parked-Parks before after d (unrecorded, trail) f h = tt

    park-Parks :
        (pk id : String) (d : Draft) (store : Store) (trail : Trail)
        → F d
        → Parks F store (park e w ctx c grant intent pk id d store trail)
    unfolding insert_revision
    park-Parks pk id d store trail f = assert_parked-Parks store _ d _ f refl

    unless_met-Parks :
        (o : Option String) (store : Store) (trail : Trail) (next : Proposing)
        → (o ≡ none → Parks F store next)
        → Parks F store (unless_met e w ctx c grant intent o store trail next)
    unless_met-Parks none store trail next h = h refl
    unless_met-Parks (some why) store trail next h = refl

  is_clash-free :
      (pk : String) (made : Document) (rows : List RevisionRow)
      → any (is_clash e w ctx c grant intent pk (get pk made)) rows ≡ false
      → (r : RevisionRow) → Memᴰ r rows
      → r.workspace_id ≡ ctx.workspace_id
      → e.same_key (get pk r.columns) (get pk made) ≡ true
      → (r.current ≡ false) × (r.status ≢ pending)
  is_clash-free pk made rows h r m place key =
      let off : is_clash e w ctx c grant intent pk (get pk made) r ≡ false =
        any-false (is_clash e w ctx c grant intent pk (get pk made)) rows r h m in
      let here : (r.workspace_id == ctx.workspace_id) ≡ true =
        ground (arith, eq_iff r.workspace_id ctx.workspace_id) in
      (ground arith, λ p. false≢true (sym (quiet off here) ∙ ap is_pending p))
    where
      quiet :
          is_clash e w ctx c grant intent pk (get pk made) r ≡ false
          → (r.workspace_id == ctx.workspace_id) ≡ true
          → is_pending r.status ≡ false
      quiet off here = ground arith

  -- What declines a revision, when nothing does.
  unmet :
      (pk : String) (coerced : Document) (current : RevisionRow)
      → first_met (revise_declines e w ctx c grant intent pk coerced current) ≡ none
      → (admits e.platform
            (with_acl e ctx.workspace_id (collection_of intent) c pk current)
            grant.document_filter
            grant.principals
            c
          ≡ true)
        × (is_delete intent ≡ false
            → admits_post_image e.platform
                (next_data_row c (some current.columns) coerced)
                grant.document_filter
                c
              ≡ true)
  unmet pk coerced current h = (ground arith, λ k. ground arith)

  propose_on-Parks :
      (F : Draft → Type 0) (pk id : String) (coerced : Document) (store : Store) (trail : Trail)
      (o : Option RevisionRow)
      → ((current : RevisionRow)
          → o ≡ some current
          → first_met (revise_declines e w ctx c grant intent pk coerced current) ≡ none
          → F (revise_draft e w ctx c grant intent coerced current))
      → Parks F store (propose_on e w ctx c grant intent pk id coerced o store trail)
  propose_on-Parks F pk id coerced store trail none k = refl
  propose_on-Parks F pk id coerced store trail (some current) k =
      unless_met-Parks F (first_met (revise_declines e w ctx c grant intent pk coerced current))
        store trail _ (λ h. park-Parks F pk id _ store trail (k current refl h))

  pub proposing-Parks :
      (i : MutationIntent) (pk : String) (coerced : Document) (store : Store) (trail : Trail)
      → intent ≡ i
      → Parks
          (IsFounded i pk coerced store)
          store
          (proposing e w ctx c grant intent i pk coerced store trail)
  proposing-Parks (create _ _) pk coerced store trail same =
      let made = with_id e w ctx c grant intent pk coerced in
      unless_met-Parks _ (first_met (create_declines e w ctx c grant intent pk made store)) store
        trail _
        (λ h. park-Parks _ pk _ _ store trail (record {
          is_draft = refl;
          keyed = λ k. false≢true (sym (stated made pk h) ∙ ap is_undefined k);
          admitted = ground arith;
          free = is_clash-free pk made store.revisions (ground arith);
        }))
    where
      stated :
          (made : Document) (key : String)
          → first_met (create_declines e w ctx c grant intent key made store) ≡ none
          → is_undefined (get key made) ≡ false
      stated made key h = ground arith
  proposing-Parks (update n id expect vs) pk coerced store trail same =
      let kept : is_delete intent ≡ false = ap is_delete same in
      propose_on-Parks _ pk id coerced store trail (find_base e w ctx c grant intent pk id store)
        (λ current f h.
          let (seen, after) = unmet pk coerced current h in
          (
            record {
              current = current;
              read = f;
              admitted = seen;
              is_draft =
                  ap
                    (λ (b : Bool). record {
                      seq = current.seq + 1;
                      op = if b then RevisionOp.delete else RevisionOp.update;
                      fields = if b then [] else keys coerced;
                      base = some current.seq;
                      columns = next_data_row c (some current.columns) coerced;
                    })
                    kept;
            },
            after kept,
          ))
  proposing-Parks (delete n id expect) pk coerced store trail same =
      let gone : is_delete intent ≡ true = ap is_delete same in
      propose_on-Parks _ pk id coerced store trail (find_base e w ctx c grant intent pk id store)
        (λ current f h. record {
          current = current;
          read = f;
          admitted = (unmet pk coerced current h).0;
          is_draft =
              ap
                (λ (b : Bool). record {
                  seq = current.seq + 1;
                  op = if b then RevisionOp.delete else RevisionOp.update;
                  fields = if b then [] else keys coerced;
                  base = some current.seq;
                  columns = next_data_row c (some current.columns) coerced;
                })
                gone;
        })
