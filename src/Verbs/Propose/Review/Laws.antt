-- ===== src/Verbs/Propose/Review/Laws.antt =====
-- What a reviewer may see of a proposal.
use warehousd.Prelude.{
  String, ◌≡◌, refl, sym, ap, ◌∙◌, subst, Bool, true, not, ◌&&◌, ◌||◌, Option, none, some, [], ◌∷◌,
  lookup, keys, includes, includes-filter, is_some, by_test, arith,
}
use warehousd.Context.{Env, BrokerContext}
use warehousd.Config.{CollectionConfig, find_collection}
use warehousd.Config.Fields.{pk_of, masked_fields_for}
use warehousd.Value.{get}
use warehousd.Grants.Filters.{admits, validate_document_filters}
use warehousd.Grants.Eval.{ActiveGrant, Loaded, no_grant, granted, rebuild, load_active_grant}
use warehousd.Audit.{AuditWriter, AuditedAllow, recorded, unrecorded, Trail, allow}
use warehousd.Verbs.Guard.{VerbDeps}
use warehousd.Verbs.Mutate.Intent.{WriteDeps}
use warehousd.Verbs.Propose.Decision.{copy_columns}
use warehousd.Verbs.Propose.Decision.Laws.{keys-copy_columns, get-copy_columns}
use warehousd.Verbs.Propose.Tables.{Tables, Pending, load_pending_many}
use warehousd.Verbs.Propose.Tables.Laws.{IsLocated, load_pending_many-IsLocated}
use warehousd.Verbs.Propose.Apply.{op_name}
use warehousd.Verbs.Propose.Review.{
  ShownProposal, GetResult, shown, withheld, readable_fields, masked_for, clear_fields,
  shown_detail, show_recorded, show_keyed, show_granted, show_declared, show_located, get_proposal,
}

module _ (d : VerbDeps) (e : WriteDeps) (has_write_pool : Env → Bool) (w : AuditWriter)
    (ctx : BrokerContext) where
  -- The proposal is one of a declared collection, the caller's own active grant carries `read` and
  -- `approve` and admits the row, and each value shown is of a field of the grant that is not masked.
  pub record IsReviewed (located : Option Pending) (s : ShownProposal) : Type 0 where
    pub pending : Pending
    pub config : CollectionConfig
    pub grant : ActiveGrant
    pub found : located ≡ some pending
    pub declared : find_collection d.cfg pending.collection ≡ some config
    pub active :
        load_active_grant d.grants d.memberships d.now ctx pending.collection ≡ granted grant
    pub reads : includes grant.verbs "read" ≡ true
    pub approves : includes grant.verbs "approve" ≡ true
    pub admitted :
        admits e.platform pending.row.columns grant.document_filter grant.principals config ≡ true
    pub of_it : s.collection ≡ pending.collection
    pub clear :
        (f : String)
        → includes (keys s.values) f ≡ (
            (includes grant.allowed_fields f && includes (keys config.fields) f)
            && not (includes (masked_fields_for d.cfg pending.collection grant.unmasked_fields) f))
    pub values :
        (f : String)
        → includes (keys s.values) f ≡ true
        → get f s.values ≡ get f pending.row.columns
    pub titled :
        (s.proposed_by ≡ pending.row.by)
        × (s.op ≡ op_name pending.row.op)
        × (s.fields ≡ pending.row.fields)

  abbrev pub Reviews : Option Pending → GetResult → Type 0
  Reviews located (shown s) = IsReviewed located s
  Reviews located (withheld r) = Unit

  module _ (p : Pending) (c : CollectionConfig) (g : ActiveGrant)
      (declared : find_collection d.cfg p.collection ≡ some c)
      (active : load_active_grant d.grants d.memberships d.now ctx p.collection ≡ granted g)
      (reads : includes g.verbs "read" ≡ true) (approves : includes g.verbs "approve" ≡ true)
      (admitted : admits e.platform p.row.columns g.document_filter g.principals c ≡ true) where
    clear_fields-includes :
        (f : String)
        → includes
            (keys
              (copy_columns (clear_fields d e has_write_pool w ctx p.collection c g) p.row.columns))
            f
          ≡ ((includes g.allowed_fields f && includes (keys c.fields) f)
              && not (includes (masked_fields_for d.cfg p.collection g.unmasked_fields) f))
    clear_fields-includes f =
        let readable = readable_fields d e has_write_pool w ctx c g in
        let masked = masked_for d e has_write_pool w ctx p.collection g in
        ap (λ fs. includes fs f)
          (keys-copy_columns (clear_fields d e has_write_pool w ctx p.collection c g) p.row.columns)
        ∙ includes-filter (λ x. not (includes masked x)) readable f
        ∙ ap (λ b. b && not (includes masked f))
            (includes-filter (includes (keys c.fields)) g.allowed_fields f)

    show_recorded-Reviews :
        (pk : String) (o : AuditedAllow × Trail)
        → Reviews (some p) (show_recorded d e has_write_pool w ctx p c g pk o).0
    show_recorded-Reviews pk (unrecorded, trail) = tt
    show_recorded-Reviews pk (recorded id, trail) = record {
      pending = p;
      config = c;
      grant = g;
      found = refl;
      declared = declared;
      active = active;
      reads = reads;
      approves = approves;
      admitted = admitted;
      of_it = refl;
      clear = clear_fields-includes;
      values = λ f h.
          let clear = clear_fields d e has_write_pool w ctx p.collection c g in
          get-copy_columns clear p.row.columns f
            (sym (ap (λ fs. includes fs f) (keys-copy_columns clear p.row.columns)) ∙ h);
      titled = (refl, refl, refl);
    }

    show_keyed-Reviews :
        (o : Option String) (trail : Trail)
        → Reviews (some p) (show_keyed d e has_write_pool w ctx p c g o trail).0
    show_keyed-Reviews none trail = tt
    show_keyed-Reviews (some pk) trail =
        show_recorded-Reviews pk (
          allow w (some p.collection) (shown_detail d e has_write_pool w ctx p.collection c g)
            trail)

  show_granted-Reviews :
      (p : Pending) (c : CollectionConfig) (l : Loaded) (trail : Trail)
      → find_collection d.cfg p.collection ≡ some c
      → load_active_grant d.grants d.memberships d.now ctx p.collection ≡ l
      → Reviews (some p) (show_granted d e has_write_pool w ctx p c l trail).0
  show_granted-Reviews p c (rebuild id) trail f h = tt
  show_granted-Reviews p c no_grant trail f h = tt
  show_granted-Reviews p c (granted g) trail f h =
      let P : GetResult × Trail → Type 0 = λ x. Reviews (some p) x.0 in
      by_test P (not (includes g.verbs "read") || not (includes g.verbs "approve")) _ _ (λ _. tt)
        (λ v.
          by_test P (is_some (validate_document_filters e.platform g.document_filter c)) _ _
            (λ _. tt)
            (λ _.
              by_test P (not (admits e.platform p.row.columns g.document_filter g.principals c)) _ _
                (λ _. tt)
                (λ a.
                  show_keyed-Reviews p c g f h (ground arith) (ground arith) (ground arith)
                    (pk_of c) trail)))

  show_declared-Reviews :
      (p : Pending) (o : Option CollectionConfig) (trail : Trail)
      → find_collection d.cfg p.collection ≡ o
      → Reviews (some p) (show_declared d e has_write_pool w ctx p o trail).0
  show_declared-Reviews p none trail f = tt
  show_declared-Reviews p (some c) trail f =
      show_granted-Reviews p c (load_active_grant d.grants d.memberships d.now ctx p.collection)
        trail f refl

  show_located-Reviews :
      (o : Option Pending) (trail : Trail)
      → Reviews o (show_located d e has_write_pool w ctx o trail).0
  show_located-Reviews none trail = tt
  show_located-Reviews (some p) trail =
      show_declared-Reviews p (find_collection d.cfg p.collection) trail refl

  -- What is shown, and the pending proposal that was asked for.
  abbrev pub IsShown : Tables → String → GetResult → Type 0
  IsShown s proposal_id (withheld r) = Unit
  IsShown s proposal_id (shown x) =
      (p : Pending) × IsLocated d e ctx (proposal_id ∷ []) s proposal_id p × IsReviewed (some p) x

  Reviews-IsShown :
      (s : Tables) (proposal_id : String) (o : GetResult)
      → Reviews (lookup proposal_id (load_pending_many d e ctx s (proposal_id ∷ []))) o
      → IsShown s proposal_id o
  Reviews-IsShown s proposal_id (withheld r) h = tt
  Reviews-IsShown s proposal_id (shown x) h =
      let at = load_pending_many-IsLocated d e ctx (proposal_id ∷ []) s proposal_id h.pending in
      (h.pending, at h.found, subst (λ o. IsReviewed o x) h.found h)

  -- A proposal is shown only if it is pending in the caller's workspace, in the table of its
  -- collection, and the caller's own active grant on that collection carries `read` and `approve` and
  -- admits the row. The fields with a value are exactly the declared ones that the grant carries and
  -- that are not masked for it, each with the value in the row, under the proposer, the operation and
  -- the named fields of the row.
  pub get_proposal-Reviews :
      (s : Tables) (proposal_id : String) (trail : Trail)
      → IsShown s proposal_id (get_proposal d e has_write_pool w ctx s proposal_id trail).0
  unfolding get_proposal
  get_proposal-Reviews s proposal_id trail =
      let located = lookup proposal_id (load_pending_many d e ctx s (proposal_id ∷ [])) in
      Reviews-IsShown s proposal_id _ (
        by_test (λ (x : GetResult × Trail). Reviews located x.0) (not (has_write_pool ctx.env)) _ _
          (λ _. tt) (λ _. show_located-Reviews located trail))
