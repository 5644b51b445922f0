-- ===== src/Verbs/History/Laws.antt =====
-- What a reader of history is shown.
use warehousd.Prelude.{
  String, ◌≡◌, refl, sym, ap, ◌∙◌, subst, inl, inr, Bool, true, false, not, ◌&&◌, Option, none,
  some, List, [], ◌∷◌, keys, lookup, includes, includes-filter, is_some, is_empty, all,
  if◌then◌else◌, ◌==◌, by_test, either_way, arith, eq_iff, Bool-cases,
}
use warehousd.Context.{Env, BrokerContext}
use warehousd.Config.{MaskConfig, FieldConfig, CollectionConfig, find_collection}
use warehousd.Config.Fields.{pk_of, data_cols_of, masked_fields_for}
use warehousd.Value.{Value, Document, get}
use warehousd.Grants.Filters.{validate_document_filters}
use warehousd.Grants.Eval.{ActiveGrant, Loaded, no_grant, granted, rebuild, load_active_grant}
use warehousd.Revisions.{RevisionRow}
use warehousd.Audit.{AuditWriter, AuditedAllow, recorded, unrecorded, Trail, allow}
use warehousd.Verbs.Guard.{VerbDeps, MaskPlan, mask_plan}
use warehousd.Verbs.Mutate.Intent.{WriteDeps}
use warehousd.Verbs.Propose.Tables.{Tables}
use warehousd.Verbs.History.{
  Opened, opened, closed, raises, HistoryResult, answered, turned_away, raised, RevisionDocument,
  missing_verb, open_keyed, open_granted, open_declared, resolve_history_grant, admits_document,
  on_recorded, with_history,
}
use warehousd.Verbs.History.Reach.{IsHeld, is_held-IsHeld, IsReached, admits_document-IsReached}
use warehousd.Verbs.History.Read.{
  masked_value, project, stored_fields, plan_of, returned, show_revision, find_held, revision_of,
  get_revision,
}

-- A statement about an answer.
abbrev pub Tells : {A : Type 0} → (A → Type 0) → HistoryResult A → Type 0
Tells P (answered a) = P a
Tells P (turned_away r) = Unit
Tells P raised = Unit

module _ (d : VerbDeps) (e : WriteDeps) (transform : MaskConfig → Value → Value)
    (same_json : Value → Value → Bool) (has_write_pool : Env → Bool) (w : AuditWriter)
    (ctx : BrokerContext) where
  module _ {A : Type 0} (P : A → Type 0) where
    on_recorded-Tells :
        (a : A) (o : AuditedAllow × Trail)
        → P a
        → Tells P (on_recorded d e transform same_json has_write_pool w ctx a o).0
    on_recorded-Tells a (recorded id, trail) h = h
    on_recorded-Tells a (unrecorded, trail) h = tt

    with_history-Tells :
        (name : String) (trail : Trail)
        (next : CollectionConfig → ActiveGrant → String → HistoryResult A × Trail) (o : Opened)
        → ((c : CollectionConfig) (g : ActiveGrant) (pk : String)
            → o ≡ opened c g pk
            → Tells P (next c g pk).0)
        → Tells P (with_history d e transform same_json has_write_pool w ctx name trail next o).0
    with_history-Tells name trail next (opened c g pk) h = h c g pk refl
    with_history-Tells name trail next (closed why g) h = tt
    with_history-Tells name trail next raises h = tt

  -- A writable collection with a key, the caller's own active grant on it with each of the verbs, and
  -- filters that can be evaluated.
  pub record IsReader (name : String) (verbs : List String) (c : CollectionConfig) (g : ActiveGrant)
      (pk : String) : Type 0 where
    pub declared : find_collection d.cfg name ≡ some c
    pub open_to_writes : c.writable ≡ true
    pub active : load_active_grant d.grants d.memberships d.now ctx name ≡ granted g
    pub carries : all (includes g.verbs) verbs ≡ true
    pub evaluable : is_some (validate_document_filters e.platform g.document_filter c) ≡ false
    pub keyed : pk_of c ≡ some pk

  abbrev pub Opens : String → List String → Opened → Type 0
  Opens name verbs (opened c g pk) = IsReader name verbs c g pk
  Opens name verbs (closed why g) = Unit
  Opens name verbs raises = Unit

  -- A missing verb closes, and without one each verb is carried.
  abbrev Misses : ActiveGrant → List String → Option Opened → Type 0
  Misses g verbs none = all (includes g.verbs) verbs ≡ true
  Misses g verbs (some (opened c h pk)) = ⊥
  Misses g verbs (some (closed why h)) = Unit
  Misses g verbs (some raises) = Unit

  missing_verb-Misses :
      (g : ActiveGrant) (verbs : List String)
      → Misses g verbs (missing_verb d e transform same_json has_write_pool w ctx g verbs)
  missing_verb-Misses g [] = refl
  missing_verb-Misses g (v ∷ verbs) =
      by_test (Misses g (v ∷ verbs)) (includes g.verbs v) _ _
        (λ t.
          more t (missing_verb d e transform same_json has_write_pool w ctx g verbs)
            (missing_verb-Misses g verbs))
        (λ _. either_way (Misses g (v ∷ verbs)) (v == "read") _ _ tt tt)
    where
      more :
          includes g.verbs v ≡ true
          → (o : Option Opened) → Misses g verbs o
          → Misses g (v ∷ verbs) o
      more t none h = ground arith
      more t (some (opened c k pk)) h = h
      more t (some (closed why k)) h = tt
      more t (some raises) h = tt

  open_granted-Opens :
      (name : String) (verbs : List String) (c : CollectionConfig) (l : Loaded)
      → find_collection d.cfg name ≡ some c
      → c.writable ≡ true
      → load_active_grant d.grants d.memberships d.now ctx name ≡ l
      → Opens name verbs (open_granted d e transform same_json has_write_pool w ctx c verbs l)
  open_granted-Opens name verbs c no_grant f k h = tt
  open_granted-Opens name verbs c (rebuild id) f k h = tt
  open_granted-Opens name verbs c (granted g) f k h =
      at_verbs (missing_verb d e transform same_json has_write_pool w ctx g verbs)
        (missing_verb-Misses g verbs)
    where
      at_key :
          all (includes g.verbs) verbs ≡ true
          → is_some (validate_document_filters e.platform g.document_filter c) ≡ false
          → (o : Option String) → pk_of c ≡ o
          → Opens name verbs (open_keyed d e transform same_json has_write_pool w ctx c g o)
      at_key r v none q = tt
      at_key r v (some pk) q = record {
        declared = f;
        open_to_writes = k;
        active = h;
        carries = r;
        evaluable = v;
        keyed = q;
      }

      at_verbs :
          (o : Option Opened)
          → Misses g verbs o
          → Opens name verbs (elim o [
            | some x ↦ x
            | none ↦
                if is_some (validate_document_filters e.platform g.document_filter c)
                then closed "invalid_intent" (some g)
                else open_keyed d e transform same_json has_write_pool w ctx c g (pk_of c)
          ])
      at_verbs (some (opened c' h' pk)) r = absurd r
      at_verbs (some (closed why h')) r = tt
      at_verbs (some raises) r = tt
      at_verbs none r =
          by_test (Opens name verbs)
            (is_some (validate_document_filters e.platform g.document_filter c)) _ _ (λ _. tt)
            (λ v. at_key r v (pk_of c) refl)

  pub resolve_history_grant-Opens :
      (name : String) (verbs : List String)
      → Opens name verbs
          (resolve_history_grant d e transform same_json has_write_pool w ctx name verbs)
  unfolding resolve_history_grant
  resolve_history_grant-Opens name verbs = at_config (find_collection d.cfg name) refl
    where
      at_config :
          (o : Option CollectionConfig)
          → find_collection d.cfg name ≡ o
          → Opens name verbs
              (open_declared d e transform same_json has_write_pool w ctx name verbs o)
      at_config none f = tt
      at_config (some c) f =
          by_test (Opens name verbs) (not c.writable) _ _ (λ _. tt)
            (λ k. either_way (Opens name verbs) (not (has_write_pool ctx.env)) _ _ tt (
              open_granted-Opens name verbs c
                (load_active_grant d.grants d.memberships d.now ctx name) f (ground arith) refl))

  unmasked :
      (plan : MaskPlan) (row : Document) (f : String)
      → plan.mask_for f ≡ none
      → masked_value d e transform same_json has_write_pool w ctx plan row f ≡ get f row
  unmasked plan row f h = rw (h, masked_value) refl

  masked_by :
      (plan : MaskPlan) (row : Document) (f : String) (m : MaskConfig)
      → plan.mask_for f ≡ some m
      → masked_value d e transform same_json has_write_pool w ctx plan row f
        ≡ transform m (get f row)
  masked_by plan row f m h = rw (h, masked_value) refl

  keys-project :
      (plan : MaskPlan) (row : Document) (fs : List String)
      → keys (project d e transform same_json has_write_pool w ctx plan row fs) ≡ fs
  unfolding project
  keys-project plan row [] = refl
  keys-project plan row (f ∷ fs) = ap (λ xs. f ∷ xs) (keys-project plan row fs)

  get-project :
      (plan : MaskPlan) (row : Document) (fs : List String) (f : String)
      → includes fs f ≡ true
      → get f (project d e transform same_json has_write_pool w ctx plan row fs)
        ≡ masked_value d e transform same_json has_write_pool w ctx plan row f
  unfolding project
  get-project plan row [] f h = absurd (cc)
  get-project plan row (g ∷ fs) f h = elim (Bool-cases (g == f)) [
    | inl t ↦
        let same : g ≡ f = ground (arith, eq_iff g f) in
        rw (t, if◌then◌else◌)
          (ap (masked_value d e transform same_json has_write_pool w ctx plan row) same)
    | inr t ↦ rw (t, if◌then◌else◌) (get-project plan row fs f (ground arith))
  ]

  -- What a shown revision rests on.
  pub record IsDisclosed (s : Tables) (name id rev : String) (x : RevisionDocument) : Type 0 where
    pub config : CollectionConfig
    pub grant : ActiveGrant
    pub pk : String
    pub stored : RevisionRow
    pub reader : IsReader name ("read" ∷ []) config grant pk
    pub reached : IsReached d e transform same_json has_write_pool w ctx s name config grant pk id
    pub held : IsHeld d e transform same_json has_write_pool w ctx s name pk id stored
    pub named : (stored.rev ≡ rev) × (x.rev ≡ rev)
    pub fields :
        (f : String)
        → includes (keys x.document) f
          ≡ (includes grant.allowed_fields f && includes (data_cols_of config) f)
    pub clear :
        (f : String)
        → includes (keys x.document) f ≡ true
        → includes (masked_fields_for d.cfg name grant.unmasked_fields) f ≡ false
        → get f x.document ≡ get f stored.columns
    pub masked :
        (f : String) (field : FieldConfig) (m : MaskConfig)
        → includes (keys x.document) f ≡ true
        → includes (masked_fields_for d.cfg name grant.unmasked_fields) f ≡ true
        → lookup f config.fields ≡ some field
        → field.mask ≡ some m
        → get f x.document ≡ transform m (get f stored.columns)

  show_revision-Tells :
      (s : Tables) (name id rev pk : String) (c : CollectionConfig) (g : ActiveGrant)
      (trail : Trail) (o : Option RevisionRow)
      → IsReader name ("read" ∷ []) c g pk
      → IsReached d e transform same_json has_write_pool w ctx s name c g pk id
      → find_held d e transform same_json has_write_pool w ctx s name pk id rev ≡ o
      → Tells
          (IsDisclosed s name id rev)
          (show_revision d e transform same_json has_write_pool w ctx name c g trail o).0
  unfolding mask_plan
  show_revision-Tells s name id rev pk c g trail none k a h = tt
  show_revision-Tells s name id rev pk c g trail (some r) k a h =
      let fields = stored_fields d e transform same_json has_write_pool w ctx c g in
      let plan = plan_of d e transform same_json has_write_pool w ctx name c g in
      let named = keys-project plan r.columns fields in
      let (held, is_it) =
        is_held-IsHeld d e transform same_json has_write_pool w ctx s name pk id
          (λ (x : RevisionRow). x.rev == rev) r h in
      let rev_is : r.rev ≡ rev = ground (arith, eq_iff r.rev rev) in
      let shown : (f : String)
          → includes
              (keys (project d e transform same_json has_write_pool w ctx plan r.columns fields)) f
            ≡ true
          → get f (project d e transform same_json has_write_pool w ctx plan r.columns fields)
            ≡ masked_value d e transform same_json has_write_pool w ctx plan r.columns f =
        λ f t. get-project plan r.columns fields f (sym (ap (λ xs. includes xs f) named) ∙ t) in
      on_recorded-Tells (IsDisclosed s name id rev) _
        (allow w (some name) (returned d e transform same_json has_write_pool w ctx c g) trail)
        (record {
          config = c;
          grant = g;
          pk = pk;
          stored = r;
          reader = k;
          reached = a;
          held = held;
          named = (rev_is, rev_is);
          fields = λ f.
              ap (λ xs. includes xs f) named
              ∙ includes-filter (includes (data_cols_of c)) g.allowed_fields f;
          clear = λ f t u. shown f t ∙ unmasked plan r.columns f (rw (u, if◌then◌else◌) refl);
          masked = λ f field m t u at_field at_mask.
              shown f t ∙ masked_by plan r.columns f m (rw (u, if◌then◌else◌, at_field) at_mask);
        })

  -- A revision is shown only to a caller whose own active grant reads the collection, where the
  -- current revision of the document passes each filter of the grant on a field and, on a collection
  -- with access lists, its list opens it to the caller. What is shown is the revision asked for, of
  -- that document, in the caller's workspace and not superseded; its document has exactly the stored
  -- fields that the grant carries, each with its value or, where the field is masked for the grant,
  -- with what its mask makes of the value.
  pub get_revision-Tells :
      (s : Tables) (name id rev : String) (trail : Trail)
      → Tells
          (IsDisclosed s name id rev)
          (get_revision d e transform same_json has_write_pool w ctx s name id rev trail).0
  unfolding get_revision
  get_revision-Tells s name id rev trail =
      with_history-Tells (IsDisclosed s name id rev) name trail
        (revision_of d e transform same_json has_write_pool w ctx s name id rev trail)
        (resolve_history_grant d e transform same_json has_write_pool w ctx name ("read" ∷ []))
        (λ c g pk h.
          let P : HistoryResult RevisionDocument × Trail → Type 0 =
            λ x. Tells (IsDisclosed s name id rev) x.0 in
          let reader =
            subst (Opens name ("read" ∷ [])) h (resolve_history_grant-Opens name ("read" ∷ [])) in
          either_way P (is_empty (stored_fields d e transform same_json has_write_pool w ctx c g)) _
            _ tt
            (by_test P
              (not (admits_document d e transform same_json has_write_pool w ctx s name c g pk id))
              _ _ (λ _. tt)
              (λ a.
                show_revision-Tells s name id rev pk c g trail _ reader
                  (admits_document-IsReached d e transform same_json has_write_pool w ctx s name c g
                    pk id reader.keyed (ground arith))
                  refl)))
