-- ===== src/Verbs/Revert/Laws.antt =====
-- What a revert hands to the mutation verb.
use warehousd.Prelude.{
  String, ◌≡◌, refl, ap, ◌∙◌, ◌⊎◌, inl, inr, Bool, true, false, not, ◌&&◌, ◌||◌, Option, none, some,
  List, [], ◌∷◌, keys, includes, includes-filter, is_empty, if◌then◌else◌, ◌==◌, by_test,
  either_way, arith, eq_iff, Bool-cases,
}
use warehousd.Context.{Env, BrokerContext}
use warehousd.Config.{MaskConfig, CollectionConfig}
use warehousd.Config.Fields.{data_cols_of}
use warehousd.Value.{Value, Document, get}
use warehousd.Grants.Eval.{ActiveGrant}
use warehousd.Revisions.{RevisionRow, or_null}
use warehousd.Audit.{AuditWriter, AuditedAllow, recorded, unrecorded, Trail, allow_mutation}
use warehousd.Verbs.Guard.{VerbDeps, audit_grant}
use warehousd.Verbs.Mutate.Intent.{MutationIntent, update, values_of, WriteDeps}
use warehousd.Verbs.Propose.Tables.{Tables}
use warehousd.Verbs.History.{Opened, opened, closed, raises, resolve_history_grant, admits_document}
use warehousd.Verbs.History.Reach.{IsHeld, is_held-IsHeld, IsReached, admits_document-IsReached}
use warehousd.Verbs.History.Laws.{IsReader, Opens, resolve_history_grant-Opens}
use warehousd.Verbs.Revert.{
  Reverted, hands_on, noop, denied, raised, RevertOptions, stated_expect, revertible, differing,
  noop_recorded, on_rows, find_now, find_target, on_opened, revert_document,
}

module _ (d : VerbDeps) (e : WriteDeps) (transform : MaskConfig → Value → Value)
    (same_json : Value → Value → Bool) (has_write_pool : Env → Bool) (w : AuditWriter)
    (ctx : BrokerContext) (opts : RevertOptions) where
  -- The values of a field differ, as JSON writes them.
  abbrev pub differs : Document → Document → String → Bool
  differs current target f = not (same_json (or_null (get f current)) (or_null (get f target)))

  includes-differing :
      (fs : List String) (current target : Document) (f : String)
      → includes
          (keys (differing d e transform same_json has_write_pool w ctx opts fs current target))
          f
        ≡ (includes fs f && differs current target f)
  unfolding differing
  includes-differing [] current target f = refl
  includes-differing (g ∷ fs) current target f =
      let rest = includes-differing fs current target f in
      by_test
        (λ (x : Document).
          includes (keys x) f ≡ ((g == f || includes fs f) && differs current target f))
        (differs current target g) _ _
        (λ t. elim (Bool-cases (g == f)) [
          | inl k ↦ ground (arith, rest, alike k)
          | inr k ↦ ground (arith, rest)
        ])
        (λ t. elim (Bool-cases (g == f)) [
          | inl k ↦ ground (arith, rest, alike k)
          | inr k ↦ ground (arith, rest)
        ])
    where
      alike : (g == f) ≡ true → differs current target g ≡ differs current target f
      alike k = let same : g ≡ f = ground (arith, eq_iff g f) in ap (differs current target) same

  get-differing :
      (fs : List String) (current target : Document) (f : String)
      → includes
          (keys (differing d e transform same_json has_write_pool w ctx opts fs current target))
          f
        ≡ true
      → get f (differing d e transform same_json has_write_pool w ctx opts fs current target)
        ≡ get f target
  unfolding differing
  get-differing [] current target f h = absurd (cc)
  get-differing (g ∷ fs) current target f h = elim (Bool-cases (differs current target g)) [
    | inr t ↦ rw (t, if◌then◌else◌) (get-differing fs current target f (rw (t, if◌then◌else◌) at h))
    | inl t ↦
        rw (t, if◌then◌else◌)
          (at_head (get-differing fs current target f) (rw (t, if◌then◌else◌) at h)
            (Bool-cases (g == f)))
  ]
    where
      rest : Document
      rest = differing d e transform same_json has_write_pool w ctx opts fs current target

      at_head :
          (includes (keys rest) f ≡ true → get f rest ≡ get f target)
          → g == f || includes (keys rest) f ≡ true
          → ((g == f) ≡ true) ⊎ ((g == f) ≡ false)
          → get f ((g, get g target) ∷ rest) ≡ get f target
      at_head ih m (inl k) =
          let same : g ≡ f = ground (arith, eq_iff g f) in
          rw (k, if◌then◌else◌) (ap (λ x. get x target) same)
      at_head ih m (inr k) = rw (k, if◌then◌else◌) (ih (ground arith))

  -- What a handed update rests on, and what it states.
  pub record IsRevert (s : Tables) (intent : MutationIntent) : Type 0 where
    pub config : CollectionConfig
    pub grant : ActiveGrant
    pub pk : String
    pub target : RevisionRow
    pub current : RevisionRow
    pub reader :
        IsReader d e transform same_json has_write_pool w ctx opts.collection
          ("read" ∷ "update" ∷ [])
          config
          grant
          pk
    pub reached :
        IsReached d e transform same_json has_write_pool w ctx s opts.collection config grant pk
          opts.id
    pub of_target :
        IsHeld d e transform same_json has_write_pool w ctx s opts.collection pk opts.id target
        × (target.rev ≡ opts.rev)
    pub of_current :
        IsHeld d e transform same_json has_write_pool w ctx s opts.collection pk opts.id current
        × (current.current ≡ true)
    pub updates :
        intent ≡ update opts.collection opts.id (stated_expect opts.expect) (values_of intent)
    pub names :
        (f : String)
        → includes (keys (values_of intent)) f ≡ (
            (includes (data_cols_of config) f && not (f == pk))
            && differs current.columns target.columns f)
    pub restores :
        (f : String)
        → includes (keys (values_of intent)) f ≡ true
        → get f (values_of intent) ≡ get f target.columns

  abbrev pub Hands : Tables → Reverted → Type 0
  Hands s (hands_on intent) = IsRevert s intent
  Hands s (noop id audit_id) = Unit
  Hands s (denied r) = Unit
  Hands s raised = Unit

  noop_recorded-Hands :
      (s : Tables) (o : AuditedAllow × Trail)
      → Hands s (noop_recorded d e transform same_json has_write_pool w ctx opts o).0
  noop_recorded-Hands s (recorded id, trail) = tt
  noop_recorded-Hands s (unrecorded, trail) = tt

  on_rows-Hands :
      (s : Tables) (c : CollectionConfig) (g : ActiveGrant) (pk : String) (trail : Trail)
      (target current : Option RevisionRow)
      → IsReader d e transform same_json has_write_pool w ctx opts.collection
          ("read" ∷ "update" ∷ [])
          c
          g
          pk
      → find_target d e transform same_json has_write_pool w ctx opts s pk ≡ target
      → find_now d e transform same_json has_write_pool w ctx opts s pk ≡ current
      → Hands s
          (on_rows d e transform same_json has_write_pool w ctx opts s c g pk trail target
            current).0
  on_rows-Hands s c g pk trail none current k t n = tt
  on_rows-Hands s c g pk trail (some r) none k t n = tt
  on_rows-Hands s c g pk trail (some target) (some current) k t n =
      let cols = revertible d e transform same_json has_write_pool w ctx opts c pk in
      let values =
        differing d e transform same_json has_write_pool w ctx opts cols current.columns
          target.columns in
      let P : Reverted × Trail → Type 0 = λ x. Hands s x.0 in
      let (found, is_it) =
        is_held-IsHeld d e transform same_json has_write_pool w ctx s opts.collection pk opts.id
          (λ (x : RevisionRow). x.rev == opts.rev) target t in
      by_test P
        (not (
          admits_document d e transform same_json has_write_pool w ctx s opts.collection c g pk
            opts.id))
        _ _ (λ _. tt)
        (λ a.
          either_way P (is_empty values) _ _
            (noop_recorded-Hands s (
              allow_mutation w opts.collection "update" (some opts.id) (some (audit_grant g)) []
                trail))
            (record {
              config = c;
              grant = g;
              pk = pk;
              target = target;
              current = current;
              reader = k;
              reached =
                  admits_document-IsReached d e transform same_json has_write_pool w ctx s
                    opts.collection c g pk opts.id k.keyed (ground arith);
              of_target = (found, ground (arith, eq_iff target.rev opts.rev));
              of_current =
                  is_held-IsHeld d e transform same_json has_write_pool w ctx s opts.collection pk
                    opts.id (λ (x : RevisionRow). x.current) current n;
              updates = refl;
              names = λ f.
                  includes-differing cols current.columns target.columns f
                  ∙ ap (λ b. b && differs current.columns target.columns f)
                      (includes-filter (λ x. not (x == pk)) (data_cols_of c) f);
              restores = λ f m. get-differing cols current.columns target.columns f m;
            }))

  -- A revert hands an update to the mutation verb only for a caller whose own active grant on the
  -- collection carries `read` and `update` and reaches the document as it is now, from two revisions
  -- of the document in the caller's workspace that are not superseded, the one asked for and one that
  -- is current. It names exactly the stored fields, the key
  -- excepted, whose values differ between the two as JSON, and gives each the value that it had.
  pub revert_document-Hands :
      (s : Tables) (trail : Trail)
      → Hands s (revert_document d e transform same_json has_write_pool w ctx opts s trail).0
  unfolding revert_document
  revert_document-Hands s trail =
      at_opened
        (resolve_history_grant d e transform same_json has_write_pool w ctx opts.collection
          ("read" ∷ "update" ∷ []))
        (resolve_history_grant-Opens d e transform same_json has_write_pool w ctx opts.collection
          ("read" ∷ "update" ∷ []))
    where
      at_opened :
          (o : Opened)
          → Opens d e transform same_json has_write_pool w ctx opts.collection
              ("read" ∷ "update" ∷ [])
              o
          → Hands s (on_opened d e transform same_json has_write_pool w ctx opts s trail o).0
      at_opened raises h = tt
      at_opened (closed why g) h = tt
      at_opened (opened c g pk) h = on_rows-Hands s c g pk trail _ _ h refl refl
