-- ===== src/Verbs/Propose/Tables/Laws.antt =====
-- What loadPendingMany finds.
use mathlib.Core.List.{Memᴰ}
use warehousd.Prelude.{
  String, ◌≡◌, refl, true, not, ◌&&◌, Option, none, some, List, [], ◌∷◌, lookup, length, nat_eq,
  All, All-append, lookup-All, is_some, either_way, by_test, arith, eq_iff,
}
use warehousd.Context.{BrokerContext}
use warehousd.Config.{CollectionConfig, find_collection}
use warehousd.Config.Fields.{pk_of, revisable_collections}
use warehousd.Revisions.{RevisionStatus, pending, RevisionRow, RevisionTable}
use warehousd.Verbs.Guard.{VerbDeps}
use warehousd.Verbs.Mutate.Intent.{WriteDeps}
use warehousd.Verbs.Propose.Dataset.{is_pending}
use warehousd.Verbs.Propose.Tables.{
  Tables, Pending, table_of, with_key, selected, is_asked, entry_of, collect, collect_from,
  load_from, load_pending_many,
}

is_pending_sound : (s : RevisionStatus) → is_pending s ≡ true → s ≡ pending
is_pending_sound s h = ground arith

module _ (d : VerbDeps) (e : WriteDeps) (ctx : BrokerContext) (ids : List String) (s : Tables) where
  -- A pending revision of the caller's workspace, in the table of its collection, under the id that
  -- was asked for, and with its access list.
  pub record IsLocated (id : String) (p : Pending) : Type 0 where
    pub config : CollectionConfig
    pub stored : RevisionRow
    pub declared : find_collection d.cfg p.collection ≡ some config
    pub held : Memᴰ stored (table_of p.collection s)
    pub named : stored.rev ≡ id
    pub waits : stored.status ≡ pending
    pub at_home : stored.workspace_id ≡ ctx.workspace_id
    pub with_access : p.row ≡ selected e ctx.workspace_id p.collection config stored

  abbrev Located : List (String × Pending) → Type 0
  Located out = All (λ (x : String × Pending). IsLocated x.0 x.1) out

  entry_of-IsLocated :
      (coll : String) (c : CollectionConfig) (r : RevisionRow)
      → find_collection d.cfg coll ≡ some c
      → Memᴰ r (table_of coll s)
      → is_asked d e ctx ids r ≡ true
      → Located (entry_of d e ctx coll c r ∷ [])
  entry_of-IsLocated coll c r k m h = (
    record {
      config = c;
      stored = r;
      declared = k;
      held = m;
      named = refl;
      waits = is_pending_sound r.status (ground arith);
      at_home = ground (arith, eq_iff r.workspace_id ctx.workspace_id);
      with_access = refl;
    },
    tt,
  )

  collect-Located :
      (coll : String) (c : CollectionConfig) (rows : RevisionTable) (out : List (String × Pending))
      → find_collection d.cfg coll ≡ some c
      → ((r : RevisionRow) → Memᴰ r rows → Memᴰ r (table_of coll s))
      → Located out
      → Located (collect d e ctx ids coll c rows out)
  unfolding collect
  collect-Located coll c [] out k m h = h
  collect-Located coll c (r ∷ rows) out k m h =
      collect-Located coll c rows _ k (λ x n. m x (Memᴰ.tail n))
        (by_test Located (is_asked d e ctx ids r && not (is_some (lookup r.rev out))) _ _
          (λ t.
            All-append (λ (x : String × Pending). IsLocated x.0 x.1) out
              (entry_of d e ctx coll c r ∷ []) h
              (entry_of-IsLocated coll c r k (m r (Memᴰ.head refl)) (ground arith)))
          (λ t. h))

  collect_from-Located :
      (coll : String) (o : Option CollectionConfig) (out : List (String × Pending))
      → find_collection d.cfg coll ≡ o
      → Located out
      → Located (collect_from d e ctx ids s coll o out)
  collect_from-Located coll none out k h = h
  collect_from-Located coll (some c) out k h =
      collect-Located coll c (table_of coll s) out k (λ r m. m) h

  load_from-Located :
      (colls : List String) (out : List (String × Pending))
      → Located out
      → Located (load_from d e ctx ids s colls out)
  unfolding load_from
  load_from-Located [] out h = h
  load_from-Located (coll ∷ colls) out h =
      either_way Located (nat_eq (length out) (length ids)) _ _ h (
        load_from-Located colls _
          (collect_from-Located coll (find_collection d.cfg coll) out refl h))

  -- What the loader finds under an id is a pending revision with that id, of a declared collection
  -- and of the caller's workspace, read from the table of its collection together with its access
  -- list.
  pub load_pending_many-IsLocated :
      (id : String) (p : Pending)
      → lookup id (load_pending_many d e ctx s ids) ≡ some p
      → IsLocated id p
  unfolding load_pending_many
  load_pending_many-IsLocated id p h =
      lookup-All IsLocated id p (load_from d e ctx ids s (revisable_collections d.cfg) [])
        (load_from-Located (revisable_collections d.cfg) [] tt) h

pub selected-by :
    (e : WriteDeps) (ws coll : String) (c : CollectionConfig) (r : RevisionRow)
    → (selected e ws coll c r).by ≡ r.by
selected-by e ws coll c r = at_key (pk_of c)
  where
    at_key : (o : Option String) → (with_key e ws coll c o r).by ≡ r.by
    at_key none = refl
    at_key (some pk) = refl

pub selected-rev :
    (e : WriteDeps) (ws coll : String) (c : CollectionConfig) (r : RevisionRow)
    → (selected e ws coll c r).rev ≡ r.rev
selected-rev e ws coll c r = at_key (pk_of c)
  where
    at_key : (o : Option String) → (with_key e ws coll c o r).rev ≡ r.rev
    at_key none = refl
    at_key (some pk) = refl
