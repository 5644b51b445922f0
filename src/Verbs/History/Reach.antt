-- ===== src/Verbs/History/Reach.antt =====
-- What the two questions of history.ts ask of the table: whether a revision is one that the document
-- held, and whether the grant reaches the document as it is now.
use mathlib.Core.List.{Memᴰ}
use warehousd.Prelude.{
  String, ◌≡◌, ◌≢◌, refl, sym, ap, ◌∙◌, Bool, true, false, ◌&&◌, Option, none, some, List, map,
  filter, find, find-mem, keys, lookup, lookup-insert, insert, includes, all, if◌then◌else◌, arith,
  eq_iff, false≢true,
}
use warehousd.Context.{Env, BrokerContext}
use warehousd.Config.{MaskConfig, CollectionConfig}
use warehousd.Config.Fields.{pk_of}
use warehousd.Value.{Scalar, Value, one, Document, DocumentFilter, get}
use warehousd.Grants.Filters.{acl_column, matches_filter, matches_filters, admits}
use warehousd.Grants.Filters.Laws.{IsOpenTo, admits-IsOpenTo}
use warehousd.Grants.Eval.{ActiveGrant}
use warehousd.Revisions.{superseded, RevisionRow, current_revision}
use warehousd.Audit.{AuditWriter}
use warehousd.Verbs.Guard.{VerbDeps}
use warehousd.Verbs.Mutate.Intent.{WriteDeps}
use warehousd.Verbs.Mutate.Dataset.{with_acl}
use warehousd.Verbs.Propose.Decision.{copy_columns}
use warehousd.Verbs.Propose.Apply.{with_list}
use warehousd.Verbs.Propose.Apply.Copied.{
  get-copy_columns_any, get-with_list, matches_copied, all-member,
}
use warehousd.Verbs.Propose.Tables.{Tables, table_of, with_key}
use warehousd.Verbs.History.{is_superseded, filter_row, admits_current, admits_document, is_held}

lookup-listed :
    (b : Bool)
    → b ≡ true
    → (v : Value) (row : Document)
    → (u : Value) × (lookup acl_column (if b then insert acl_column v row else row) ≡ some u)
lookup-listed b on v row = (v, rw (on, if◌then◌else◌) (lookup-insert acl_column acl_column v row))

-- The declared fields that the filters of a grant name.
abbrev asked_columns : CollectionConfig → ActiveGrant → List String
asked_columns c g =
    filter (includes (keys c.fields)) (map (λ (f : DocumentFilter). f.field) g.document_filter)

module _ (d : VerbDeps) (e : WriteDeps) (transform : MaskConfig → Value → Value)
    (same_json : Value → Value → Bool) (has_write_pool : Env → Bool) (w : AuditWriter)
    (ctx : BrokerContext) where
  -- A revision of the document in the caller's workspace that records a state which it held.
  pub record IsHeld (s : Tables) (name pk id : String) (r : RevisionRow) : Type 0 where
    pub listed : Memᴰ r (table_of name s)
    pub at_home : r.workspace_id ≡ ctx.workspace_id
    pub of_document : e.same_key (get pk r.columns) (one (Scalar.str id)) ≡ true
    pub stands : r.status ≢ superseded

  pub is_held-IsHeld :
      (s : Tables) (name pk id : String) (p : RevisionRow → Bool) (r : RevisionRow)
      → find
          (λ (x : RevisionRow). is_held d e transform same_json has_write_pool w ctx pk id x && p x)
          (table_of name s)
        ≡ some r
      → IsHeld s name pk id r × (p r ≡ true)
  is_held-IsHeld s name pk id p r h =
      let (listed, k) =
        find-mem
          (λ (x : RevisionRow). is_held d e transform same_json has_write_pool w ctx pk id x && p x)
          (table_of name s) r h in
      (
        record {
          listed = listed;
          at_home = ground (arith, eq_iff r.workspace_id ctx.workspace_id);
          of_document = ground arith;
          stands = λ q. false≢true (sym (standing k) ∙ ap is_superseded q);
        },
        ground arith,
      )
    where
      standing :
          (is_held d e transform same_json has_write_pool w ctx pk id r && p r) ≡ true
          → is_superseded r.status ≡ false
      standing k = ground arith

  -- The current revision of the document passes each filter of the grant and, on a collection with
  -- access lists, its list opens it to the caller.
  pub record IsReached (s : Tables) (name : String) (c : CollectionConfig) (g : ActiveGrant)
      (pk id : String) : Type 0 where
    pub now : RevisionRow
    pub read :
        current_revision e.same_key pk ctx.workspace_id (one (Scalar.str id)) (table_of name s)
        ≡ some now
    pub passes :
        (f : DocumentFilter)
        → Memᴰ f g.document_filter
        → f.field ≢ acl_column
        → matches_filter e.platform now.columns c f ≡ true
    pub opened :
        c.acl ≡ true
        → (v : Value) × (lookup acl_column (with_acl e ctx.workspace_id name c pk now) ≡ some v)
          × IsOpenTo g.principals v

  admits_current-IsReached :
      (s : Tables) (name : String) (c : CollectionConfig) (g : ActiveGrant) (pk id : String)
      (o : Option RevisionRow)
      → pk_of c ≡ some pk
      → current_revision e.same_key pk ctx.workspace_id (one (Scalar.str id)) (table_of name s) ≡ o
      → admits_current d e transform same_json has_write_pool w ctx name c g o ≡ true
      → IsReached s name c g pk id
  unfolding admits matches_filters
  admits_current-IsReached s name c g pk id none keyed read h = absurd (false≢true h)
  admits_current-IsReached s name c g pk id (some now) keyed read h =
      let row = filter_row d e transform same_json has_write_pool w ctx name c g now in
      record {
        now = now;
        read = read;
        passes = λ f m ne.
            matches_copied e.platform c f row now.columns (asked_columns c g)
              (get-with_list
                  (lookup acl_column (with_key e ctx.workspace_id name c (pk_of c) now).columns)
                  (copy_columns (asked_columns c g) now.columns) f.field ne
                ∙ get-copy_columns_any (asked_columns c g) now.columns f.field)
              (all-member (matches_filter e.platform row c) g.document_filter f (filters_pass row h)
                m);
        opened = λ on.
            let (v, listed, open_) =
              admits-IsOpenTo g.principals e.platform row g.document_filter c on h in
            let list = with_acl e ctx.workspace_id name c pk now in
            let (u, is_list) = listed_with_acl name c pk now on in
            let selected_list : lookup acl_column
                  (with_key e ctx.workspace_id name c (pk_of c) now).columns
                ≡ some u =
              ap (λ k. lookup acl_column (with_key e ctx.workspace_id name c k now).columns) keyed
              ∙ is_list in
            let kept : lookup acl_column row ≡ some u =
              ap
                (λ k.
                  lookup acl_column (with_list k (copy_columns (asked_columns c g) now.columns)))
                selected_list
              ∙ lookup-insert acl_column acl_column u
                  (copy_columns (asked_columns c g) now.columns) in
            let same : u ≡ v = ground (arith, kept, listed) in
            (v, is_list ∙ ap (λ x. some x) same, open_);
      }
    where
      filters_pass :
          (row : Document)
          → admits e.platform row g.document_filter g.principals c ≡ true
          → all (matches_filter e.platform row c) g.document_filter ≡ true
      filters_pass row k = ground arith

      listed_with_acl :
          (n : String) (k : CollectionConfig) (key : String) (r : RevisionRow)
          → k.acl ≡ true
          → (u : Value) × (lookup acl_column (with_acl e ctx.workspace_id n k key r) ≡ some u)
      listed_with_acl n k key r on = lookup-listed k.acl on _ r.columns

  -- The grant reaches the document as it is now.
  pub admits_document-IsReached :
      (s : Tables) (name : String) (c : CollectionConfig) (g : ActiveGrant) (pk id : String)
      → pk_of c ≡ some pk
      → admits_document d e transform same_json has_write_pool w ctx s name c g pk id ≡ true
      → IsReached s name c g pk id
  unfolding admits_document
  admits_document-IsReached s name c g pk id keyed h =
      admits_current-IsReached s name c g pk id _ keyed refl h
