-- ===== src/Revisions/Current.antt =====
-- The current revision of a document: there is one at most, and a revision replaces it.
use warehousd.Prelude.{
  String, ◌≡◌, refl, sym, subst, ap, ◌∙◌, inl, inr, Bool, true, false, ◌&&◌, ◌||◌, Option, none,
  some, List, [], ◌∷◌, ◌++◌, map, any, find, lookup, or_default, includes, if◌then◌else◌, ◌==◌,
  eq_iff, eq_refl, arith, Bool-cases, find-mem,
}
use warehousd.Config.{CollectionConfig}
use warehousd.Config.Fields.{data_cols_of}
use warehousd.Value.{Value, Document, get}
use warehousd.Revisions.{
  RevisionRow, RevisionTable, is_current_of, insert_revision, current_revision, row_over,
  stated_or_carried, or_null, next_data_row, clear_current, demote_revision, Revision,
  revise_document, bound_columns,
}
use warehousd.Revisions.Laws.{appended}

-- What the model asks of the database's equality on a key.
pub record IsKeyEquality (same_key : Value → Value → Bool) : Type 0 where
  pub symmetric : (v w : Value) → same_key v w ≡ true → same_key w v ≡ true
  pub transitive : (u v w : Value) → same_key u v ≡ true → same_key v w ≡ true → same_key u w ≡ true

module _ (same_key : Value → Value → Bool) (pk : String) where
  abbrev pub rival : RevisionRow → RevisionRow → Bool
  rival r = is_current_of same_key pk r.workspace_id (get pk r.columns)

  -- No document has two current revisions.
  abbrev pub HasOneCurrent : RevisionTable → Type 0
  HasOneCurrent [] = Unit
  HasOneCurrent (r ∷ rows) = (r.current ≡ true → any (rival r) rows ≡ false) × HasOneCurrent rows

  any-demote :
      (rev ws : String) (id : Value) (rows : RevisionTable)
      → any (is_current_of same_key pk ws id) rows ≡ false
      → any (is_current_of same_key pk ws id) (map (clear_current rev) rows) ≡ false
  any-demote rev ws id [] h = refl
  any-demote rev ws id (r ∷ rows) h = ground (arith, any-demote rev ws id rows (ground arith))

  pub HasOneCurrent-demote :
      (rev : String) (rows : RevisionTable)
      → HasOneCurrent rows
      → HasOneCurrent (map (clear_current rev) rows)
  HasOneCurrent-demote rev [] h = tt
  HasOneCurrent-demote rev (r ∷ rows) (one, h) =
      (at_mark (r.rev == rev), HasOneCurrent-demote rev rows h)
    where
      at_mark :
          (b : Bool)
          → (if b then record r { current = false } else r).current ≡ true
          → any
              (rival (if b then record r { current = false } else r))
              (map (clear_current rev) rows)
            ≡ false
      at_mark true e = absurd (cc)
      at_mark false e = any-demote rev r.workspace_id (get pk r.columns) rows (one e)

  lookup-row_over :
      (current : Option Document) (stated : Document) (fs : List String) (f : String)
      → includes fs f ≡ true
      → get f (row_over current stated fs) ≡ stated_or_carried current stated f
  unfolding row_over
  lookup-row_over current stated [] f h = absurd (cc)
  lookup-row_over current stated (g ∷ fs) f h = elim (Bool-cases (g == f)) [
    | inl e ↦
        let same : g ≡ f = ground (arith, eq_iff g f) in
        ground (arith, ap (stated_or_carried current stated) same)
    | inr e ↦ ground (arith, lookup-row_over current stated fs f (ground arith))
  ]

  -- A stored column of an inserted row.
  pub bound-column :
      (c : CollectionConfig) (row : Document) (f : String)
      → includes (data_cols_of c) f ≡ true
      → get f (bound_columns c row) ≡ or_null (get f row)
  unfolding bound_columns row_over
  bound-column c row f h = lookup-row_over (some row) [] (data_cols_of c) f h

  -- A stored column of the appended revision.
  appended-column :
      (c : CollectionConfig) (rev : String) (r : RevisionRow) (changed : Document) (meta : Revision)
      (f : String)
      → includes (data_cols_of c) f ≡ true
      → get f (appended c rev r changed meta).columns
        ≡ or_null (or_default (lookup f changed) (or_null (get f r.columns)))
  unfolding bound_columns next_data_row row_over
  appended-column c rev r changed meta f h =
      let next = next_data_row c (some r.columns) changed in
      lookup-row_over (some next) [] (data_cols_of c) f h
      ∙ ap or_null (lookup-row_over (some r.columns) changed (data_cols_of c) f h)

  -- A revision that does not state the key keeps it.
  pub appended-key :
      (c : CollectionConfig) (rev : String) (r : RevisionRow) (changed : Document) (meta : Revision)
      → includes (data_cols_of c) pk ≡ true
      → lookup pk changed ≡ none
      → or_null (get pk r.columns) ≡ get pk r.columns
      → get pk (appended c rev r changed meta).columns ≡ get pk r.columns
  appended-key c rev r changed meta stored unstated set =
      appended-column c rev r changed meta pk stored
      ∙ ap (λ o. or_null (or_default o (or_null (get pk r.columns)))) unstated
      ∙ ap or_null set
      ∙ set

  module _ (equality : IsKeyEquality same_key) where
    pub any-shift :
        (ws : String) (v w : Value) (rows : RevisionTable)
        → same_key v w ≡ true
        → any (is_current_of same_key pk ws w) rows ≡ false
        → any (is_current_of same_key pk ws v) rows ≡ false
    any-shift ws v w [] e h = refl
    any-shift ws v w (r ∷ rows) e h =
        ground (
          arith,
          any-shift ws v w rows e (ground arith),
          equality.transitive (get pk r.columns) v w,
        )

    any-snoc :
        (p : RevisionRow → Bool) (rows : RevisionTable) (r : RevisionRow)
        → any p (rows ++ r ∷ []) ≡ (any p rows || p r)
    any-snoc p [] r = ground arith
    any-snoc p (x ∷ rows) r = ground (arith, any-snoc p rows r)

    pub HasOneCurrent-snoc :
        (new : RevisionRow) (rows : RevisionTable)
        → (new.current && any (rival new) rows) ≡ false
        → HasOneCurrent rows
        → HasOneCurrent (rows ++ new ∷ [])
    HasOneCurrent-snoc new [] e h = ((λ _. refl), tt)
    HasOneCurrent-snoc new (r ∷ rows) e (one, h) = (
      λ c. ground (
        arith,
        any-snoc (rival r) rows new,
        one c,
        eq_iff new.workspace_id r.workspace_id,
        eq_iff r.workspace_id new.workspace_id,
        equality.symmetric (get pk new.columns) (get pk r.columns),
      ),
      HasOneCurrent-snoc new rows (ground arith) h,
    )

    -- The revision that was read is the only current one: without it the document has none.
    pub none_left :
        (ws : String) (id : Value) (rows : RevisionTable) (r : RevisionRow)
        → HasOneCurrent rows
        → find (is_current_of same_key pk ws id) rows ≡ some r
        → any (is_current_of same_key pk ws id) (map (clear_current r.rev) rows) ≡ false
    none_left ws id [] r h e = refl
    none_left ws id (x ∷ rows) r (one, h) e =
        elim (Bool-cases (is_current_of same_key pk ws id x)) [
          | inl t ↦
              let found : x ≡ r = ground arith in
              let place : x.workspace_id ≡ ws = ground (arith, eq_iff x.workspace_id ws) in
              let others : any (is_current_of same_key pk x.workspace_id id) rows ≡ false =
                any-shift x.workspace_id id (get pk x.columns) rows
                  (equality.symmetric (get pk x.columns) id (ground arith)) (one (ground arith)) in
              let rest =
                any-demote r.rev ws id rows
                  (subst (λ w. any (is_current_of same_key pk w id) rows ≡ false) place others) in
              ground (arith, rest, eq_refl r.rev, ap (λ (y : RevisionRow). y.rev) found)
          | inr t ↦ ground (arith, none_left ws id rows r h (ground arith))
        ]

    pub find_holds :
        (p : RevisionRow → Bool) (rows : RevisionTable) (r : RevisionRow)
        → find p rows ≡ some r
        → p r ≡ true
    find_holds p rows r e = (find-mem p rows r e).1

    pub find-snoc :
        (p : RevisionRow → Bool) (rows : RevisionTable) (r : RevisionRow)
        → any p rows ≡ false
        → p r ≡ true
        → find p (rows ++ r ∷ []) ≡ some r
    find-snoc p [] r h e = ground arith
    find-snoc p (x ∷ rows) r h e = ground (arith, find-snoc p rows r (ground arith) e)

    -- A revision that does not state the key, of a document whose current revision was read in the
    -- same workspace and has a key, goes through; afterwards each document still has one current
    -- revision at most, and the document's is the one that was appended.
    pub revise_document-current :
        (c : CollectionConfig) (rev ws : String) (id : Value) (r : RevisionRow) (changed : Document)
        (meta : Revision) (rows : RevisionTable)
        → HasOneCurrent rows
        → current_revision same_key pk ws id rows ≡ some r
        → meta.workspace_id ≡ ws
        → includes (data_cols_of c) pk ≡ true
        → lookup pk changed ≡ none
        → or_null (get pk r.columns) ≡ get pk r.columns
        → (after : RevisionTable) × (revise_document same_key pk c rev r changed meta rows
            ≡ some after)
          × HasOneCurrent after
          × (current_revision same_key pk ws id after ≡ some (appended c rev r changed meta))
    unfolding revise_document insert_revision demote_revision current_revision
    revise_document-current c rev ws id r changed meta rows h e place stored unstated set =
        let key : get pk (appended c rev r changed meta).columns ≡ get pk r.columns =
          appended-key c rev r changed meta stored unstated set in
        let new = appended c rev r changed meta in
        let demoted = map (clear_current r.rev) rows in
        let gone = none_left ws id rows r h e in
        let found = find_holds (is_current_of same_key pk ws id) rows r e in
        let same : same_key (get pk r.columns) id ≡ true = ground arith in
        let free : any (is_current_of same_key pk ws (get pk r.columns)) demoted ≡ false =
          any-shift ws (get pk r.columns) id demoted same gone in
        let clear : any (is_current_of same_key pk new.workspace_id (get pk new.columns)) demoted
            ≡ false =
          subst (λ w. any (is_current_of same_key pk w (get pk new.columns)) demoted ≡ false)
            (sym place)
            (subst (λ v. any (is_current_of same_key pk ws v) demoted ≡ false) (sym key) free) in
        let keyed = subst (λ v. same_key v id ≡ true) (sym key) same in
        (
          demoted ++ new ∷ [],
          ground (arith, clear),
          HasOneCurrent-snoc new demoted clear (HasOneCurrent-demote r.rev rows h),
          find-snoc (is_current_of same_key pk ws id) demoted new gone
              (ground (arith, keyed, eq_iff meta.workspace_id ws)),
        )
