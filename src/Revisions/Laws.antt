-- ===== src/Revisions/Laws.antt =====
-- What the revision writer leaves: the whole history, and one current revision of each document.
use warehousd.Prelude.{String, ◌≡◌, refl, ap, ◌∙◌, Bool, false, some, [], ◌∷◌, ◌++◌, map, arith}
use warehousd.Config.{CollectionConfig}
use warehousd.Value.{Value, Document}
use warehousd.Revisions.{
  RevisionRow, RevisionTable, insert_revision, clear_current, demote_revision, Revision, successor,
  revise_document, bound_columns,
}

-- A revision without the mark that says which one is current.
abbrev pub unmarked : RevisionRow → RevisionRow
unmarked r = record r { current = false }

unmarked-demote :
    (rev : String) (rows : RevisionTable)
    → map unmarked (map (clear_current rev) rows) ≡ map unmarked rows
unmarked-demote rev [] = refl
unmarked-demote rev (r ∷ rows) = ground (arith, unmarked-demote rev rows)

map-snoc :
    (rows : RevisionTable) (r : RevisionRow)
    → map unmarked (rows ++ r ∷ []) ≡ map unmarked rows ++ unmarked r ∷ []
map-snoc [] r = refl
map-snoc (x ∷ rows) r = ap (λ rest. unmarked x ∷ rest) (map-snoc rows r)

-- The row that a revision appends.
abbrev pub appended : CollectionConfig → String → RevisionRow → Document → Revision → RevisionRow
appended c rev current changed meta =
    let next = successor c rev current changed meta in
    record next { columns = bound_columns c next.columns }

-- A revision of a document that goes through keeps every revision of the table, in order and in
-- every column but the mark of the current one, and appends one: the history is never rewritten.
pub revise_document-history :
    (same_key : Value → Value → Bool) (pk : String) (c : CollectionConfig) (rev : String)
    (current : RevisionRow) (changed : Document) (meta : Revision) (rows after : RevisionTable)
    → revise_document same_key pk c rev current changed meta rows ≡ some after
    → map unmarked after ≡ map unmarked rows ++ unmarked (appended c rev current changed meta) ∷ []
unfolding revise_document insert_revision demote_revision
revise_document-history same_key pk c rev current changed meta rows after h =
    let demoted = map (clear_current current.rev) rows in
    let new = appended c rev current changed meta in
    let same : after ≡ demoted ++ new ∷ [] = ground arith in
    ap (map unmarked) same
    ∙ map-snoc demoted new
    ∙ ap (λ rest. rest ++ unmarked new ∷ []) (unmarked-demote current.rev rows)
