-- ===== src/Indexing/Text.antt =====
-- Strings as lists of UTF-16 code units, with what the chunker calls on them: `trim`, `endsWith` and
-- `split(/\n{2,}/)`; `slice(0, n)` is `take n` and `slice(n)` is `drop n`.
use warehousd.Prelude.{
  ℕ, ◌-◌, Bool, true, false, ◌&&◌, ◌||◌, List, [], ◌∷◌, length, drop, is_empty, nat_eq, leb,
  if◌then◌else◌,
}

-- The code units of a string.
abbrev pub Units : Type 0
Units = List ℕ

abbrev pub same_units : Units → Units → Bool
same_units [] [] = true
same_units [] (d ∷ t) = false
same_units (c ∷ s) [] = false
same_units (c ∷ s) (d ∷ t) = nat_eq c d && same_units s t

abbrev pub ends_with : Units → Units → Bool
ends_with s t = same_units (drop (length s - length t) s) t

-- WhiteSpace and LineTerminator of ECMAScript.
abbrev pub is_space : ℕ → Bool
is_space c =
    (leb 9 c && leb c 13)
    || nat_eq c 32
    || nat_eq c 160
    || nat_eq c 5760
    || (leb 8192 c && leb c 8202)
    || nat_eq c 8232
    || nat_eq c 8233
    || nat_eq c 8239
    || nat_eq c 8287
    || nat_eq c 12288
    || nat_eq c 65279

trim_start : Units → Units
trim_start [] = []
trim_start (c ∷ s) = if is_space c then trim_start s else c ∷ s

-- A character stays when it is no space or something stays after it.
trim_end : Units → Units
trim_end [] = []
trim_end (c ∷ s) = let rest = trim_end s in if is_space c && is_empty rest then [] else c ∷ rest

unfoldable pub trim : Units → Units
unfolding trim_start trim_end
trim s = trim_end (trim_start s)

abbrev pub newline : ℕ
newline = 10

abbrev starts_with_newline : Units → Bool
starts_with_newline [] = false
starts_with_newline (c ∷ s) = nat_eq c newline

push : ℕ → List Units → List Units
push c [] = (c ∷ []) ∷ []
push c (p ∷ ps) = (c ∷ p) ∷ ps

-- `in_break` while the newlines of a separator are passed over.
pieces : Bool → Units → List Units
unfolding push
pieces in_break [] = [] ∷ []
pieces true (c ∷ s) = if nat_eq c newline then pieces true s else push c (pieces false s)
pieces false (c ∷ s) =
    if nat_eq c newline && starts_with_newline s
    then [] ∷ pieces true s
    else push c (pieces false s)

unfoldable pub split_paragraphs : Units → List Units
unfolding pieces
split_paragraphs s = pieces false s
