-- ===== src/Indexing/Chunk.antt =====
-- packages/broker/src/indexing/chunk.ts. The loop that splits an oversized paragraph runs on fuel:
-- the number of the paragraph's code units is enough where the overlap is below the maximum.
pub mod Laws
pub mod Roundtrip
mod Tests
use warehousd.Prelude.{
  ℕ, zero, suc, ◌+◌, ◌-◌, Bool, true, false, not, ◌&&◌, Option, none, some, List, [], ◌∷◌, ◌++◌,
  length, take, drop, filter, map, is_empty, ltb, leb, nat_eq, if◌then◌else◌,
}
use warehousd.Indexing.Text.{Units, ends_with, trim, newline, split_paragraphs}

abbrev default_overlap : ℕ
default_overlap = 100

abbrev default_max : ℕ
default_max = 1000

abbrev pub min : ℕ → ℕ → ℕ
min a b = if leb a b then a else b

-- The longest prefix of `next`, of at most `n` code units, that `out` ends with.
unfoldable pub longest_match : Units → Units → ℕ → ℕ
longest_match out next zero = 0
longest_match out next (suc n) =
    let shorter = longest_match out next n in
    if ends_with out (take (suc n) next) then suc n else shorter

abbrev pub joined : ℕ → Units → Units → Units
joined overlap out next =
    out ++ drop (longest_match out next (min overlap (min (length out) (length next)))) next

pub reassemble_from : ℕ → Units → List Units → Units
unfolding longest_match
reassemble_from overlap out [] = out
reassemble_from overlap out (next ∷ rest) = reassemble_from overlap (joined overlap out next) rest

unfoldable pub reassemble_chunks : ℕ → List Units → Units
unfolding reassemble_from
reassemble_chunks overlap [] = []
reassemble_chunks overlap (first ∷ rest) = reassemble_from overlap first rest

-- The chunks so far and the one that is being filled.
pub record Packing : Type 0 where
  pub chunks : List Units
  pub current : Units

-- `remaining.slice(max - overlap)`: a negative start counts from the end.
abbrev pub advance : ℕ → ℕ → Units → Units
advance max overlap s =
    if leb overlap max then drop (max - overlap) s else drop (length s - (overlap - max)) s

abbrev pub then_piece : Units → Option (List Units × Units) → Option (List Units × Units)
then_piece p none = none
then_piece p (some (ps, last)) = some (p ∷ ps, last)

-- The pieces of an oversized paragraph, and what remains; `none` is out of fuel.
unfoldable pub hard_split : ℕ → ℕ → ℕ → Units → Option (List Units × Units)
hard_split zero max overlap remaining =
    if ltb max (length remaining) then none else some ([], remaining)
hard_split (suc fuel) max overlap remaining =
    let rest = hard_split fuel max overlap (advance max overlap remaining) in
    if ltb max (length remaining)
    then then_piece (take max remaining) rest
    else some ([], remaining)

-- `if (current) chunks.push(current)`
abbrev pub flushed : Packing → List Units
flushed p = if is_empty p.current then p.chunks else p.chunks ++ p.current ∷ []

abbrev pub separated : Units → Units → Units
separated current para = current ++ newline ∷ newline ∷ para

abbrev pub fits : ℕ → Units → Units → Bool
fits max current para = leb (length current + 2 + length para) max

abbrev pub tail_of : ℕ → Units → Units
tail_of overlap current = drop (length current - overlap) current

abbrev pub pack_short : ℕ → ℕ → Packing → Units → Packing
pack_short max overlap p para =
    if is_empty p.current
    then record { chunks = p.chunks; current = para }
    else if fits max p.current para
    then record { chunks = p.chunks; current = separated p.current para }
    else record {
      chunks = p.chunks ++ p.current ∷ [];
      current =
          if fits max (tail_of overlap p.current) para
          then separated (tail_of overlap p.current) para
          else para;
    }

abbrev pub after_split : Packing → Option (List Units × Units) → Option Packing
after_split p none = none
after_split p (some (ps, last)) = some (record { chunks = flushed p ++ ps; current = last })

abbrev pub pack : ℕ → ℕ → Packing → Units → Option Packing
pack max overlap p para =
    if ltb max (length para)
    then after_split p (hard_split (length para) max overlap para)
    else some (pack_short max overlap p para)

unfoldable pub pack_all : ℕ → ℕ → Packing → List Units → Option Packing
unfolding hard_split
pack_all max overlap p [] = some p
pack_all max overlap p (para ∷ paras) = elim (pack max overlap p para) [
  | none ↦ none
  | some p' ↦ pack_all max overlap p' paras
]

abbrev pub flushed_at_end : Option Packing → Option (List Units)
flushed_at_end none = none
flushed_at_end (some p) = some (flushed p)

abbrev pub paragraphs : Units → List Units
paragraphs content = filter (λ s. not (is_empty s)) (map trim (split_paragraphs content))

-- Without paragraphs the loop does nothing, and nothing is left to flush.
unfoldable pub chunk_text : ℕ → ℕ → Units → Option (List Units)
unfolding trim split_paragraphs pack_all
chunk_text max overlap content =
    if is_empty (paragraphs content)
    then some []
    else flushed_at_end
        (pack_all max overlap (record { chunks = []; current = [] }) (paragraphs content))
