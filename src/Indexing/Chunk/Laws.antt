-- ===== src/Indexing/Chunk/Laws.antt =====
-- The chunker comes to an end, and each of its chunks is within the bound.
use warehousd.Prelude.{
  ℕ, zero, suc, ◌+◌, ◌-◌, ◌≤◌, ◌<◌, ◌≡◌, true, false, Option, none, some, List, [], ◌∷◌, length,
  take, drop, length-append, All, All-append, is_empty, ltb, by_test, arith,
}
use warehousd.Indexing.Text.{Units, newline}
use warehousd.Indexing.Chunk.{
  Packing, advance, then_piece, hard_split, flushed, separated, fits, tail_of, pack_short,
  after_split, pack, pack_all, flushed_at_end, paragraphs, chunk_text,
}

pub length-drop : (n : ℕ) (s : Units) → length (drop n s) ≡ length s - n
length-drop zero s = omega arith
length-drop (suc n) [] = omega arith
length-drop (suc n) (c ∷ s) = omega (arith, length-drop n s)

pub length-take : (n : ℕ) (s : Units) → n ≤ length s → length (take n s) ≡ n
length-take zero s h = omega arith
length-take (suc n) [] h = omega arith
length-take (suc n) (c ∷ s) h = omega (arith, length-take n s (omega arith))

-- One code unit at least, and no more than the maximum.
pub record IsWithin (max : ℕ) (chunk : Units) : Type 0 where
  pub nonempty : 1 ≤ length chunk
  pub bounded : length chunk ≤ max

-- What hard splitting comes to: pieces within the bound, and a rest within it.
abbrev pub IsSplit : ℕ → Option (List Units × Units) → Type 0
IsSplit max none = ⊥
IsSplit max (some (ps, last)) = All (IsWithin max) ps × IsWithin max last

then_piece-IsSplit :
    (max : ℕ) (p : Units) (o : Option (List Units × Units))
    → IsWithin max p
    → IsSplit max o
    → IsSplit max (then_piece p o)
then_piece-IsSplit max p none w h = h
then_piece-IsSplit max p (some (ps, last)) w (a, b) = ((w, a), b)

pub hard_split-IsSplit :
    (fuel max overlap : ℕ) (s : Units)
    → overlap < max
    → length s ≤ fuel
    → 1 ≤ length s
    → IsSplit max (hard_split fuel max overlap s)
unfolding hard_split
hard_split-IsSplit zero max overlap s o f n = absurd (omega arith)
hard_split-IsSplit (suc fuel) max overlap s o f n =
    by_test (IsSplit max) (ltb max (length s)) _ _
      (λ t.
        let long : max < length s = ground arith in
        let on = advance-length long in
        then_piece-IsSplit max (take max s) _
          (record {
            nonempty = omega (arith, length-take max s (omega arith));
            bounded = omega (arith, length-take max s (omega arith));
          })
          (hard_split-IsSplit fuel max overlap (advance max overlap s) o (omega (arith, on))
            (omega (arith, on))))
      (λ t. (tt, record { nonempty = n; bounded = ground arith }))
  where
    advance-length : max < length s → length (advance max overlap s) ≡ length s - (max - overlap)
    advance-length long = ground (arith, length-drop (max - overlap) s)

-- The chunks so far are within the bound, and what is being filled does not exceed it.
pub record IsPacked (max : ℕ) (p : Packing) : Type 0 where
  pub within : All (IsWithin max) p.chunks
  pub room : length p.current ≤ max

flushed-within :
    (max : ℕ) (chunks : List Units) (current : Units)
    → IsPacked max (record { chunks = chunks; current = current })
    → All (IsWithin max) (flushed (record { chunks = chunks; current = current }))
flushed-within max chunks [] h = h.within
flushed-within max chunks (c ∷ s) h =
    All-append (IsWithin max) chunks ((c ∷ s) ∷ []) h.within
      (record { nonempty = omega arith; bounded = h.room }, tt)

length-separated :
    (current para : Units) → length (separated current para) ≡ length current + 2 + length para
length-separated current para = omega (arith, length-append current (newline ∷ newline ∷ para))

pack_short-IsPacked :
    (max overlap : ℕ) (p : Packing) (para : Units)
    → IsPacked max p
    → length para ≤ max
    → IsPacked max (pack_short max overlap p para)
pack_short-IsPacked max overlap p para h short =
    by_test (IsPacked max) (is_empty p.current) _ _
      (λ _. record { within = h.within; room = short })
      (λ full.
        by_test (IsPacked max) (fits max p.current para) _ _
          (λ t. record { within = h.within; room = room p.current t })
          (λ _. record {
            within =
                All-append (IsWithin max) p.chunks (p.current ∷ []) h.within
                  (record { nonempty = filled p.current full; bounded = h.room }, tt);
            room =
                by_test (λ s. length s ≤ max) (fits max (tail_of overlap p.current) para) _ _
                  (room (tail_of overlap p.current)) (λ _. short);
          }))
  where
    room : (s : Units) → fits max s para ≡ true → length (separated s para) ≤ max
    room s t = ground (arith, length-separated s para)

    filled : (s : Units) → is_empty s ≡ false → 1 ≤ length s
    filled [] e = absurd (cc)
    filled (c ∷ s) e = omega arith

abbrev Packs : ℕ → Option Packing → Type 0
Packs max none = ⊥
Packs max (some p) = IsPacked max p

pack-Packs :
    (max overlap : ℕ) (p : Packing) (para : Units)
    → overlap < max
    → IsPacked max p
    → Packs max (pack max overlap p para)
pack-Packs max overlap p para o h =
    by_test (Packs max) (ltb max (length para)) _ _
      (λ t.
        at_split (hard_split (length para) max overlap para)
          (hard_split-IsSplit (length para) max overlap para o (omega arith) (ground arith)))
      (λ t. pack_short-IsPacked max overlap p para h (ground arith))
  where
    at_split : (r : Option (List Units × Units)) → IsSplit max r → Packs max (after_split p r)
    at_split none k = k
    at_split (some (ps, last)) (a, b) = record {
      within = All-append (IsWithin max) (flushed p) ps (flushed-within max p.chunks p.current h) a;
      room = b.bounded;
    }

pack_all-Packs :
    (max overlap : ℕ) (p : Packing) (paras : List Units)
    → overlap < max
    → IsPacked max p
    → Packs max (pack_all max overlap p paras)
unfolding pack_all
pack_all-Packs max overlap p [] o h = h
pack_all-Packs max overlap p (para ∷ paras) o h =
    at_pack (pack max overlap p para) (pack-Packs max overlap p para o h)
      (λ p' k. pack_all-Packs max overlap p' paras o k)
  where
    at_pack :
        (r : Option Packing)
        → Packs max r
        → ((p' : Packing) → IsPacked max p' → Packs max (pack_all max overlap p' paras))
        → Packs max (elim r [ none ↦ none | some p' ↦ pack_all max overlap p' paras ])
    at_pack none k next = k
    at_pack (some p') k next = next p' k

-- The chunker came to an end, with chunks within the bound.
abbrev pub Chunks : ℕ → Option (List Units) → Type 0
Chunks max none = ⊥
Chunks max (some chunks) = All (IsWithin max) chunks

-- Where the overlap is below the maximum the chunker ends on every text, and each of its chunks has
-- one code unit at least and no more than the maximum.
pub chunk_text-Chunks :
    (max overlap : ℕ) (content : Units)
    → overlap < max
    → Chunks max (chunk_text max overlap content)
unfolding chunk_text
chunk_text-Chunks max overlap content o =
    by_test (Chunks max) (is_empty (paragraphs content)) _ _ (λ _. tt)
      (λ _.
        at_end (pack_all max overlap (record { chunks = []; current = [] }) (paragraphs content)) (
          pack_all-Packs max overlap _ (paragraphs content) o
            (record { within = tt; room = omega arith })))
  where
    at_end : (r : Option Packing) → Packs max r → Chunks max (flushed_at_end r)
    at_end none k = k
    at_end (some p) k = flushed-within max p.chunks p.current k
