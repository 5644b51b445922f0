-- ===== src/Indexing/Chunk/Roundtrip.antt =====
-- Chunks of one paragraph are put together again as that paragraph.
use warehousd.Prelude.{
  ℕ, zero, suc, ◌+◌, ◌-◌, ◌≤◌, ◌<◌, ◌≡◌, refl, sym, ap, ◌∙◌, subst, true, Option, none, some, List,
  [], ◌∷◌, ◌++◌, append_assoc, length, take, drop, length-append, is_empty, ltb, if◌then◌else◌,
  by_test, arith,
}
use warehousd.Indexing.Text.{Units, same_units, ends_with}
use warehousd.Indexing.Chunk.{
  min, longest_match, joined, reassemble_from, reassemble_chunks, Packing, advance, then_piece,
  hard_split, after_split, pack, pack_all, flushed_at_end, paragraphs, chunk_text,
}
use warehousd.Indexing.Chunk.Laws.{IsSplit, length-drop, length-take, hard_split-IsSplit}

take-drop : (n : ℕ) (s : Units) → take n s ++ drop n s ≡ s
take-drop zero s = refl
take-drop (suc n) [] = refl
take-drop (suc n) (c ∷ s) = ap (λ t. c ∷ t) (take-drop n s)

take-add : (a b n : ℕ) (s : Units) → n ≡ a + b → take n s ≡ take a s ++ take b (drop a s)
take-add zero b n s e = ap (λ k. take k s) (omega arith)
take-add (suc a) b zero s e = absurd (omega arith)
take-add (suc a) zero (suc n) [] e = refl
take-add (suc a) (suc b) (suc n) [] e = refl
take-add (suc a) b (suc n) (c ∷ s) e = ap (λ t. c ∷ t) (take-add a b n s (omega arith))

take-take : (a b : ℕ) (s : Units) → a ≤ b → take a (take b s) ≡ take a s
take-take zero b s h = refl
take-take (suc a) zero s h = absurd (omega arith)
take-take (suc a) (suc b) [] h = refl
take-take (suc a) (suc b) (c ∷ s) h = ap (λ t. c ∷ t) (take-take a b s (omega arith))

drop-append : (o t : Units) → drop (length o) (o ++ t) ≡ t
drop-append [] t = refl
drop-append (c ∷ o) t = drop-append o t

same_units_refl : (s : Units) → same_units s s ≡ true
same_units_refl [] = refl
same_units_refl (c ∷ s) = ground (arith, same_units_refl s)

ends_with-append : (o t : Units) → ends_with (o ++ t) t ≡ true
ends_with-append o t =
    let long : length (o ++ t) - length t ≡ length o = omega (arith, length-append o t) in
    ap (λ n. same_units (drop n (o ++ t)) t) long
    ∙ ap (λ s. same_units s t) (drop-append o t)
    ∙ same_units_refl t

longest_match_all :
    (out next : Units) (n : ℕ) → ends_with out (take n next) ≡ true → longest_match out next n ≡ n
unfolding longest_match
longest_match_all out next zero h = refl
longest_match_all out next (suc n) h = rw (h, if◌then◌else◌) refl

-- A chunk that begins with the overlap that the text so far ends with adds what follows it.
joined_lem :
    (overlap : ℕ) (o next : Units)
    → overlap ≤ length next
    → joined overlap (o ++ take overlap next) next ≡ o ++ next
joined_lem overlap o next h =
    let out = o ++ take overlap next in
    let window : min overlap (min (length out) (length next)) ≡ overlap =
      ground (arith, length-append o (take overlap next), length-take overlap next h) in
    let matched : longest_match out next overlap ≡ overlap =
      longest_match_all out next overlap (ends_with-append o (take overlap next)) in
    ap (λ n. out ++ drop (longest_match out next n) next) window
    ∙ ap (λ n. out ++ drop n next) matched
    ∙ append_assoc o (take overlap next) (drop overlap next)
    ∙ ap (λ s. o ++ s) (take-drop overlap next)

-- The first code units of a piece, as what came before and the overlap with the next piece.
take-overlap :
    (max overlap : ℕ) (o s : Units)
    → overlap < max
    → o ++ take max s ≡ (o ++ take (max - overlap) s) ++ take overlap (drop (max - overlap) s)
take-overlap max overlap o s h =
    ap (λ t. o ++ t) (take-add (max - overlap) overlap max s (omega arith))
    ∙ sym (append_assoc o (take (max - overlap) s) (take overlap (drop (max - overlap) s)))

abbrev pub Rejoins : ℕ → Units → Units → Option (List Units × Units) → Type 0
Rejoins overlap out s none = Unit
Rejoins overlap out s (some (ps, last)) = reassemble_from overlap out (ps ++ last ∷ []) ≡ s

then_piece-Rejoins :
    (overlap : ℕ) (out s p : Units) (o : Option (List Units × Units))
    → Rejoins overlap (joined overlap out p) s o
    → Rejoins overlap out s (then_piece p o)
unfolding reassemble_from
then_piece-Rejoins overlap out s p none h = tt
then_piece-Rejoins overlap out s p (some (ps, last)) h = h

-- The first piece of a long text joined, the rest of the text is to be joined on.
piece-Rejoins :
    (max overlap : ℕ) (o s : Units) (r : Option (List Units × Units))
    → overlap < max
    → max < length s
    → let done = o ++ take (max - overlap) s in
      let left = drop (max - overlap) s in
      Rejoins overlap (done ++ take overlap left) (done ++ left) r
      → Rejoins overlap (joined overlap (o ++ take overlap s) (take max s)) (o ++ s) r
piece-Rejoins max overlap o s r h long rest =
    let whole : (o ++ take (max - overlap) s) ++ drop (max - overlap) s ≡ o ++ s =
      append_assoc o (take (max - overlap) s) (drop (max - overlap) s)
      ∙ ap (λ x. o ++ x) (take-drop (max - overlap) s) in
    let out : (o ++ take (max - overlap) s) ++ take overlap (drop (max - overlap) s)
        ≡ joined overlap (o ++ take overlap s) (take max s) =
      sym (take-overlap max overlap o s h)
      ∙ sym (joined_lem overlap o (take max s) (omega (arith, length-take max s (omega arith))))
      ∙ ap (λ x. joined overlap (o ++ x) (take max s)) (take-take overlap max s (omega arith)) in
    subst (λ x. Rejoins overlap x (o ++ s) r) out
      (subst
        (λ x.
          Rejoins overlap ((o ++ take (max - overlap) s) ++ take overlap (drop (max - overlap) s)) x
            r)
        whole rest)

advance-drop :
    (max overlap : ℕ) (s : Units) → overlap < max → drop (max - overlap) s ≡ advance max overlap s
advance-drop max overlap s h = ground arith

hard_split-Rejoins :
    (fuel max overlap : ℕ) (o s : Units)
    → overlap < max
    → overlap ≤ length s
    → Rejoins overlap (o ++ take overlap s) (o ++ s) (hard_split fuel max overlap s)
unfolding hard_split reassemble_from
hard_split-Rejoins zero max overlap o s h k =
    by_test (Rejoins overlap (o ++ take overlap s) (o ++ s)) (ltb max (length s)) _ _ (λ _. tt)
      (λ _. joined_lem overlap o s k)
hard_split-Rejoins (suc fuel) max overlap o s h k =
    by_test (Rejoins overlap (o ++ take overlap s) (o ++ s)) (ltb max (length s)) _ _
      (λ t. then_piece-Rejoins overlap (o ++ take overlap s) (o ++ s) (take max s) _ (
        subst
          (λ x.
            Rejoins overlap (joined overlap (o ++ take overlap s) (take max s)) (o ++ s)
              (hard_split fuel max overlap x))
          (advance-drop max overlap s h)
          (piece-Rejoins max overlap o s _ h (ground arith) (
            hard_split-Rejoins fuel max overlap (o ++ take (max - overlap) s)
              (drop (max - overlap) s) h (ground (arith, length-drop (max - overlap) s))))))
      (λ _. joined_lem overlap o s k)

-- The same of the chunks of a text.
abbrev pub Reassembles : ℕ → Units → Option (List Units) → Type 0
Reassembles overlap s none = ⊥
Reassembles overlap s (some chunks) = reassemble_chunks overlap chunks ≡ s

pieces-Reassembles :
    (max overlap : ℕ) (s : Units) (o : Option (List Units × Units))
    → overlap < max
    → max < length s
    → IsSplit max (then_piece (take max s) o)
    → Rejoins overlap (take max s) s o
    → Reassembles overlap s (
        flushed_at_end
          (after_split (record { chunks = []; current = [] }) (then_piece (take max s) o)))
unfolding reassemble_chunks
pieces-Reassembles max overlap s none h long k r = k
pieces-Reassembles max overlap s (some (ps, [])) h long (_, k) r =
    absurd (omega (arith, k.nonempty))
pieces-Reassembles max overlap s (some (ps, c ∷ last)) h long k r = r

abbrev nothing : Packing
nothing = record { chunks = []; current = [] }

hard_split_more :
    (fuel max overlap : ℕ) (s : Units)
    → ltb max (length s) ≡ true
    → hard_split (suc fuel) max overlap s
      ≡ then_piece (take max s) (hard_split fuel max overlap (advance max overlap s))
unfolding hard_split
hard_split_more fuel max overlap s t = rw (t, if◌then◌else◌) refl

pack-Reassembles :
    (max overlap : ℕ) (s : Units)
    → overlap < max
    → Reassembles overlap s (flushed_at_end (pack max overlap nothing s))
unfolding reassemble_chunks
pack-Reassembles max overlap [] h = ground arith
pack-Reassembles max overlap (c ∷ s) h =
    by_test (λ o. Reassembles overlap (c ∷ s) (flushed_at_end o)) (ltb max (length (c ∷ s))) _ _
      long (λ _. refl)
  where
    long :
        ltb max (length (c ∷ s)) ≡ true
        → Reassembles overlap
            (c ∷ s)
            (flushed_at_end (after_split nothing (hard_split (length (c ∷ s)) max overlap (c ∷ s))))
    long t =
        let over : max < length (c ∷ s) = ground arith in
        let rest = hard_split (length s) max overlap (advance max overlap (c ∷ s)) in
        let split : hard_split (suc (length s)) max overlap (c ∷ s)
            ≡ then_piece (take max (c ∷ s)) rest =
          hard_split_more (length s) max overlap (c ∷ s) t in
        let within =
          hard_split-IsSplit (suc (length s)) max overlap (c ∷ s) h (omega arith) (omega arith) in
        let left = drop (max - overlap) (c ∷ s) in
        let joins =
          hard_split-Rejoins (length s) max overlap (take (max - overlap) (c ∷ s)) left h
            (ground (arith, length-drop (max - overlap) (c ∷ s))) in
        let start : take (max - overlap) (c ∷ s) ++ take overlap left ≡ take max (c ∷ s) =
          sym (take-overlap max overlap [] (c ∷ s) h) in
        subst (λ o. Reassembles overlap (c ∷ s) (flushed_at_end (after_split nothing o)))
          (sym split)
          (pieces-Reassembles max overlap (c ∷ s) rest h over (subst (IsSplit max) split within) (
            subst (λ x. Rejoins overlap x (c ∷ s) rest) start
              (subst
                (λ x. Rejoins overlap (take (max - overlap) (c ∷ s) ++ take overlap left) x rest)
                (take-drop (max - overlap) (c ∷ s))
                (subst
                  (λ x.
                    Rejoins overlap (take (max - overlap) (c ∷ s) ++ take overlap left)
                      (take (max - overlap) (c ∷ s) ++ left) (hard_split (length s) max overlap x))
                  (advance-drop max overlap (c ∷ s) h) joins))))

pack_all_one :
    (max overlap : ℕ) (s : Units) (o : Option Packing)
    → Reassembles overlap s (flushed_at_end o)
    → Reassembles overlap s
        (flushed_at_end (elim o [ none ↦ none | some p ↦ pack_all max overlap p [] ]))
unfolding pack_all
pack_all_one max overlap s none h = h
pack_all_one max overlap s (some p) h = h

-- A text of one paragraph, however long, is chunked, and its chunks are put together again as that
-- paragraph, under the overlap that they were made with, where that is below the maximum.
pub reassemble-chunk_text :
    (max overlap : ℕ) (content paragraph : Units)
    → overlap < max
    → paragraphs content ≡ paragraph ∷ []
    → Reassembles overlap paragraph (chunk_text max overlap content)
unfolding chunk_text pack_all
reassemble-chunk_text max overlap content s h one =
    subst
      (λ ps.
        Reassembles overlap s
          (if is_empty ps then some [] else flushed_at_end (pack_all max overlap nothing ps)))
      (sym one)
      (pack_all_one max overlap s (pack max overlap nothing s) (pack-Reassembles max overlap s h))
