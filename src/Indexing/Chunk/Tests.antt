-- ===== src/Indexing/Chunk/Tests.antt =====
-- Runs of indexing/chunk.ts with small bounds, and its theorems at them.
use warehousd.Prelude.{◌≡◌, refl, some, [], ◌∷◌, arith}
use warehousd.Indexing.Text.{Units, trim, split_paragraphs}
use warehousd.Indexing.Chunk.{chunk_text, hard_split, pack_all, paragraphs}
use warehousd.Indexing.Chunk.Laws.{Chunks, chunk_text-Chunks}
use warehousd.Indexing.Chunk.Roundtrip.{Reassembles, reassemble-chunk_text}

-- "abcdefg", and "ab\n\n\ncd\n\nabcdefg ".
abbrev letters : Units
letters = 97 ∷ 98 ∷ 99 ∷ 100 ∷ 101 ∷ 102 ∷ 103 ∷ []

abbrev page : Units
page = 97 ∷ 98 ∷ 10 ∷ 10 ∷ 10 ∷ 99 ∷ 100 ∷ 10 ∷ 10 ∷ 97 ∷ 98 ∷ 99 ∷ 100 ∷ 101 ∷ 102 ∷ 103 ∷ 32 ∷ []

page_run :
    chunk_text 6 2 page
    ≡ some (
        (97 ∷ 98 ∷ 10 ∷ 10 ∷ 99 ∷ 100 ∷ [])
        ∷ (97 ∷ 98 ∷ 99 ∷ 100 ∷ 101 ∷ 102 ∷ [])
        ∷ (101 ∷ 102 ∷ 103 ∷ [])
        ∷ [])
unfolding chunk_text trim split_paragraphs pack_all hard_split
page_run = refl

one_run : paragraphs letters ≡ letters ∷ []
unfolding trim split_paragraphs
one_run = refl

chunk_text-Chunks_example : Chunks 6 (chunk_text 6 2 page)
chunk_text-Chunks_example = chunk_text-Chunks 6 2 page (omega arith)

reassemble-chunk_text_example : Reassembles 2 letters (chunk_text 4 2 letters)
reassemble-chunk_text_example = reassemble-chunk_text 4 2 letters letters (omega arith) one_run
