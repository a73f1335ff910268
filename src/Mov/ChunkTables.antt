-- ===== src/Mov/ChunkTables.antt =====
-- src/media-server/libmov/source/mov-stco.c: the chunks that samples are stored in.
-- The arrays of a track are lists of the entries in use.
use stream.Base.{
  ℕ, zero, suc, List, [], ◌∷◌, ◌++◌, ◌+◌, ◌-◌, ◌==◌, ◌&&◌, u32, u64, ltb, leb, if◌then◌else◌,
  length, Bool, Outcome, done, fault, assert, ◌>>=◌, ◌>>◌,
}
use stream.Mov.Samples.{MovSample, MovStsc}

-- `sample->offset + bytes == track->samples[i].offset` and the same description.
abbrev pub follows : MovSample → ℕ → MovSample → Bool
follows head bytes s =
    (u64 (head.offset + bytes) == s.offset)
    && (head.sample_description_index == s.sample_description_index)

-- The loop of `mov_build_stco`. `sample` points at `head`, which stands in the array in front of
-- `behind`. A track has less than 2 ^ 32 samples, so no count wraps.
unfoldable pub chunk : MovSample → List MovSample → ℕ → List MovSample → ℕ → List MovSample × ℕ
chunk head behind bytes [] count = (head ∷ behind, count)
chunk head behind bytes (s ∷ rest) count =
    let merged =
      chunk (record head { samples_per_chunk = head.samples_per_chunk + 1 })
        (behind ++ (record s { first_chunk = 0 } ∷ [])) (u64 (bytes + s.bytes)) rest count in
    let (array, count') =
      chunk (record s { first_chunk = count + 1; samples_per_chunk = 1 }) [] s.bytes rest
        (count + 1) in
    if follows head bytes s then merged else (head ∷ (behind ++ array), count')

-- The samples, of which those with a `first_chunk` start a chunk, and the number of chunks. The
-- track has a sample description.
unfoldable pub mov_build_stco : List MovSample → List MovSample × ℕ
mov_build_stco [] = ([], 0)
mov_build_stco (s ∷ rest) =
    chunk (record s { first_chunk = 1; samples_per_chunk = 1 }) [] s.bytes rest 1

-- `stbl->stco[j - 1]`.
unfoldable pub chunk_offset_at : ℕ → List ℕ → Outcome ℕ
chunk_offset_at zero stco = fault
chunk_offset_at (suc j) [] = fault
chunk_offset_at (suc zero) (offset ∷ stco) = done offset
chunk_offset_at (suc (suc j)) (offset ∷ stco) = chunk_offset_at (suc j) stco

-- `stbl->stsc[i + 1].first_chunk`, where the entry behind the last has the number of chunks plus 1.
unfoldable pub next_chunk : List MovStsc → ℕ → ℕ
next_chunk [] stco_count = u32 (stco_count + 1)
next_chunk (e ∷ entries) stco_count = e.first_chunk

module _ (stco : List ℕ) where
  -- The loops of `mov_apply_stco`: `k` samples are left of a chunk, the next of them at
  -- `offset`, and `r` chunks from the number `j` on of the entry `e`; the sample before ends at `end`
  -- (0 for the first one). The entry behind the samples has no bytes, so taking it for a sample
  -- fails an assertion.
  unfoldable pub apply_stco :
      ℕ → ℕ → List MovStsc → MovStsc → ℕ → ℕ → ℕ → List MovSample → Outcome (List MovSample)
  apply_stco (suc k) r entries e j offset end [] = fault
  apply_stco (suc k) r entries e j offset end (s ∷ rest) = do
    assert (ltb 0 s.bytes)
    assert (leb end offset)
    let next = u64 (offset + s.bytes)
    rest' ← apply_stco k r entries e j next next rest
    let placed = record s { sample_description_index = e.sample_description_index; offset = offset }
    done (placed ∷ rest')
  apply_stco zero (suc r) entries e j offset end rest = do
    chunk_offset ← chunk_offset_at j stco
    apply_stco e.samples_per_chunk r entries e (j + 1) chunk_offset end rest
  apply_stco zero zero (e' ∷ entries) e j offset end rest = do
    assert (leb e'.first_chunk (length stco))
    apply_stco zero (next_chunk entries (length stco) - e'.first_chunk) entries e' e'.first_chunk
        offset end rest
  apply_stco zero zero [] e j offset end [] = done []
  apply_stco zero zero [] e j offset end (s ∷ rest) = fault

  unfoldable pub mov_apply_stco : List MovStsc → List MovSample → Outcome (List MovSample)
  mov_apply_stco [] samples = fault
  mov_apply_stco (e ∷ entries) samples = do
    assert (ltb 0 (length stco))
    apply_stco zero zero (e ∷ entries) e 0 0 0 samples
