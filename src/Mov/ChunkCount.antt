-- ===== src/Mov/ChunkCount.antt =====
-- src/media-server/libmov/source/mov-stco.c: the numbers of the chunks that are built, and what
-- stays of the samples.
use stream.Base.{
  ℕ, suc, List, [], ◌∷◌, ◌++◌, ◌+◌, ◌<◌, ◌≤◌, ◌≡◌, refl, ◌∙◌, ap, ◌==◌, u64, Bool-cases, inl, inr,
  length, All, true, arith, Option, some, none,
}
use mathlib.Core.List.{append_assoc, append-nil}
use stream.Mov.Samples.{MovSample}
use stream.Mov.TimeRuns.{erase, erase_all, erase_all-append}
use stream.Mov.ChunkTables.{chunk, follows, mov_build_stco}
use stream.Mov.ChunkBoxes.{skips}
use stream.Mov.ChunkBuild.{chunk_heads, IsMarked, chunk_heads-head, chunk_heads-last, All-snoc}
use stream.Mov.ChunkApply.{entry_of, stsc_entries, IsNumbered, total_samples}

-- What holds of the chunks that are counted from `count` on.
pub record IsCounted (count : ℕ) (samples : ℕ) (built : List MovSample × ℕ) : Type 0 where
  pub numbered : IsNumbered count (chunk_heads built.0)
  pub counted : built.1 + 1 ≡ count + length (chunk_heads built.0)
  pub covers : total_samples (chunk_heads built.0) ≡ samples
  pub some_chunk : 0 < length (chunk_heads built.0)
  pub at_most : length (chunk_heads built.0) ≤ samples

IsCounted-last :
    (head : MovSample) (behind : List MovSample) (count : ℕ)
    → 0 < count
    → head.first_chunk ≡ count
    → 0 < head.samples_per_chunk
    → All IsMarked behind
    → IsCounted count head.samples_per_chunk (head ∷ behind, count)
unfolding total_samples
IsCounted-last head behind count p e k m =
    let l = chunk_heads-last head behind (omega arith) m in
    record {
      numbered = rw l (e, tt);
      counted = rw l refl;
      covers = rw l (omega arith);
      some_chunk = rw l (omega arith);
      at_most = rw l k;
    }

IsCounted-more :
    (head : MovSample) (behind : List MovSample) (count n : ℕ) (later : List MovSample × ℕ)
    → 0 < count
    → head.first_chunk ≡ count
    → 0 < head.samples_per_chunk
    → All IsMarked behind
    → IsCounted (count + 1) n later
    → IsCounted count (head.samples_per_chunk + n) (head ∷ (behind ++ later.0), later.1)
unfolding total_samples
IsCounted-more head behind count n later p e k m h =
    let l = chunk_heads-head head behind later.0 (omega arith) m in
    let c = h.counted in
    let t = h.covers in
    let a = h.at_most in
    record {
      numbered = rw l (e, h.numbered);
      counted = rw l (omega arith);
      covers = rw l (omega arith);
      some_chunk = rw l (omega arith);
      at_most = rw l (omega arith);
    }

IsCounted-chunk :
    (head : MovSample) (behind : List MovSample) (bytes : ℕ) (rest : List MovSample) (count n : ℕ)
    → 0 < count
    → head.first_chunk ≡ count
    → 0 < head.samples_per_chunk
    → All IsMarked behind
    → n ≡ head.samples_per_chunk + length rest
    → IsCounted count n (chunk head behind bytes rest count)
unfolding chunk
IsCounted-chunk head behind bytes [] count n p e k m l =
    let l' : n ≡ head.samples_per_chunk = omega arith in
    rw l' (IsCounted-last head behind count p e k m)
IsCounted-chunk head behind bytes (s ∷ rest) count n p e k m l =
    elim (Bool-cases (follows head bytes s)) [
      | inl t ↦ rw t (
          IsCounted-chunk (record head { samples_per_chunk = head.samples_per_chunk + 1 })
            (behind ++ (record s { first_chunk = 0 } ∷ [])) (u64 (bytes + s.bytes)) rest count n p e
            (omega arith) (All-snoc behind (record s { first_chunk = 0 }) m refl) (omega arith))
      | inr t ↦
          let next = record s { first_chunk = count + 1; samples_per_chunk = 1 } in
          let later =
            IsCounted-chunk next [] s.bytes rest (count + 1) (suc (length rest)) (omega arith) refl
              (omega arith) tt (omega arith) in
          rw (t, l) (IsCounted-more head behind count (suc (length rest)) _ p e k m later)
    ]

pub mov_build_stco-IsCounted :
    (s : MovSample) (rest : List MovSample)
    → IsCounted 1 (1 + length rest) (mov_build_stco (s ∷ rest))
unfolding mov_build_stco
mov_build_stco-IsCounted s rest =
    IsCounted-chunk (record s { first_chunk = 1; samples_per_chunk = 1 }) [] s.bytes rest 1
      (1 + length rest) (omega arith) refl (omega arith) tt refl

erase_all-chunk :
    (head : MovSample) (behind : List MovSample) (bytes : ℕ) (rest : List MovSample) (count : ℕ)
    → erase_all (chunk head behind bytes rest count).0
      ≡ erase head ∷ (erase_all behind ++ erase_all rest)
unfolding chunk erase_all
erase_all-chunk head behind bytes [] count = rw append-nil
erase_all-chunk head behind bytes (s ∷ rest) count = elim (Bool-cases (follows head bytes s)) [
  | inl t ↦ rw t (
      erase_all-chunk (record head { samples_per_chunk = head.samples_per_chunk + 1 })
        (behind ++ (record s { first_chunk = 0 } ∷ [])) (u64 (bytes + s.bytes)) rest count
      ∙ ap (λ l. erase head ∷ (l ++ erase_all rest))
          (erase_all-append behind (record s { first_chunk = 0 } ∷ []))
      ∙ ap (λ l. erase head ∷ l) (append_assoc (erase_all behind) (erase s ∷ []) (erase_all rest)))
  | inr t ↦
      let next = record s { first_chunk = count + 1; samples_per_chunk = 1 } in
      rw t (
        ap (λ l. erase head ∷ l)
          (erase_all-append behind (chunk next [] s.bytes rest (count + 1)).0
            ∙ ap (λ l. erase_all behind ++ l) (erase_all-chunk next [] s.bytes rest (count + 1))))
]

zero_skips : (c : Option MovSample) (s : MovSample) → (s.first_chunk == 0) ≡ true → skips c s ≡ true
unfolding skips
zero_skips none s e = e
zero_skips (some c) s e = rw e

-- Only samples that start a chunk matter to the sample-to-chunk table.
pub stsc_entries-heads :
    (c : Option MovSample) (samples : List MovSample)
    → stsc_entries c samples ≡ stsc_entries c (chunk_heads samples)
unfolding stsc_entries chunk_heads
stsc_entries-heads c [] = refl
stsc_entries-heads c (s ∷ samples) = elim (Bool-cases (s.first_chunk == 0)) [
  | inl e ↦ rw (e, zero_skips c s e) (stsc_entries-heads c samples)
  | inr e ↦ rw e (elim (Bool-cases (skips c s)) [
    | inl t ↦ rw t (stsc_entries-heads c samples)
    | inr t ↦ rw t (ap (λ l. entry_of s ∷ l) (stsc_entries-heads (some s) samples))
  ])
]

-- mov_build_stco leaves all samples as they are but for the two fields that hold the chunks. The
-- chunks have the numbers from 1 on, the number that it returns is how many there are, and
-- together they have as many samples as the track.
pub mov_build_stco-keeps :
    (samples : List MovSample)
    → (erase_all (mov_build_stco samples).0 ≡ erase_all samples)
      × IsNumbered 1 (chunk_heads (mov_build_stco samples).0)
      × ((mov_build_stco samples).1 ≡ length (chunk_heads (mov_build_stco samples).0))
      × (total_samples (chunk_heads (mov_build_stco samples).0) ≡ length samples)
unfolding mov_build_stco erase_all chunk_heads total_samples
mov_build_stco-keeps [] = (refl, tt, refl, refl)
mov_build_stco-keeps (s ∷ rest) =
    let h = mov_build_stco-IsCounted s rest in
    let c = h.counted in
    let t = h.covers in
    (
      erase_all-chunk (record s { first_chunk = 1; samples_per_chunk = 1 }) [] s.bytes rest 1,
      h.numbered,
      omega arith,
      omega arith,
    )
