-- ===== src/Mov/TimeTables.antt =====
-- src/media-server/libmov/source/mov-stts.c: the tables of decoding and composition times. The
-- arrays of a track are lists of the entries in use.
use stream.Base.{
  ℕ, zero, suc, List, [], ◌∷◌, ◌++◌, ◌+◌, ◌-◌, ◌^◌, ◌==◌, u32, u64, bit_or, ltb, leb, if◌then◌else◌,
  ◌&&◌, Outcome, done, fault, assert, ◌>>=◌, ◌>>◌,
}
use stream.Mov.Samples.{MovSample, MovStts}

abbrev pub mov_track_flag_ctts_v1 : ℕ
mov_track_flag_ctts_v1 = 0x0001

-- The loop that `mov_build_stts` and `mov_build_ctts` share, over the samples with their deltas.
-- `sample` points at `head`, which stands in the array in front of `behind`; `start` is what else
-- is done where an entry starts. A track has less than 2 ^ 32 samples, so the count in
-- `first_chunk` does not wrap, and it is never 0 there.
module _ (start : MovSample → ℕ → ℕ) where
  unfoldable pub compress :
      MovSample → List MovSample → List (ℕ × MovSample) → ℕ → ℕ → List MovSample × ℕ × ℕ
  compress head behind [] count flags = (head ∷ behind, count, flags)
  compress head behind ((delta, s) ∷ rest) count flags =
      let merged =
        compress (record head { first_chunk = head.first_chunk + 1 })
          (behind ++ (record s { first_chunk = 0 } ∷ [])) rest count flags in
      let (array, count', flags') =
        compress (record s { first_chunk = 1; samples_per_chunk = delta }) [] rest (count + 1)
          (start s flags) in
      if delta == head.samples_per_chunk then merged else (head ∷ (behind ++ array), count', flags')

  unfoldable pub compress_all : List (ℕ × MovSample) → ℕ → List MovSample × ℕ × ℕ
  compress_all [] flags = ([], 0, flags)
  compress_all ((delta, s) ∷ rest) flags =
      compress (record s { first_chunk = 1; samples_per_chunk = delta }) [] rest 1 (start s flags)

-- The delta of each sample: what follows it, 1 for the last one.
unfoldable pub stts_deltas : List MovSample → Outcome (List (ℕ × MovSample))
stts_deltas [] = done []
stts_deltas (s ∷ []) = done ((1, s) ∷ [])
stts_deltas (s ∷ t ∷ rest) = do
  assert (leb s.dts t.dts)
  deltas ← stts_deltas (t ∷ rest)
  let delta = if ltb s.dts t.dts then u32 (t.dts - s.dts) else 1
  done ((delta, s) ∷ deltas)

-- The samples, of which those with a `first_chunk` start an entry, and the number of entries.
unfoldable pub mov_build_stts : List MovSample → Outcome (List MovSample × ℕ)
mov_build_stts samples = do
  deltas ← stts_deltas samples
  let (samples', count, _) = compress_all (λ _ flags. flags) deltas 0
  done (samples', count)

unfoldable pub ctts_deltas : List MovSample → List (ℕ × MovSample)
ctts_deltas [] = []
ctts_deltas (s ∷ rest) = (u32 (s.pts + 2 ^ 64 - s.dts), s) ∷ ctts_deltas rest

-- The flags of the track where an entry starts.
abbrev pub ctts_start : MovSample → ℕ → ℕ
ctts_start s flags = if ltb s.pts s.dts then bit_or flags mov_track_flag_ctts_v1 else flags

-- With the flags of the track, before and after.
unfoldable pub mov_build_ctts : List MovSample → ℕ → List MovSample × ℕ × ℕ
mov_build_ctts samples flags = compress_all ctts_start (ctts_deltas samples) flags

-- The loops of `mov_apply_stts`: `n` rounds are left of an entry with the delta `d`, `s` is
-- `samples[n - 1]`. The array has one more entry than there are samples, which the last round
-- fills.
unfoldable pub apply_stts :
    List MovStts → ℕ → ℕ → MovSample → List MovSample → Outcome (List MovSample)
apply_stts [] zero d s [] = done (s ∷ [])
apply_stts [] zero d s (t ∷ rest) = fault
apply_stts (e ∷ entries) zero d s rest = apply_stts entries e.sample_count e.sample_delta s rest
apply_stts entries (suc n) d s [] = fault
apply_stts entries (suc n) d s (t ∷ rest) = do
  let dts = u64 (s.dts + d)
  rest' ← apply_stts entries n d (record t { dts = dts; pts = dts }) rest
  done (s ∷ rest')

unfoldable pub mov_apply_stts : List MovStts → List MovSample → Outcome (List MovSample)
mov_apply_stts entries [] = fault
mov_apply_stts entries (s ∷ rest) = apply_stts entries 0 0 s rest

-- `dts_shift`, negated: the largest amount below 0 of a delta as int32_t, where -1 does not count.
unfoldable pub ctts_shift : List MovStts → ℕ → ℕ
ctts_shift [] shift = shift
ctts_shift (e ∷ entries) shift =
    let below = 2 ^ 32 - e.sample_delta in
    ctts_shift entries
      (if leb (2 ^ 31) e.sample_delta && ltb shift below && ltb 1 below then below else shift)

-- An int32_t as an int64_t.
unfoldable pub widen32 : ℕ → ℕ
widen32 v = if ltb v (2 ^ 31) then v else v + 2 ^ 64 - 2 ^ 32

-- The loops of `mov_apply_ctts` from `n` rounds before the end of an entry with the delta `d`; the
-- sum of 32 bits wraps.
unfoldable pub apply_ctts : ℕ → List MovStts → ℕ → ℕ → List MovSample → Outcome (List MovSample)
apply_ctts shift [] zero d [] = done []
apply_ctts shift [] zero d (t ∷ rest) = fault
apply_ctts shift (e ∷ entries) zero d rest =
    apply_ctts shift entries e.sample_count e.sample_delta rest
apply_ctts shift entries (suc n) d [] = fault
apply_ctts shift entries (suc n) d (t ∷ rest) = do
  rest' ← apply_ctts shift entries n d rest
  done (record t { pts = u64 (t.pts + widen32 (u32 (d + shift))) } ∷ rest')

unfoldable pub mov_apply_ctts : List MovStts → List MovSample → Outcome (List MovSample)
mov_apply_ctts [] samples = done samples
mov_apply_ctts (e ∷ entries) samples =
    apply_ctts (ctts_shift (e ∷ entries) 0) (e ∷ entries) 0 0 samples
