-- ===== src/Mov/TimeKept.antt =====
-- src/media-server/libmov/source/mov-stts.c: building the time tables leaves the samples as they
-- are, less the two fields that the tables use.
use stream.Base.{ℕ, List, [], ◌∷◌, ◌≡◌, refl, ◌∙◌, ap, length, done}
use stream.Mov.Samples.{MovSample}
use stream.Mov.TimeTables.{ctts_start, ctts_deltas, mov_build_stts, mov_build_ctts, compress_all}
use stream.Mov.TimeRuns.{
  entries_of, expand, firsts, seconds, erase_all, expand-compress_all, count-compress_all,
  erase_all-compress_all,
}
use stream.Mov.TimeApply.{
  IsIncreasing, gaps, with_gaps, firsts-with_gaps, seconds-with_gaps, stts_deltas-gaps,
}

-- For decoding times that go up from sample to sample, by less than 2 ^ 32, mov_build_stts fails no
-- assertion; it leaves the samples as they are but for the two fields that hold the table, the
-- number that it returns is the number of entries, and the entries stand, in order, for the
-- distances from each decoding time to the next (1 for the last).
pub mov_build_stts-keeps :
    (samples : List MovSample)
    → IsIncreasing samples
    → (built : List MovSample × ℕ) × (mov_build_stts samples ≡ done built)
      × (erase_all built.0 ≡ erase_all samples)
      × (built.1 ≡ length (entries_of built.0))
      × (expand (entries_of built.0) ≡ gaps samples)
unfolding mov_build_stts
mov_build_stts-keeps samples h =
    let deltas = with_gaps samples in
    let start : MovSample → ℕ → ℕ = λ _ flags. flags in
    let built = compress_all start deltas 0 in
    (
      (built.0, built.1),
      rw (stts_deltas-gaps samples h),
      erase_all-compress_all start deltas 0 ∙ ap erase_all (seconds-with_gaps samples),
      count-compress_all start deltas 0,
      expand-compress_all start deltas 0 ∙ firsts-with_gaps samples,
    )

seconds-ctts_deltas : (samples : List MovSample) → seconds (ctts_deltas samples) ≡ samples
unfolding seconds ctts_deltas
seconds-ctts_deltas [] = refl
seconds-ctts_deltas (s ∷ samples) = ap (λ l. s ∷ l) (seconds-ctts_deltas samples)

-- mov_build_ctts leaves all samples as they are but for the two fields that hold the table, the
-- number that it returns is the number of entries, and the entries stand, in order, for the
-- composition offsets of the samples (as uint32_t).
pub mov_build_ctts-keeps :
    (samples : List MovSample) (flags : ℕ)
    → (erase_all (mov_build_ctts samples flags).0 ≡ erase_all samples)
      × ((mov_build_ctts samples flags).1 ≡ length (entries_of (mov_build_ctts samples flags).0))
      × (expand (entries_of (mov_build_ctts samples flags).0) ≡ firsts (ctts_deltas samples))
unfolding mov_build_ctts
mov_build_ctts-keeps samples flags =
    let start = ctts_start in
    let deltas = ctts_deltas samples in
    (
      erase_all-compress_all start deltas flags ∙ ap erase_all (seconds-ctts_deltas samples),
      count-compress_all start deltas flags,
      expand-compress_all start deltas flags,
    )
