-- ===== src/Mov/OffsetApply.antt =====
-- src/media-server/libmov/source/mov-stts.c: applying the table of composition offsets
-- that was built.
use stream.Base.{
  ℕ, zero, suc, List, [], ◌∷◌, ◌++◌, ◌+◌, ◌-◌, ◌^◌, ◌≤◌, ◌<◌, ◌≡◌, refl, sym, ◌∙◌, ap, u32, u64,
  length, replicate, All, lt→ltb, lt→leb_false, arith, done,
}
use stream.Mov.Samples.{MovSample, MovStts}
use stream.Mov.TimeTables.{
  ctts_start, ctts_deltas, mov_build_ctts, ctts_shift, widen32, apply_ctts, mov_apply_ctts,
  compress_all,
}
use stream.Mov.TimeRuns.{entries_of, expand, firsts, expand-compress_all, All-compress_all}
use stream.Mov.TimeApply.{AreBelow}

-- A sample with its composition offset added to its presentation time.
unfoldable pub add_offsets : List MovSample → List MovSample → List MovSample
add_offsets [] fresh = fresh
add_offsets (s ∷ samples) [] = []
add_offsets (s ∷ samples) (f ∷ fresh) =
    record f { pts = u64 (f.pts + (s.pts - s.dts)) } ∷ add_offsets samples fresh

-- Offsets from 0 on, below 2 ^ 31.
abbrev pub HasOffset : MovSample → Type 0
HasOffset s = (s.dts ≤ s.pts) × (s.pts < s.dts + 2 ^ 31)

ctts_shift-none :
    (entries : List MovStts) → All (λ e. e.sample_delta < 2 ^ 31) entries → ctts_shift entries 0 ≡ 0
unfolding ctts_shift
ctts_shift-none [] h = refl
ctts_shift-none (e ∷ entries) (h, hs) =
    rw (lt→leb_false e.sample_delta (2 ^ 31) h) (ctts_shift-none entries hs)

add_all : List ℕ → List MovSample → List MovSample
add_all [] fresh = fresh
add_all (d ∷ ds) [] = []
add_all (d ∷ ds) (f ∷ fresh) =
    record f { pts = u64 (f.pts + widen32 (u32 (d + 0))) } ∷ add_all ds fresh

apply_ctts-expand :
    (entries : List MovStts) (n d : ℕ) (fresh : List MovSample)
    → length fresh ≡ length (replicate n d ++ expand entries)
    → apply_ctts 0 entries n d fresh ≡ done (add_all (replicate n d ++ expand entries) fresh)
unfolding apply_ctts add_all expand
apply_ctts-expand [] zero d [] h = refl
apply_ctts-expand [] zero d (t ∷ rest) h = absurd (omega arith)
apply_ctts-expand (e ∷ entries) zero d fresh h =
    apply_ctts-expand entries e.sample_count e.sample_delta fresh h
apply_ctts-expand [] (suc n) d [] h = absurd (omega arith)
apply_ctts-expand (e ∷ entries) (suc n) d [] h = absurd (omega arith)
apply_ctts-expand [] (suc n) d (t ∷ rest) h = rw (apply_ctts-expand [] n d rest (omega arith))
apply_ctts-expand (e ∷ entries) (suc n) d (t ∷ rest) h =
    rw (apply_ctts-expand (e ∷ entries) n d rest (omega arith))

add_all-offsets :
    (samples fresh : List MovSample)
    → All HasOffset samples
    → AreBelow (2 ^ 63) samples
    → add_all (firsts (ctts_deltas samples)) fresh ≡ add_offsets samples fresh
unfolding add_all firsts ctts_deltas add_offsets widen32
add_all-offsets [] fresh h k = refl
add_all-offsets (s ∷ samples) [] h k = refl
add_all-offsets (s ∷ samples) (f ∷ fresh) (h, hs) (k, ks) =
    let e : u32 (u32 (s.pts + 2 ^ 64 - s.dts) + 0) ≡ s.pts - s.dts = omega arith in
    rw (e, lt→ltb (s.pts - s.dts) (2 ^ 31) (omega arith), add_all-offsets samples fresh hs ks)

mov_apply_ctts-loop :
    (entries : List MovStts) (fresh : List MovSample)
    → length fresh ≡ length (expand entries)
    → mov_apply_ctts entries fresh ≡ apply_ctts (ctts_shift entries 0) entries 0 0 fresh
unfolding mov_apply_ctts expand apply_ctts
mov_apply_ctts-loop [] [] h = refl
mov_apply_ctts-loop [] (f ∷ fresh) h = absurd (omega arith)
mov_apply_ctts-loop (e ∷ entries) fresh h = refl

length-ctts_deltas :
    (samples : List MovSample) → length (firsts (ctts_deltas samples)) ≡ length samples
unfolding firsts ctts_deltas
length-ctts_deltas [] = refl
length-ctts_deltas (s ∷ samples) = ap suc (length-ctts_deltas samples)

small_deltas :
    (samples : List MovSample)
    → All HasOffset samples
    → AreBelow (2 ^ 63) samples
    → All (λ d. d < 2 ^ 31) (firsts (ctts_deltas samples))
unfolding firsts ctts_deltas
small_deltas [] h k = tt
small_deltas (s ∷ samples) (h, hs) (k, ks) = (omega arith, small_deltas samples hs ks)

-- The table of composition offsets that mov_build_ctts makes of samples that are presented when
-- they are decoded or later (by less than 2 ^ 31) is taken by mov_apply_ctts for as many samples:
-- to each presentation time the offset of its own sample is added.
pub mov_apply_ctts-build :
    (samples fresh : List MovSample) (flags : ℕ)
    → All HasOffset samples
    → AreBelow (2 ^ 63) samples
    → length fresh ≡ length samples
    → mov_apply_ctts (entries_of (mov_build_ctts samples flags).0) fresh
      ≡ done (add_offsets samples fresh)
unfolding mov_build_ctts
mov_apply_ctts-build samples fresh flags h k n =
    let start = ctts_start in
    let deltas = ctts_deltas samples in
    let entries = entries_of (compress_all start deltas flags).0 in
    let expanded : expand entries ≡ firsts deltas = expand-compress_all start deltas flags in
    let fits : length fresh ≡ length (expand entries) =
      n ∙ sym (length-ctts_deltas samples) ∙ ap length (sym expanded) in
    let small = All-compress_all start (λ d. d < 2 ^ 31) deltas flags (small_deltas samples h k) in
    rw (
      mov_apply_ctts-loop entries fresh fits,
      ctts_shift-none entries small,
      apply_ctts-expand entries 0 0 fresh fits,
      expanded,
      add_all-offsets samples fresh h k,
    )
