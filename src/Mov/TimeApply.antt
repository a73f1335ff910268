-- ===== src/Mov/TimeApply.antt =====
-- src/media-server/libmov/source/mov-stts.c: applying the tables that were built.
use stream.Base.{
  ℕ, zero, suc, List, [], ◌∷◌, ◌++◌, ◌+◌, ◌-◌, ◌^◌, ◌≤◌, ◌<◌, ◌≡◌, refl, sym, ◌∙◌, ap, u32, u64,
  length, replicate, All, lt→ltb, le→leb, arith, done, ◌>>=◌,
}
use stream.Mov.Samples.{MovSample, MovStts}
use stream.Mov.TimeTables.{stts_deltas, mov_build_stts, apply_stts, mov_apply_stts, compress_all}
use stream.Mov.TimeRuns.{entries_of, expand, firsts, seconds, expand-compress_all}

-- Decoding times that go up from sample to sample, by less than 2 ^ 32.
abbrev pub IsIncreasing : List MovSample → Type 0
IsIncreasing [] = Unit {0}
IsIncreasing (s ∷ []) = Unit {0}
IsIncreasing (s ∷ t ∷ rest) = (s.dts < t.dts) × (t.dts < s.dts + 2 ^ 32) × IsIncreasing (t ∷ rest)

pub gaps : List MovSample → List ℕ
gaps [] = []
gaps (s ∷ []) = 1 ∷ []
gaps (s ∷ t ∷ rest) = (t.dts - s.dts) ∷ gaps (t ∷ rest)

pub with_gaps : List MovSample → List (ℕ × MovSample)
with_gaps [] = []
with_gaps (s ∷ []) = (1, s) ∷ []
with_gaps (s ∷ t ∷ rest) = (t.dts - s.dts, s) ∷ with_gaps (t ∷ rest)

pub firsts-with_gaps : (samples : List MovSample) → firsts (with_gaps samples) ≡ gaps samples
unfolding firsts with_gaps gaps
firsts-with_gaps [] = refl
firsts-with_gaps (s ∷ []) = refl
firsts-with_gaps (s ∷ t ∷ rest) = ap (λ l. (t.dts - s.dts) ∷ l) (firsts-with_gaps (t ∷ rest))

pub seconds-with_gaps : (samples : List MovSample) → seconds (with_gaps samples) ≡ samples
unfolding seconds with_gaps
seconds-with_gaps [] = refl
seconds-with_gaps (s ∷ []) = refl
seconds-with_gaps (s ∷ t ∷ rest) = ap (λ l. s ∷ l) (seconds-with_gaps (t ∷ rest))

pub stts_deltas-gaps :
    (samples : List MovSample)
    → IsIncreasing samples
    → stts_deltas samples ≡ done (with_gaps samples)
unfolding stts_deltas with_gaps
stts_deltas-gaps [] h = refl
stts_deltas-gaps (s ∷ []) h = refl
stts_deltas-gaps (s ∷ t ∷ rest) (p, q, h) =
    let e : u32 (t.dts - s.dts) ≡ t.dts - s.dts = omega arith in
    rw (le→leb s.dts t.dts (omega arith), stts_deltas-gaps (t ∷ rest) h, lt→ltb s.dts t.dts p, e)

-- The samples from the second entry on with times that start at `b`.
set_times : ℕ → List ℕ → List MovSample → List MovSample
set_times b [] rest = rest
set_times b (d ∷ ds) [] = []
set_times b (d ∷ ds) (t ∷ rest) =
    let dts = u64 (b + d) in record t { dts = dts; pts = dts } ∷ set_times dts ds rest

apply_stts-expand :
    (entries : List MovStts) (n d : ℕ) (s : MovSample) (rest : List MovSample)
    → length rest ≡ length (replicate n d ++ expand entries)
    → apply_stts entries n d s rest
      ≡ done (s ∷ set_times s.dts (replicate n d ++ expand entries) rest)
unfolding apply_stts set_times expand
apply_stts-expand [] zero d s [] h = refl
apply_stts-expand [] zero d s (t ∷ rest) h = absurd (omega arith)
apply_stts-expand (e ∷ entries) zero d s rest h =
    apply_stts-expand entries e.sample_count e.sample_delta s rest h
apply_stts-expand [] (suc n) d s [] h = absurd (omega arith)
apply_stts-expand (e ∷ entries) (suc n) d s [] h = absurd (omega arith)
apply_stts-expand [] (suc n) d s (t ∷ rest) h =
    let dts = u64 (s.dts + d) in
    rw (apply_stts-expand [] n d (record t { dts = dts; pts = dts }) rest (omega arith))
apply_stts-expand (e ∷ entries) (suc n) d s (t ∷ rest) h =
    let dts = u64 (s.dts + d) in
    rw (apply_stts-expand (e ∷ entries) n d (record t { dts = dts; pts = dts }) rest (omega arith))

-- The times behind the first one: those of the samples from `b` in place of `first`, and one more
-- tick for the end of the last sample.
unfoldable pub later_times : ℕ → ℕ → List MovSample → List ℕ
later_times b first [] = []
later_times b first (s ∷ []) = (b + (s.dts - first) + 1) ∷ []
later_times b first (s ∷ t ∷ rest) = (b + (t.dts - first)) ∷ later_times b first (t ∷ rest)

unfoldable pub place : List ℕ → List MovSample → List MovSample
place [] rest = rest
place (d ∷ ds) [] = []
place (d ∷ ds) (t ∷ rest) = record t { dts = d; pts = d } ∷ place ds rest

abbrev pub AreBelow : ℕ → List MovSample → Type 0
AreBelow n samples = All (λ s. s.dts < n) samples

set_times-gaps :
    (b first : ℕ) (samples fresh : List MovSample) (c : ℕ) (s : MovSample)
    → IsIncreasing (s ∷ samples)
    → AreBelow (2 ^ 63) (s ∷ samples)
    → b < 2 ^ 63
    → first ≤ s.dts
    → c ≡ b + (s.dts - first)
    → set_times c (gaps (s ∷ samples)) fresh ≡ place (later_times b first (s ∷ samples)) fresh
unfolding set_times gaps place later_times
set_times-gaps b first [] [] c s h k p q e = refl
set_times-gaps b first [] (f ∷ fresh) c s h (k, _) p q e =
    let e' : u64 (c + 1) ≡ b + (s.dts - first) + 1 = omega arith in rw e'
set_times-gaps b first (t ∷ samples) [] c s h k p q e = refl
set_times-gaps b first (t ∷ samples) (f ∷ fresh) c s (h, h', hs) (k, (k', ks)) p q e =
    let e' : u64 (c + (t.dts - s.dts)) ≡ b + (t.dts - first) = omega arith in
    rw e' (
      ap (λ l. record f { dts = b + (t.dts - first); pts = b + (t.dts - first) } ∷ l)
        (set_times-gaps b first samples fresh (b + (t.dts - first)) t hs (k', ks) p (omega arith)
          refl))

length-gaps : (samples : List MovSample) → length (gaps samples) ≡ length samples
unfolding gaps
length-gaps [] = refl
length-gaps (s ∷ []) = refl
length-gaps (s ∷ t ∷ rest) = ap suc (length-gaps (t ∷ rest))

-- The table of decoding times that mov_build_stts makes of a track whose decoding times go up, by
-- less than 2 ^ 32 a step, is taken by mov_apply_stts for an array with one entry more than there
-- are samples: the first entry stays, the others have the decoding times of the samples, counted
-- from the first entry's, and the last is one tick behind the last sample.
pub mov_apply_stts-build :
    (s f : MovSample) (samples fresh : List MovSample)
    → IsIncreasing (s ∷ samples)
    → AreBelow (2 ^ 63) (s ∷ samples)
    → f.dts < 2 ^ 63
    → length fresh ≡ length (s ∷ samples)
    → (mov_build_stts (s ∷ samples) >>= λ built. mov_apply_stts (entries_of built.0) (f ∷ fresh))
      ≡ done (f ∷ place (later_times f.dts s.dts (s ∷ samples)) fresh)
unfolding mov_build_stts mov_apply_stts
mov_apply_stts-build s f samples fresh h k b n =
    let deltas = with_gaps (s ∷ samples) in
    let entries = entries_of (compress_all (λ _ flags. flags) deltas 0).0 in
    let expanded : expand entries ≡ gaps (s ∷ samples) =
      expand-compress_all (λ _ flags. flags) deltas 0 ∙ firsts-with_gaps (s ∷ samples) in
    rw (
      stts_deltas-gaps (s ∷ samples) h,
      apply_stts-expand entries 0 0 f fresh
          (n ∙ sym (length-gaps (s ∷ samples)) ∙ ap length (sym expanded)),
      expanded,
      set_times-gaps f.dts s.dts samples fresh f.dts s h k b (omega arith) (omega arith),
    )
