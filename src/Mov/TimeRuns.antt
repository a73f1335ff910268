-- ===== src/Mov/TimeRuns.antt =====
-- src/media-server/libmov/source/mov-stts.c: the run lengths of the time tables stand for the
-- deltas that they were built of.
use stream.Base.{
  ℕ, zero, suc, List, [], ◌∷◌, ◌++◌, ◌+◌, ◌<◌, ◌≡◌, refl, sym, ◌∙◌, ap, ◌==◌, if◌then◌else◌,
  Bool-cases, inl, inr, length, replicate, All, true, false, arith,
}
use native.Mathlib.Nat.{suc-add}
use mathlib.Core.List.{append_assoc, append-nil}
use stream.Mov.Samples.{MovSample, MovStts}
use stream.Mov.TimeTables.{compress, compress_all}

-- The entries that the samples of a built table stand for.
unfoldable pub entries_of : List MovSample → List MovStts
entries_of [] = []
entries_of (s ∷ samples) =
    let rest = entries_of samples in
    if s.first_chunk == 0
    then rest
    else record { sample_count = s.first_chunk; sample_delta = s.samples_per_chunk } ∷ rest

-- The delta of each sample.
unfoldable pub expand : List MovStts → List ℕ
expand [] = []
expand (e ∷ entries) = replicate e.sample_count e.sample_delta ++ expand entries

unfoldable pub firsts : List (ℕ × MovSample) → List ℕ
firsts [] = []
firsts ((d, s) ∷ rest) = d ∷ firsts rest

-- A sample less what the tables use as scratch.
abbrev pub erase : MovSample → MovSample
erase s = record s { samples_per_chunk = 0; first_chunk = 0 }

unfoldable pub erase_all : List MovSample → List MovSample
erase_all [] = []
erase_all (s ∷ samples) = erase s ∷ erase_all samples

unfoldable pub seconds : List (ℕ × MovSample) → List MovSample
seconds [] = []
seconds ((d, s) ∷ rest) = s ∷ seconds rest

abbrev IsMarked : MovSample → Type 0
IsMarked s = s.first_chunk ≡ 0

zero_test : (n : ℕ) → n ≡ 0 → (n == 0) ≡ true
zero_test n h = ground arith

positive_test : (n : ℕ) → 0 < n → (n == 0) ≡ false
positive_test n h = ground arith

equal : (m n : ℕ) → (m == n) ≡ true → m ≡ n
equal m n h = ground arith

entries_of-marked :
    (behind array : List MovSample)
    → All IsMarked behind
    → entries_of (behind ++ array) ≡ entries_of array
unfolding entries_of
entries_of-marked [] array h = refl
entries_of-marked (s ∷ behind) array (h, hs) =
    rw (zero_test s.first_chunk h) (entries_of-marked behind array hs)

All-snoc :
    (behind : List MovSample) (s : MovSample)
    → All IsMarked behind
    → IsMarked s
    → All IsMarked (behind ++ (s ∷ []))
All-snoc [] s h m = (m, tt)
All-snoc (x ∷ behind) s (h, hs) m = (h, All-snoc behind s hs m)

replicate_more : (n : ℕ) (a : ℕ) (l : List ℕ) → replicate (n + 1) a ++ l ≡ replicate n a ++ (a ∷ l)
replicate_more zero a l = refl
replicate_more (suc n) a l = rw suc-add (ap (λ r. a ∷ r) (replicate_more n a l))

pub erase_all-append :
    (xs ys : List MovSample) → erase_all (xs ++ ys) ≡ erase_all xs ++ erase_all ys
unfolding erase_all
erase_all-append [] ys = refl
erase_all-append (x ∷ xs) ys = ap (λ l. erase x ∷ l) (erase_all-append xs ys)

entries_of-nil : entries_of [] ≡ []
unfolding entries_of
entries_of-nil = refl

expand-nil : expand [] ≡ []
unfolding expand
expand-nil = refl

module _ (start : MovSample → ℕ → ℕ) where
  entries_of-head :
      (head : MovSample) (behind array : List MovSample)
      → 0 < head.first_chunk
      → All IsMarked behind
      → entries_of (head ∷ (behind ++ array))
        ≡ record { sample_count = head.first_chunk; sample_delta = head.samples_per_chunk }
          ∷ entries_of array
  unfolding entries_of
  entries_of-head head behind array p h =
      rw (positive_test head.first_chunk p, entries_of-marked behind array h)

  expand-compress :
      (head : MovSample) (behind : List MovSample) (rest : List (ℕ × MovSample)) (count flags : ℕ)
      → 0 < head.first_chunk
      → All IsMarked behind
      → expand (entries_of (compress start head behind rest count flags).0)
        ≡ replicate head.first_chunk head.samples_per_chunk ++ firsts rest
  unfolding compress expand firsts
  expand-compress head behind [] count flags p h =
      rw (sym (append-nil behind), entries_of-head head behind [] p h, entries_of-nil)
  expand-compress head behind ((d, s) ∷ rest) count flags p h =
      elim (Bool-cases (d == head.samples_per_chunk)) [
        | inl e ↦ rw e (
            expand-compress (record head { first_chunk = head.first_chunk + 1 })
              (behind ++ (record s { first_chunk = 0 } ∷ [])) rest count flags (omega arith)
              (All-snoc behind (record s { first_chunk = 0 }) h refl)
            ∙ replicate_more head.first_chunk head.samples_per_chunk (firsts rest)
            ∙ ap (λ x. replicate head.first_chunk head.samples_per_chunk ++ (x ∷ firsts rest))
                (sym (equal d head.samples_per_chunk e)))
        | inr e ↦
            let next = record s { first_chunk = 1; samples_per_chunk = d } in
            let later = compress start next [] rest (count + 1) (start s flags) in
            rw (e, entries_of-head head behind later.0 p h)
              (ap (λ l. replicate head.first_chunk head.samples_per_chunk ++ l)
                (expand-compress next [] rest (count + 1) (start s flags) (omega arith) tt))
      ]

  -- The number that is returned is that of the entries.
  count-compress :
      (head : MovSample) (behind : List MovSample) (rest : List (ℕ × MovSample)) (count flags : ℕ)
      → 0 < head.first_chunk
      → All IsMarked behind
      → (compress start head behind rest count flags).1 + 1
        ≡ count + length (entries_of (compress start head behind rest count flags).0)
  unfolding compress
  count-compress head behind [] count flags p h =
      rw (sym (append-nil behind), entries_of-head head behind [] p h, entries_of-nil)
  count-compress head behind ((d, s) ∷ rest) count flags p h =
      elim (Bool-cases (d == head.samples_per_chunk)) [
        | inl e ↦ rw e (
            count-compress (record head { first_chunk = head.first_chunk + 1 })
              (behind ++ (record s { first_chunk = 0 } ∷ [])) rest count flags (omega arith)
              (All-snoc behind (record s { first_chunk = 0 }) h refl))
        | inr e ↦
            let next = record s { first_chunk = 1; samples_per_chunk = d } in
            let later = compress start next [] rest (count + 1) (start s flags) in
            rw (e, entries_of-head head behind later.0 p h)
              (omega
                (arith, count-compress next [] rest (count + 1) (start s flags) (omega arith) tt))
      ]

  -- Nothing else of a sample changes.
  erase_all-compress :
      (head : MovSample) (behind : List MovSample) (rest : List (ℕ × MovSample)) (count flags : ℕ)
      → erase_all (compress start head behind rest count flags).0
        ≡ erase head ∷ (erase_all behind ++ erase_all (seconds rest))
  unfolding compress erase_all seconds
  erase_all-compress head behind [] count flags = rw append-nil
  erase_all-compress head behind ((d, s) ∷ rest) count flags =
      elim (Bool-cases (d == head.samples_per_chunk)) [
        | inl e ↦ rw e (
            erase_all-compress (record head { first_chunk = head.first_chunk + 1 })
              (behind ++ (record s { first_chunk = 0 } ∷ [])) rest count flags
            ∙ rw (erase_all-append behind (record s { first_chunk = 0 } ∷ []), append_assoc))
        | inr e ↦
            let next = record s { first_chunk = 1; samples_per_chunk = d } in
            let later = compress start next [] rest (count + 1) (start s flags) in
            rw (
              e,
              erase_all-append behind later.0,
              erase_all-compress next [] rest (count + 1) (start s flags),
            )
      ]

  -- The table of a whole track.
  pub expand-compress_all :
      (deltas : List (ℕ × MovSample)) (flags : ℕ)
      → expand (entries_of (compress_all start deltas flags).0) ≡ firsts deltas
  unfolding compress_all firsts
  expand-compress_all [] flags = rw (entries_of-nil, expand-nil)
  expand-compress_all ((d, s) ∷ rest) flags =
      expand-compress (record s { first_chunk = 1; samples_per_chunk = d }) [] rest 1
        (start s flags) (omega arith) tt

  pub count-compress_all :
      (deltas : List (ℕ × MovSample)) (flags : ℕ)
      → (compress_all start deltas flags).1
        ≡ length (entries_of (compress_all start deltas flags).0)
  unfolding compress_all
  count-compress_all [] flags = rw entries_of-nil
  count-compress_all ((d, s) ∷ rest) flags = omega (
    arith,
    count-compress (record s { first_chunk = 1; samples_per_chunk = d }) [] rest 1 (start s flags)
        (omega arith) tt,
  )

  pub erase_all-compress_all :
      (deltas : List (ℕ × MovSample)) (flags : ℕ)
      → erase_all (compress_all start deltas flags).0 ≡ erase_all (seconds deltas)
  unfolding compress_all erase_all seconds
  erase_all-compress_all [] flags = refl
  erase_all-compress_all ((d, s) ∷ rest) flags =
      erase_all-compress (record s { first_chunk = 1; samples_per_chunk = d }) [] rest 1
        (start s flags)

module _ (start : MovSample → ℕ → ℕ) (P : ℕ → Type 0) where
  All-compress :
      (head : MovSample) (behind : List MovSample) (rest : List (ℕ × MovSample)) (count flags : ℕ)
      → P head.samples_per_chunk
      → All P (firsts rest)
      → 0 < head.first_chunk
      → All IsMarked behind
      → All (λ e. P e.sample_delta) (entries_of (compress start head behind rest count flags).0)
  unfolding compress firsts
  All-compress head behind [] count flags q _ p h =
      rw (sym (append-nil behind), entries_of-head start head behind [] p h, entries_of-nil) (q, tt)
  All-compress head behind ((d, s) ∷ rest) count flags q (r, rs) p h =
      elim (Bool-cases (d == head.samples_per_chunk)) [
        | inl e ↦ rw e (
            All-compress (record head { first_chunk = head.first_chunk + 1 })
              (behind ++ (record s { first_chunk = 0 } ∷ [])) rest count flags q rs (omega arith)
              (All-snoc behind (record s { first_chunk = 0 }) h refl))
        | inr e ↦
            let next = record s { first_chunk = 1; samples_per_chunk = d } in
            let later = compress start next [] rest (count + 1) (start s flags) in
            rw (e, entries_of-head start head behind later.0 p h)
              (q, All-compress next [] rest (count + 1) (start s flags) r rs (omega arith) tt)
      ]

  -- What holds of all deltas holds of those of the entries.
  pub All-compress_all :
      (deltas : List (ℕ × MovSample)) (flags : ℕ)
      → All P (firsts deltas)
      → All (λ e. P e.sample_delta) (entries_of (compress_all start deltas flags).0)
  unfolding compress_all firsts
  All-compress_all [] flags h = rw entries_of-nil tt
  All-compress_all ((d, s) ∷ rest) flags (q, r) =
      All-compress (record s { first_chunk = 1; samples_per_chunk = d }) [] rest 1 (start s flags) q
        r (omega arith) tt
