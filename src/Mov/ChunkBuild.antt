-- ===== src/Mov/ChunkBuild.antt =====
-- src/media-server/libmov/source/mov-stco.c: the chunks that are built of samples stand for the
-- places of all samples.
use stream.Base.{
  ℕ, zero, suc, List, [], ◌∷◌, ◌++◌, ◌+◌, ◌<◌, ◌^◌, ◌≡◌, refl, sym, ◌∙◌, ap, ◌==◌, u64,
  if◌then◌else◌, length, All, true, false, arith,
}
use mathlib.Core.List.{append-nil}
use stream.Mov.Samples.{MovSample}

-- The samples that start a chunk.
unfoldable pub chunk_heads : List MovSample → List MovSample
chunk_heads [] = []
chunk_heads (s ∷ samples) =
    let rest = chunk_heads samples in if s.first_chunk == 0 then rest else s ∷ rest

-- Samples that lie one behind the other from `offset` on.
unfoldable pub place_from : ℕ → ℕ → List MovSample → List MovSample
place_from offset description [] = []
place_from offset description (f ∷ fresh) =
    record f { sample_description_index = description; offset = offset }
    ∷ place_from (u64 (offset + f.bytes)) description fresh

-- The samples of `fresh`, placed chunk after chunk, where `k` are left of a chunk.
unfoldable pub spread : List MovSample → ℕ → ℕ → ℕ → List MovSample → List MovSample
spread [] zero offset description fresh = []
spread (h ∷ heads) zero offset description fresh =
    spread heads h.samples_per_chunk h.offset h.sample_description_index fresh
spread heads (suc k) offset description [] = []
spread heads (suc k) offset description (f ∷ fresh) =
    record f { sample_description_index = description; offset = offset }
    ∷ spread heads k (u64 (offset + f.bytes)) description fresh

-- `fresh` with the places of the samples.
unfoldable pub located : List MovSample → List MovSample → List MovSample
located [] fresh = []
located (s ∷ samples) [] = []
located (s ∷ samples) (f ∷ fresh) =
    record f { sample_description_index = s.sample_description_index; offset = s.offset }
    ∷ located samples fresh

unfoldable pub total_bytes : List MovSample → ℕ
total_bytes [] = 0
total_bytes (f ∷ fresh) = u64 (f.bytes + total_bytes fresh)

-- The sizes of `fresh` are those of the samples.
abbrev pub HasSizes : List MovSample → List MovSample → Type 0
HasSizes [] [] = Unit {0}
HasSizes [] (f ∷ fresh) = ⊥
HasSizes (s ∷ samples) [] = ⊥
HasSizes (s ∷ samples) (f ∷ fresh) = (f.bytes ≡ s.bytes) × HasSizes samples fresh

abbrev pub IsMarked : MovSample → Type 0
IsMarked s = s.first_chunk ≡ 0

zero_test : (n : ℕ) → n ≡ 0 → (n == 0) ≡ true
zero_test n h = ground arith

positive_test : (n : ℕ) → 0 < n → (n == 0) ≡ false
positive_test n h = ground arith

pub chunk_heads-nil : chunk_heads [] ≡ []
unfolding chunk_heads
chunk_heads-nil = refl

chunk_heads-marked :
    (behind array : List MovSample)
    → All IsMarked behind
    → chunk_heads (behind ++ array) ≡ chunk_heads array
unfolding chunk_heads
chunk_heads-marked [] array h = refl
chunk_heads-marked (s ∷ behind) array (h, hs) =
    rw (zero_test s.first_chunk h) (chunk_heads-marked behind array hs)

pub chunk_heads-head :
    (head : MovSample) (behind array : List MovSample)
    → 0 < head.first_chunk
    → All IsMarked behind
    → chunk_heads (head ∷ (behind ++ array)) ≡ head ∷ chunk_heads array
unfolding chunk_heads
chunk_heads-head head behind array p h =
    rw (positive_test head.first_chunk p, chunk_heads-marked behind array h)

pub chunk_heads-last :
    (head : MovSample) (behind : List MovSample)
    → 0 < head.first_chunk
    → All IsMarked behind
    → chunk_heads (head ∷ behind) ≡ head ∷ []
chunk_heads-last head behind p h =
    ap (λ l. chunk_heads (head ∷ l)) (sym (append-nil behind))
    ∙ chunk_heads-head head behind [] p h
    ∙ ap (λ l. head ∷ l) chunk_heads-nil

pub All-snoc :
    (behind : List MovSample) (s : MovSample)
    → All IsMarked behind
    → IsMarked s
    → All IsMarked (behind ++ (s ∷ []))
All-snoc [] s h m = (m, tt)
All-snoc (x ∷ behind) s (h, hs) m = (h, All-snoc behind s hs m)

pub place_from-snoc :
    (offset description : ℕ) (front : List MovSample) (f : MovSample)
    → offset < 2 ^ 64
    → place_from offset description (front ++ (f ∷ []))
      ≡ place_from offset description front
        ++ (record f {
          sample_description_index = description;
          offset = u64 (offset + total_bytes front);
        }
            ∷ [])
unfolding place_from total_bytes
place_from-snoc offset description [] f h = let e : u64 (offset + 0) ≡ offset = omega arith in rw e
place_from-snoc offset description (g ∷ front) f h =
    let e : u64 (u64 (offset + g.bytes) + total_bytes front)
        ≡ u64 (offset + u64 (g.bytes + total_bytes front)) =
      omega arith in
    rw (sym e) (
      ap (λ l. record g { sample_description_index = description; offset = offset } ∷ l)
        (place_from-snoc (u64 (offset + g.bytes)) description front f (omega arith)))

pub total_bytes-snoc :
    (front : List MovSample) (f : MovSample)
    → total_bytes (front ++ (f ∷ [])) ≡ u64 (total_bytes front + f.bytes)
unfolding total_bytes
total_bytes-snoc [] f = omega arith
total_bytes-snoc (g ∷ front) f = omega (arith, total_bytes-snoc front f)

pub spread-chunk :
    (heads : List MovSample) (offset description k : ℕ) (front fresh : List MovSample)
    → length front ≡ k
    → (after : ℕ) × (spread heads k offset description (front ++ fresh)
        ≡ place_from offset description front ++ spread heads 0 after description fresh)
unfolding spread place_from
spread-chunk heads offset description zero [] fresh h = (offset, refl)
spread-chunk heads offset description (suc k) [] fresh h = absurd (omega arith)
spread-chunk heads offset description zero (f ∷ front) fresh h = absurd (omega arith)
spread-chunk heads offset description (suc k) (f ∷ front) fresh h =
    let (after, e) =
      spread-chunk heads (u64 (offset + f.bytes)) description k front fresh (omega arith) in
    (after, ap (λ l. record f { sample_description_index = description; offset = offset } ∷ l) e)

-- Between chunks nothing depends on the last one.
pub spread-between :
    (heads : List MovSample) (a d b c : ℕ) (fresh : List MovSample)
    → spread heads 0 a d fresh ≡ spread heads 0 b c fresh
unfolding spread
spread-between [] a d b c fresh = refl
spread-between (h ∷ heads) a d b c fresh = refl
