-- ===== src/Mov/ChunkApply.antt =====
-- src/media-server/libmov/source/mov-stco.c: applying the tables of the chunks.
use stream.Base.{
  ℕ, suc, List, [], ◌∷◌, ◌++◌, ◌+◌, ◌<◌, ◌≤◌, ◌^◌, ◌≡◌, refl, ◌==◌, ◌&&◌, u64, if◌then◌else◌,
  Bool-cases, inl, inr, length, true, false, Bool, arith, Option, some, done,
}
use stream.Mov.Samples.{MovSample, MovStsc}
use stream.Mov.ChunkTables.{chunk_offset_at, next_chunk, apply_stco}
use stream.Mov.ChunkBoxes.{skips}

-- What `mov_write_stsc` writes of a chunk that it does not skip.
abbrev pub entry_of : MovSample → MovStsc
entry_of s = record {
  first_chunk = s.first_chunk;
  samples_per_chunk = s.samples_per_chunk;
  sample_description_index = s.sample_description_index;
}

-- The entries of the sample-to-chunk table, where `chunk` started the last of them.
unfoldable pub stsc_entries : Option MovSample → List MovSample → List MovStsc
stsc_entries chunk [] = []
stsc_entries chunk (s ∷ samples) =
    let skipped = stsc_entries chunk samples in
    let rest = stsc_entries (some s) samples in if skips chunk s then skipped else entry_of s ∷ rest

unfoldable pub offsets : List MovSample → List ℕ
offsets [] = []
offsets (h ∷ heads) = h.offset ∷ offsets heads

-- Chunks that are counted from `j` on.
abbrev pub IsNumbered : ℕ → List MovSample → Type 0
IsNumbered j [] = Unit {0}
IsNumbered j (h ∷ heads) = (h.first_chunk ≡ j) × IsNumbered (j + 1) heads

unfoldable pub total_samples : List MovSample → ℕ
total_samples [] = 0
total_samples (h ∷ heads) = h.samples_per_chunk + total_samples heads

-- Samples that are not empty, none of which starts before the one before it ends.
abbrev pub IsOrdered : ℕ → List MovSample → Type 0
IsOrdered end [] = Unit {0}
IsOrdered end (s ∷ samples) =
    (0 < s.bytes) × (end ≤ s.offset) × IsOrdered (u64 (s.offset + s.bytes)) samples

pub chunk_offset_at-append :
    (pre : List ℕ) (x : ℕ) (xs : List ℕ)
    → chunk_offset_at (suc (length pre)) (pre ++ (x ∷ xs)) ≡ done x
unfolding chunk_offset_at
chunk_offset_at-append [] x xs = refl
chunk_offset_at-append (p ∷ []) x xs = chunk_offset_at-append [] x xs
chunk_offset_at-append (p ∷ q ∷ pre) x xs = chunk_offset_at-append (q ∷ pre) x xs

equal : (m n : ℕ) → (m == n) ≡ true → m ≡ n
equal m n h = ground arith

both : (a b : Bool) → (a && b) ≡ true → (a ≡ true) × (b ≡ true)
both true b h = (refl, h)
both false b h = (h, absurd (ground (arith, h)))

pub same : MovSample → MovSample → Bool
same c h =
    (c.samples_per_chunk == h.samples_per_chunk)
    && (c.sample_description_index == h.sample_description_index)

pub same-fields :
    (c h : MovSample)
    → same c h ≡ true
    → (c.samples_per_chunk ≡ h.samples_per_chunk)
      × (c.sample_description_index ≡ h.sample_description_index)
unfolding same
same-fields c h e =
    let (p, q) =
      both (c.samples_per_chunk == h.samples_per_chunk)
        (c.sample_description_index == h.sample_description_index) e in
    (
      equal c.samples_per_chunk h.samples_per_chunk p,
      equal c.sample_description_index h.sample_description_index q,
    )

positive_test : (n : ℕ) → 0 < n → (n == 0) ≡ false
positive_test n h = ground arith

pub skips-head :
    (c h : MovSample) (b : Bool) → 0 < h.first_chunk → same c h ≡ b → skips (some c) h ≡ b
unfolding skips same
skips-head c h b p e = rw (positive_test h.first_chunk p) e

pub next_chunk-bound :
    (c : MovSample) (j n : ℕ) (heads : List MovSample)
    → 0 < j
    → IsNumbered j heads
    → n + 1 ≡ j + length heads
    → n + 1 < 2 ^ 32
    → j ≤ next_chunk (stsc_entries (some c) heads) n
unfolding next_chunk stsc_entries
next_chunk-bound c j n [] p m e b = omega arith
next_chunk-bound c j n (h ∷ heads) p (m, ms) e b = elim (Bool-cases (same c h)) [
  | inl t ↦
      rw (skips-head c h true (omega arith) t)
        (omega (arith, next_chunk-bound c (j + 1) n heads (omega arith) ms (omega arith) b))
  | inr t ↦ rw (skips-head c h false (omega arith) t) (omega arith)
]

-- The next chunk of an entry starts.
pub begin_chunk :
    (stco : List ℕ) (n r : ℕ) (entries : List MovStsc) (e : MovStsc) (j offset end start : ℕ)
    (fresh samples : List MovSample)
    → n ≡ suc r
    → chunk_offset_at j stco ≡ done start
    → apply_stco stco e.samples_per_chunk r entries e (j + 1) start end fresh ≡ done samples
    → apply_stco stco 0 n entries e j offset end fresh ≡ done samples
unfolding apply_stco
begin_chunk stco n r entries e j offset end start fresh samples p q h = rw (p, q) h
