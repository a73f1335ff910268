-- ===== src/Mov/ChunkFile.antt =====
-- src/media-server/libmov/source/mov-stsc.c: a sample-to-chunk table that is written into a file
-- and read back from it.
use stream.Base.{
  ℕ, suc, List, [], ◌∷◌, ◌++◌, ◌+◌, ◌*◌, ◌^◌, ◌≤◌, ◌<◌, ◌≡◌, refl, sym, ◌∙◌, ap, Bool-cases, inl,
  inr, length, drop, All, u32, arith, Option, some, none, done, fault, if◌then◌else◌,
}
use native.Mathlib.Nat.{add-zero}
use mathlib.Core.List.{append_assoc, append-nil}
use mathlib.Core.Path.{subst}
use stream.Mov.IoUtil.{mov_buffer_w32, mov_buffer_write, MovIo, ◌>>◌, pure}
use stream.Mov.Files.{
  MovInput, MovOutput, Reads, Reads-bind, Reads-pure, Reads-cast, IsAtEnd, Writes, Writes-then,
  Writes-pure, Writes-cast, read-written,
}
use stream.Mov.Words.{be16, be24, be32, Reads-r8, Reads-r24, Reads-r32, Writes-write, Writes-w32}
use stream.Mov.Patches.{Writes-counted}
use stream.Mov.TimeFile.{Reads-error}
use stream.Mov.Samples.{MovSample, MovStsc}
use stream.Mov.SizeTables.{no_table}
use stream.Mov.ChunkBoxes.{
  skips, read_stsc_entries, stsc_fields, mov_read_stsc, write_stsc_entries, mov_write_stsc,
}
use stream.Mov.ChunkApply.{stsc_entries}

entry_bytes : List MovStsc → List ℕ
entry_bytes [] = []
entry_bytes (e ∷ entries) =
    be32 e.first_chunk
    ++ (be32 e.samples_per_chunk ++ (be32 e.sample_description_index ++ entry_bytes entries))

abbrev IsStsc : MovStsc → Type 0
IsStsc e =
    (e.first_chunk < 2 ^ 32)
    × (e.samples_per_chunk < 2 ^ 32)
    × (e.sample_description_index < 2 ^ 32)

-- The fields are of type uint32_t.
abbrev pub FitsChunk : MovSample → Type 0
FitsChunk s =
    (s.first_chunk < 2 ^ 32)
    × (s.samples_per_chunk < 2 ^ 32)
    × (s.sample_description_index < 2 ^ 32)

stsc_entries-IsStsc :
    (c : Option MovSample) (samples : List MovSample)
    → All FitsChunk samples
    → All IsStsc (stsc_entries c samples)
unfolding stsc_entries
stsc_entries-IsStsc c [] h = tt
stsc_entries-IsStsc c (s ∷ samples) (h, hs) = elim (Bool-cases (skips c s)) [
  | inl e ↦ rw e (stsc_entries-IsStsc c samples hs)
  | inr e ↦ rw e (h, stsc_entries-IsStsc (some s) samples hs)
]

length-stsc_entries :
    (c : Option MovSample) (samples : List MovSample)
    → length (stsc_entries c samples) ≤ length samples
unfolding stsc_entries
length-stsc_entries c [] = omega arith
length-stsc_entries c (s ∷ samples) = elim (Bool-cases (skips c s)) [
  | inl e ↦ rw e (omega (arith, length-stsc_entries c samples))
  | inr e ↦ rw e (omega (arith, length-stsc_entries (some s) samples))
]

module _ (I : MovInput) where
  Reads-entries :
      (entries : List MovStsc)
      → All IsStsc entries
      → Reads I (read_stsc_entries I.buffer (length entries)) (entry_bytes entries) entries
  unfolding read_stsc_entries entry_bytes
  Reads-entries [] h = Reads-pure I []
  Reads-entries (e ∷ entries) ((a, b, c), hs) =
      Reads-cast I (entry_bytes (e ∷ entries)) (e ∷ entries)
        (Reads-bind I _ (Reads-r32 I e.first_chunk a) (
          Reads-bind I _ (Reads-r32 I e.samples_per_chunk b) (
            Reads-bind I _ (Reads-r32 I e.sample_description_index c)
              (Reads-bind I _ (Reads-entries entries hs) (Reads-pure I _)))))
        (rw append-nil) refl

  Reads-stsc_fields :
      (entries : List MovStsc)
      → All IsStsc entries
      → Reads I
          (if no_table {A = MovStsc} [] then stsc_fields I.buffer (length entries) else pure fault)
          (entry_bytes entries)
          (done (entries, 0))
  unfolding stsc_fields no_table
  Reads-stsc_fields entries h =
      Reads-cast I (entry_bytes entries) (done (entries, 0))
        (Reads-bind I _ (Reads-entries entries h) (Reads-bind I _ (Reads-error I) (Reads-pure I _)))
        (rw append-nil refl) refl

  Reads-stsc :
      (entries : List MovStsc)
      → length entries < 2 ^ 32
      → All IsStsc entries
      → Reads I
          (mov_read_stsc I.buffer [])
          (be32 0 ++ (be32 (length entries) ++ entry_bytes entries))
          (done (entries, 0))
  unfolding mov_read_stsc be32 be16 be24
  Reads-stsc entries n h =
      Reads-cast I (be32 0 ++ (be32 (length entries) ++ entry_bytes entries)) (done (entries, 0))
        (Reads-bind I _ (Reads-r8 I 0) (
          Reads-bind I _ (Reads-r24 I 0 (omega arith))
            (Reads-bind I _ (Reads-r32 I (length entries) n) (Reads-stsc_fields entries h))))
        refl refl

stsc_tag : List ℕ
stsc_tag = 0x73 ∷ 0x74 ∷ 0x73 ∷ 0x63 ∷ []

stsc_size : List MovSample → ℕ
stsc_size samples = u32 (12 + 4 + length (stsc_entries none samples) * 12)

tag_length : length (stsc_tag ++ be32 0) ≡ 8
unfolding stsc_tag be32 be16
tag_length = refl

header_length : (size : ℕ) → length (be32 size ++ stsc_tag) ≡ 8
unfolding stsc_tag be32 be16
header_length size = refl

module _ (O : MovOutput) where
  Writes-entries :
      (c : Option MovSample) (j : ℕ) (samples : List MovSample)
      → Writes O
          (write_stsc_entries O.buffer c j samples)
          (entry_bytes (stsc_entries c samples))
          (j + length (stsc_entries c samples))
  unfolding write_stsc_entries stsc_entries entry_bytes
  Writes-entries c j [] = rw add-zero (Writes-pure O j)
  Writes-entries c j (s ∷ samples) = elim (Bool-cases (skips c s)) [
    | inl e ↦ rw e (Writes-entries c j samples)
    | inr e ↦
        let count : j + suc (length (stsc_entries (some s) samples))
            ≡ j + 1 + length (stsc_entries (some s) samples) =
          omega arith in
        rw (e, count)
          (Writes-then O (Writes-w32 O s.first_chunk) (
            Writes-then O (Writes-w32 O s.samples_per_chunk) (
              Writes-then O (Writes-w32 O s.sample_description_index)
                (Writes-entries (some s) (j + 1) samples))))
  ]

  Writes-stsc :
      (samples : List MovSample)
      → Writes O
          (mov_write_stsc O.buffer samples)
          ((be32 (stsc_size samples) ++ stsc_tag)
            ++ (be32 0
                ++ (be32 (length (stsc_entries none samples))
                    ++ entry_bytes (stsc_entries none samples))))
          (stsc_size samples)
  unfolding mov_write_stsc stsc_size stsc_tag
  Writes-stsc samples =
      let entries = stsc_entries none samples in
      let start : 0 + length entries ≡ length entries = omega arith in
      Writes-cast O
        ((be32 (stsc_size samples) ++ stsc_tag)
          ++ (be32 0 ++ (be32 (length entries) ++ entry_bytes entries)))
        (Writes-counted O
          (mov_buffer_w32 O.buffer 0
            >> (mov_buffer_write O.buffer stsc_tag
                >> (mov_buffer_w32 O.buffer 0
                    >> (mov_buffer_w32 O.buffer 0 >> write_stsc_entries O.buffer none 0 samples))))
          (stsc_tag ++ be32 0) (entry_bytes entries) (length entries) (λ j. u32 (12 + 4 + j * 12))
          (Writes-cast O (be32 0 ++ ((stsc_tag ++ be32 0) ++ (be32 0 ++ entry_bytes entries)))
            (Writes-then O (Writes-w32 O 0) (
              Writes-then O (Writes-write O stsc_tag) (
                Writes-then O (Writes-w32 O 0) (
                  Writes-then O (Writes-w32 O 0) (
                    subst
                      (λ c.
                        Writes O (write_stsc_entries O.buffer none 0 samples) (entry_bytes entries)
                          c)
                      start (Writes-entries none 0 samples))))))
            (ap (λ l. be32 0 ++ l) (sym (append_assoc stsc_tag (be32 0) _))))
          tag_length)
        (ap (λ l. be32 (stsc_size samples) ++ l) (append_assoc stsc_tag (be32 0) _)
          ∙ sym (append_assoc (be32 (stsc_size samples)) stsc_tag _))

-- The sample-to-chunk table of fewer than 2^32 samples (with fields of 32 bits) that mov_write_stsc
-- writes at the end of a file, leaving out a chunk that is like the one before it, is what
-- mov_read_stsc returns, without an error, of an input that delivers what was written from behind
-- the size and the type of the box on, where there is no table before.
pub mov_read_stsc-write :
    (O : MovOutput) (I : MovInput) (samples : List MovSample) (out : MovIo O.State)
    (inp : MovIo I.State) (back : List ℕ)
    → All FitsChunk samples
    → length samples < 2 ^ 32
    → IsAtEnd O out
    → inp.error ≡ 0
    → I.remaining inp.param
      ≡ drop
          (length (O.contents out.param) + 8)
          (O.contents (mov_write_stsc O.buffer samples out).1.param)
        ++ back
    → (mov_read_stsc I.buffer [] inp).0 ≡ done (stsc_entries none samples, 0)
mov_read_stsc-write O I samples out inp back f n e z h =
    let entries = stsc_entries none samples in
    read-written O I (be32 (stsc_size samples) ++ stsc_tag)
      (be32 0 ++ (be32 (length entries) ++ entry_bytes entries)) back out inp
      (Writes-stsc O samples)
      (Reads-stsc I entries (omega (arith, length-stsc_entries none samples))
        (stsc_entries-IsStsc none samples f))
      e z (rw (header_length (stsc_size samples)) h)
