-- ===== src/Mov/TimeFile.antt =====
-- src/media-server/libmov/source/mov-stts.c: a time table that is written into a file and read
-- back from it.
use stream.Base.{
  ℕ, List, [], ◌∷◌, ◌++◌, ◌+◌, ◌*◌, ◌^◌, ◌<◌, ◌≡◌, refl, sym, ◌==◌, bit_and, if◌then◌else◌,
  Bool-cases, inl, inr, length, drop, All, u8, u32, arith, done, fault,
}
use mathlib.Core.List.{append_assoc, append-nil}
use stream.Mov.IoUtil.{MovIo, pure, mov_buffer_error}
use stream.Mov.Files.{
  MovInput, MovOutput, Reads, Reads-bind, Reads-pure, Reads-cast, IsAtEnd, Writes, Writes-then,
  Writes-pure, Writes-cast, read-written,
}
use stream.Mov.Words.{
  be16, be24, be32, Reads-r8, Reads-r24, Reads-r32, Writes-write, Writes-w8, Writes-w24, Writes-w32,
}
use stream.Mov.Samples.{MovSample, MovStts}
use stream.Mov.TimeTables.{mov_track_flag_ctts_v1}
use stream.Mov.SizeTables.{no_table}
use stream.Mov.TimeBoxes.{
  read_entries, read_table, mov_read_stts, mov_read_ctts, write_entries, mov_write_stts,
  mov_write_ctts,
}
use stream.Mov.TimeRuns.{entries_of}

table_bytes : List MovStts → List ℕ
table_bytes [] = []
table_bytes (e ∷ entries) = be32 e.sample_count ++ (be32 e.sample_delta ++ table_bytes entries)

-- A box less its size and type.
payload : ℕ → List MovStts → List ℕ
payload version entries =
    (version ∷ []) ++ (be24 0 ++ (be32 (length entries) ++ table_bytes entries))

ctts_version : ℕ → ℕ
ctts_version flags = if bit_and flags mov_track_flag_ctts_v1 == 0 then 0 else 1

version-byte : (flags : ℕ) → u8 (ctts_version flags) ≡ ctts_version flags
unfolding ctts_version
version-byte flags = ground arith

header : List ℕ → ℕ → List ℕ
header tag count = be32 (u32 (12 + 4 + count * 8)) ++ tag

be32-zero : be32 0 ≡ 0 ∷ be24 0
unfolding be32 be24 be16
be32-zero = refl

-- The fields are of type uint32_t.
abbrev pub IsStts : MovStts → Type 0
IsStts e = (e.sample_count < 2 ^ 32) × (e.sample_delta < 2 ^ 32)

abbrev pub FitsTable : MovSample → Type 0
FitsTable s = (s.first_chunk < 2 ^ 32) × (s.samples_per_chunk < 2 ^ 32)

entries_of-IsStts :
    (samples : List MovSample) → All FitsTable samples → All IsStts (entries_of samples)
unfolding entries_of
entries_of-IsStts [] h = tt
entries_of-IsStts (s ∷ samples) (h, hs) = elim (Bool-cases (s.first_chunk == 0)) [
  | inl e ↦ rw e (entries_of-IsStts samples hs)
  | inr e ↦ rw e (h, entries_of-IsStts samples hs)
]

module _ (I : MovInput) where
  pub Reads-error : Reads I (mov_buffer_error I.buffer) [] 0
  unfolding mov_buffer_error
  Reads-error = record { runs = λ io back e r. (e, e, r) }

  Reads-entries :
      (entries : List MovStts)
      → All IsStts entries
      → Reads I (read_entries I.buffer (length entries)) (table_bytes entries) entries
  unfolding read_entries table_bytes
  Reads-entries [] h = Reads-pure I []
  Reads-entries (e ∷ entries) ((p, q), hs) =
      Reads-cast I (table_bytes (e ∷ entries)) (e ∷ entries)
        (Reads-bind I _ (Reads-r32 I e.sample_count p) (
          Reads-bind I _ (Reads-r32 I e.sample_delta q)
            (Reads-bind I _ (Reads-entries entries hs) (Reads-pure I _))))
        (rw append-nil) refl

  Reads-fields :
      (entries : List MovStts)
      → All IsStts entries
      → Reads I
          (if no_table {A = MovStts} [] then read_table I.buffer (length entries) else pure fault)
          (table_bytes entries)
          (done (entries, 0))
  unfolding read_table no_table
  Reads-fields entries h =
      Reads-cast I (table_bytes entries) (done (entries, 0))
        (Reads-bind I _ (Reads-entries entries h) (Reads-bind I _ Reads-error (Reads-pure I _)))
        (rw append-nil refl) refl

  Reads-table :
      (version : ℕ) (entries : List MovStts)
      → length entries < 2 ^ 32
      → All IsStts entries
      → Reads I (mov_read_stts I.buffer []) (payload version entries) (done (entries, 0))
  unfolding mov_read_stts payload
  Reads-table version entries n h =
      Reads-cast I (payload version entries) (done (entries, 0))
        (Reads-bind I _ (Reads-r8 I version) (
          Reads-bind I _ (Reads-r24 I 0 (omega arith))
            (Reads-bind I _ (Reads-r32 I (length entries) n) (Reads-fields entries h))))
        refl refl

  Reads-offsets :
      (version : ℕ) (entries : List MovStts)
      → length entries < 2 ^ 32
      → All IsStts entries
      → Reads I (mov_read_ctts I.buffer []) (payload version entries) (done (entries, 0))
  unfolding mov_read_stts mov_read_ctts
  Reads-offsets version entries n h = Reads-table version entries n h

module _ (O : MovOutput) where
  Writes-entries :
      (samples : List MovSample)
      → Writes O (write_entries O.buffer samples) (table_bytes (entries_of samples)) tt
  unfolding write_entries table_bytes entries_of
  Writes-entries [] = Writes-pure O tt
  Writes-entries (s ∷ samples) = elim (Bool-cases (s.first_chunk == 0)) [
    | inl e ↦ rw e (Writes-entries samples)
    | inr e ↦ rw e (
        Writes-then O (Writes-w32 O s.first_chunk)
          (Writes-then O (Writes-w32 O s.samples_per_chunk) (Writes-entries samples)))
  ]

  Writes-table :
      (samples : List MovSample) (count : ℕ)
      → count ≡ length (entries_of samples)
      → Writes O
          (mov_write_stts O.buffer samples count)
          (header (0x73 ∷ 0x74 ∷ 0x74 ∷ 0x73 ∷ []) count ++ payload 0 (entries_of samples))
          (u32 (12 + 4 + count * 8))
  unfolding mov_write_stts payload header
  Writes-table samples count e =
      Writes-cast O
        (header (0x73 ∷ 0x74 ∷ 0x74 ∷ 0x73 ∷ []) count ++ payload 0 (entries_of samples))
        (Writes-then O (Writes-w32 O (u32 (12 + 4 + count * 8))) (
          Writes-then O (Writes-write O (0x73 ∷ 0x74 ∷ 0x74 ∷ 0x73 ∷ [])) (
            Writes-then O (Writes-w32 O 0) (
              Writes-then O (Writes-w32 O count) (
                Writes-then O (Writes-entries samples)
                  (Writes-pure O (u32 (12 + 4 + count * 8))))))))
        (rw (append-nil, be32-zero, sym e, append_assoc))

  Writes-offsets :
      (samples : List MovSample) (flags count : ℕ)
      → count ≡ length (entries_of samples)
      → Writes O
          (mov_write_ctts O.buffer samples flags count)
          (header (0x63 ∷ 0x74 ∷ 0x74 ∷ 0x73 ∷ []) count
            ++ payload (ctts_version flags) (entries_of samples))
          (u32 (12 + 4 + count * 8))
  unfolding mov_write_ctts payload header ctts_version
  Writes-offsets samples flags count e =
      Writes-cast O
        (header (0x63 ∷ 0x74 ∷ 0x74 ∷ 0x73 ∷ []) count
          ++ payload (ctts_version flags) (entries_of samples))
        (Writes-then O (Writes-w32 O (u32 (12 + 4 + count * 8))) (
          Writes-then O (Writes-write O (0x63 ∷ 0x74 ∷ 0x74 ∷ 0x73 ∷ [])) (
            Writes-then O (Writes-w8 O (ctts_version flags)) (
              Writes-then O (Writes-w24 O 0) (
                Writes-then O (Writes-w32 O count) (
                  Writes-then O (Writes-entries samples)
                    (Writes-pure O (u32 (12 + 4 + count * 8)))))))))
        (rw (append-nil, version-byte flags, sym e, append_assoc))

length-header : (tag : List ℕ) (count : ℕ) → length tag ≡ 4 → length (header tag count) ≡ 8
unfolding header be32 be16
length-header tag count e = omega (arith, e)

-- A time table (with fields of 32 bits) that mov_write_stts writes at the end of a file, with the
-- number of its entries, is what mov_read_stts returns, without an error, of an input that
-- delivers what was written from behind the size and the type of the box on, where there is no
-- table before.
pub mov_read_stts-write :
    (O : MovOutput) (I : MovInput) (samples : List MovSample) (count : ℕ) (out : MovIo O.State)
    (inp : MovIo I.State) (back : List ℕ)
    → All FitsTable samples
    → count ≡ length (entries_of samples)
    → count < 2 ^ 32
    → IsAtEnd O out
    → inp.error ≡ 0
    → I.remaining inp.param
      ≡ drop
          (length (O.contents out.param) + 8)
          (O.contents (mov_write_stts O.buffer samples count out).1.param)
        ++ back
    → (mov_read_stts I.buffer [] inp).0 ≡ done (entries_of samples, 0)
mov_read_stts-write O I samples count out inp back f c n e z h =
    let tag = 0x73 ∷ 0x74 ∷ 0x74 ∷ 0x73 ∷ [] in
    read-written O I (header tag count) (payload 0 (entries_of samples)) back out inp
      (Writes-table O samples count c)
      (Reads-table I 0 (entries_of samples) (rw (sym c) n) (entries_of-IsStts samples f)) e z
      (rw (length-header tag count refl) h)

-- A table of composition offsets that mov_write_ctts writes at the end of a file, in the version
-- that the flags of the track ask for and with the number of its entries, is what mov_read_ctts
-- returns, without an error, of an input that delivers what was written from behind the size and
-- the type of the box on, where there is no table before.
pub mov_read_ctts-write :
    (O : MovOutput) (I : MovInput) (samples : List MovSample) (flags count : ℕ)
    (out : MovIo O.State) (inp : MovIo I.State) (back : List ℕ)
    → All FitsTable samples
    → count ≡ length (entries_of samples)
    → count < 2 ^ 32
    → IsAtEnd O out
    → inp.error ≡ 0
    → I.remaining inp.param
      ≡ drop
          (length (O.contents out.param) + 8)
          (O.contents (mov_write_ctts O.buffer samples flags count out).1.param)
        ++ back
    → (mov_read_ctts I.buffer [] inp).0 ≡ done (entries_of samples, 0)
mov_read_ctts-write O I samples flags count out inp back f c n e z h =
    let tag = 0x63 ∷ 0x74 ∷ 0x74 ∷ 0x73 ∷ [] in
    read-written O I (header tag count) (payload (ctts_version flags) (entries_of samples)) back out
      inp (Writes-offsets O samples flags count c)
      (Reads-offsets I (ctts_version flags) (entries_of samples) (rw (sym c) n)
        (entries_of-IsStts samples f))
      e z (rw (length-header tag count refl) h)
