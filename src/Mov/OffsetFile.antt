-- ===== src/Mov/OffsetFile.antt =====
-- src/media-server/libmov/source/mov-stco.c: the offsets of chunks that are written into a file and
-- read back from it, with 32 or 64 bits.
use stream.Base.{
  ℕ, List, [], ◌∷◌, ◌++◌, ◌+◌, ◌*◌, ◌^◌, ◌≤◌, ◌<◌, ◌≡◌, refl, sym, ◌==◌, if◌then◌else◌, Bool-cases,
  inl, inr, length, drop, All, true, false, Bool, leb, u32, u64, arith, done, fault, Outcome,
}
use mathlib.Core.List.{append_assoc, append-nil}
use mathlib.Core.Path.{subst}
use stream.Mov.IoUtil.{
  MovBuffer, Call, ◌>>=◌, pure, mov_buffer_error, mov_buffer_r32, mov_buffer_w32, mov_buffer_w64,
  MovIo,
}
use native.Mathlib.Nat.{add-zero}
use stream.Mov.Files.{
  MovInput, MovOutput, Reads, Reads-bind, Reads-pure, Reads-cast, IsAtEnd, Writes, Writes-then,
  Writes-pure, Writes-cast, read-written,
}
use stream.Mov.Words.{
  be16, be24, be32, be64, Reads-r8, Reads-r24, Reads-r32, Reads-r64, Writes-write, Writes-w32,
  Writes-w64,
}
use stream.Mov.TimeFile.{Reads-error}
use stream.Mov.SizeTables.{read_numbers, no_table}
use stream.Mov.Samples.{MovSample}
use stream.Mov.ChunkBoxes.{
  tag_stco, tag_co64, last_offset, needs_co64, read_numbers64, mov_tag, stco_fields, mov_read_stco,
  write_offsets, mov_write_stco,
}

-- The offsets of the chunks, in a file where the track starts at `track_offset`.
unfoldable pub chunk_offsets : ℕ → List MovSample → List ℕ
chunk_offsets track_offset [] = []
chunk_offsets track_offset (s ∷ samples) =
    let rest = chunk_offsets track_offset samples in
    if s.first_chunk == 0 then rest else u64 (s.offset + track_offset) ∷ rest

-- No sample lies behind the last one.
abbrev pub IsLast : ℕ → ℕ → List MovSample → Type 0
IsLast end track_offset samples = All (λ s. u64 (s.offset + track_offset) ≤ end) samples

abbrev limit : Bool → ℕ
limit co64 = if co64 then 2 ^ 64 else 2 ^ 32

word : Bool → ℕ → List ℕ
word true n = be64 n
word false n = be32 n

words : Bool → List ℕ → List ℕ
words co64 [] = []
words co64 (n ∷ numbers) = word co64 n ++ words co64 numbers

chunk_offsets-bound :
    (co64 : Bool) (track_offset end : ℕ) (samples : List MovSample)
    → IsLast end track_offset samples
    → end < limit co64
    → All (λ n. n < limit co64) (chunk_offsets track_offset samples)
unfolding chunk_offsets
chunk_offsets-bound co64 track_offset end [] h b = tt
chunk_offsets-bound co64 track_offset end (s ∷ samples) (h, hs) b =
    elim (Bool-cases (s.first_chunk == 0)) [
      | inl e ↦ rw e (chunk_offsets-bound co64 track_offset end samples hs b)
      | inr e ↦ rw e (omega (arith, h, b), chunk_offsets-bound co64 track_offset end samples hs b)
    ]

last_offset-bound :
    (samples : List MovSample) (track_offset : ℕ) → last_offset samples track_offset < 2 ^ 64
unfolding last_offset
last_offset-bound [] track_offset = omega arith
last_offset-bound (s ∷ []) track_offset = omega arith
last_offset-bound (s ∷ t ∷ samples) track_offset = last_offset-bound (t ∷ samples) track_offset

small_offset : (n : ℕ) → leb (2 ^ 32) n ≡ false → n < 2 ^ 32
small_offset n h = ground arith

last_offset-none : (track_offset : ℕ) → last_offset [] track_offset < 2 ^ 32
unfolding last_offset
last_offset-none track_offset = omega arith

last_offset-limit :
    (samples : List MovSample) (track_offset : ℕ)
    → last_offset samples track_offset < limit (needs_co64 samples track_offset)
unfolding needs_co64
last_offset-limit [] track_offset = last_offset-none track_offset
last_offset-limit (s ∷ samples) track_offset =
    elim (Bool-cases (leb (2 ^ 32) (last_offset (s ∷ samples) track_offset))) [
      | inl e ↦ rw e (last_offset-bound (s ∷ samples) track_offset)
      | inr e ↦ rw e (small_offset (last_offset (s ∷ samples) track_offset) e)
    ]

-- A box that stands in an input: its size and its type, and the reader for what follows, which
-- gets the type, as in mov_reader_box.
unfoldable pub read_box : {S A : Type 0} → MovBuffer S → (ℕ → Call S A) → Call S A
read_box cb read = do _ ← mov_buffer_r32 cb; type ← mov_buffer_r32 cb; read type

abbrev offsets_tag : Bool → List ℕ
offsets_tag co64 = if co64 then tag_co64 else tag_stco

-- The same as a number.
type_number : Bool → ℕ
type_number true = mov_tag b'c' b'o' b'6' b'4'
type_number false = mov_tag b's' b't' b'c' b'o'

type_number-bits : (co64 : Bool) → type_number co64 < 2 ^ 32
unfolding type_number
type_number-bits true = omega arith
type_number-bits false = omega arith

type_number-bytes : (co64 : Bool) → be32 (type_number co64) ≡ offsets_tag co64
unfolding type_number be32 be16
type_number-bytes true = refl
type_number-bytes false = refl

module _ (I : MovInput) where
  Reads-32 :
      (numbers : List ℕ)
      → All (λ n. n < 2 ^ 32) numbers
      → Reads I (read_numbers I.buffer (length numbers)) (words false numbers) numbers
  unfolding read_numbers words word
  Reads-32 [] h = Reads-pure I []
  Reads-32 (n ∷ numbers) (h, hs) =
      Reads-cast I (words false (n ∷ numbers)) (n ∷ numbers)
        (Reads-bind I _ (Reads-r32 I n h) (Reads-bind I _ (Reads-32 numbers hs) (Reads-pure I _)))
        (rw append-nil) refl

  Reads-64 :
      (numbers : List ℕ)
      → All (λ n. n < 2 ^ 64) numbers
      → Reads I (read_numbers64 I.buffer (length numbers)) (words true numbers) numbers
  unfolding read_numbers64 words word
  Reads-64 [] h = Reads-pure I []
  Reads-64 (n ∷ numbers) (h, hs) =
      Reads-cast I (words true (n ∷ numbers)) (n ∷ numbers)
        (Reads-bind I _ (Reads-r64 I n h) (Reads-bind I _ (Reads-64 numbers hs) (Reads-pure I _)))
        (rw append-nil) refl

  abbrev with_error : Call I.State (List ℕ) → Call I.State (Outcome (List ℕ × ℕ))
  with_error read = do
    numbers ← read
    error ← mov_buffer_error I.buffer
    pure (done (numbers, error))

  Reads-counted :
      (read : Call I.State (List ℕ)) (bytes numbers : List ℕ)
      → Reads I read bytes numbers
      → Reads I (with_error read) bytes (done (numbers, 0))
  Reads-counted read bytes numbers h =
      Reads-cast I bytes (done (numbers, 0))
        (Reads-bind I _ h (Reads-bind I _ (Reads-error I) (Reads-pure I _))) (rw append-nil refl)
        refl

  Reads-stco_fields :
      (co64 : Bool) (numbers : List ℕ)
      → All (λ n. n < limit co64) numbers
      → Reads I
          (if no_table {A = ℕ} []
            then stco_fields I.buffer (type_number co64) (length numbers)
            else pure fault)
          (words co64 numbers)
          (done (numbers, 0))
  unfolding stco_fields no_table type_number
  Reads-stco_fields true numbers h = Reads-counted _ _ numbers (Reads-64 numbers h)
  Reads-stco_fields false numbers h = Reads-counted _ _ numbers (Reads-32 numbers h)

  Reads-stco :
      (co64 : Bool) (numbers : List ℕ)
      → length numbers < 2 ^ 32
      → All (λ n. n < limit co64) numbers
      → Reads I
          (mov_read_stco I.buffer [] (type_number co64))
          (be32 0 ++ (be32 (length numbers) ++ words co64 numbers))
          (done (numbers, 0))
  unfolding mov_read_stco be32 be16 be24
  Reads-stco co64 numbers n h =
      Reads-cast I (be32 0 ++ (be32 (length numbers) ++ words co64 numbers)) (done (numbers, 0))
        (Reads-bind I _ (Reads-r8 I 0) (
          Reads-bind I _ (Reads-r24 I 0 (omega arith))
            (Reads-bind I _ (Reads-r32 I (length numbers) n) (Reads-stco_fields co64 numbers h))))
        refl refl

  -- From size and type of the box on.
  Reads-box :
      (co64 : Bool) (size : ℕ) (numbers : List ℕ)
      → size < 2 ^ 32
      → length numbers < 2 ^ 32
      → All (λ n. n < limit co64) numbers
      → Reads I
          (read_box I.buffer (mov_read_stco I.buffer []))
          ((be32 size ++ offsets_tag co64)
            ++ (be32 0 ++ (be32 (length numbers) ++ words co64 numbers)))
          (done (numbers, 0))
  unfolding read_box
  Reads-box co64 size numbers s n h =
      Reads-cast I
        ((be32 size ++ offsets_tag co64)
          ++ (be32 0 ++ (be32 (length numbers) ++ words co64 numbers)))
        (done (numbers, 0))
        (Reads-bind I _ (Reads-r32 I size s) (
          Reads-bind I _ (Reads-r32 I (type_number co64) (type_number-bits co64))
            (Reads-stco co64 numbers n h)))
        (rw (sym (type_number-bytes co64), append_assoc) refl) refl

abbrev stco_size : Bool → ℕ → ℕ
stco_size co64 count = u32 (12 + 4 + count * (if co64 then 8 else 4))

module _ (O : MovOutput) where
  Writes-word :
      (co64 : Bool) (track_offset end : ℕ) (s : MovSample)
      → u64 (s.offset + track_offset) < limit co64
      → Writes O
          (if co64
            then mov_buffer_w64 O.buffer (u64 (s.offset + track_offset))
            else mov_buffer_w32 O.buffer (u32 (u64 (s.offset + track_offset))))
          (word co64 (u64 (s.offset + track_offset)))
          tt
  unfolding word
  Writes-word true track_offset end s h = Writes-w64 O (u64 (s.offset + track_offset))
  Writes-word false track_offset end s h =
      let e : u32 (u64 (s.offset + track_offset)) ≡ u64 (s.offset + track_offset) = omega arith in
      rw e (Writes-w32 O (u64 (s.offset + track_offset)))

  Writes-offsets :
      (co64 : Bool) (track_offset end : ℕ) (samples : List MovSample)
      → IsLast end track_offset samples
      → end < limit co64
      → Writes O
          (write_offsets O.buffer co64 track_offset samples)
          (words co64 (chunk_offsets track_offset samples))
          tt
  unfolding write_offsets words chunk_offsets
  Writes-offsets co64 track_offset end [] h b = Writes-pure O tt
  Writes-offsets co64 track_offset end (s ∷ samples) (h, hs) b =
      elim (Bool-cases (s.first_chunk == 0)) [
        | inl e ↦ rw e (Writes-offsets co64 track_offset end samples hs b)
        | inr e ↦ rw e (
            Writes-then O (Writes-word co64 track_offset end s (omega (arith, h, b)))
              (Writes-offsets co64 track_offset end samples hs b))
      ]

  Writes-stco :
      (samples : List MovSample) (track_offset count : ℕ)
      → IsLast (last_offset samples track_offset) track_offset samples
      → Writes O
          (mov_write_stco O.buffer samples track_offset count)
          ((be32 (stco_size (needs_co64 samples track_offset) count)
              ++ offsets_tag (needs_co64 samples track_offset))
            ++ (be32 0
                ++ (be32 count
                    ++ words
                        (needs_co64 samples track_offset)
                        (chunk_offsets track_offset samples))))
          (stco_size (needs_co64 samples track_offset) count)
  unfolding mov_write_stco
  Writes-stco samples track_offset count h =
      let co64 = needs_co64 samples track_offset in
      let offsets = chunk_offsets track_offset samples in
      Writes-cast O
        ((be32 (stco_size co64 count) ++ offsets_tag co64)
          ++ (be32 0 ++ (be32 count ++ words co64 offsets)))
        (Writes-then O (Writes-w32 O (stco_size co64 count)) (
          Writes-then O (Writes-write O (offsets_tag co64)) (
            Writes-then O (Writes-w32 O 0) (
              Writes-then O (Writes-w32 O count) (
                Writes-then O
                  (Writes-offsets co64 track_offset (last_offset samples track_offset) samples h
                    (last_offset-limit samples track_offset))
                  (Writes-pure O (stco_size co64 count)))))))
        (rw (append-nil, append_assoc))

-- The offsets of the chunks, with the start of the track added, that mov_write_stco writes at the
-- end of a file, with their number (below 2^32) and where no sample lies behind the last one, are
-- what mov_read_stco returns, without an error, of an input that delivers what was written: size
-- and type of the box are read first, and the reader gets the type that stands in the file, with
-- no table before. The box has 64 bits for an offset if the last one needs them, and 32 bits are
-- enough for all of them otherwise.
pub mov_read_stco-write :
    (O : MovOutput) (I : MovInput) (samples : List MovSample) (track_offset count : ℕ)
    (out : MovIo O.State) (inp : MovIo I.State) (back : List ℕ)
    → IsLast (last_offset samples track_offset) track_offset samples
    → count ≡ length (chunk_offsets track_offset samples)
    → count < 2 ^ 32
    → IsAtEnd O out
    → inp.error ≡ 0
    → I.remaining inp.param
      ≡ drop
          (length (O.contents out.param))
          (O.contents (mov_write_stco O.buffer samples track_offset count out).1.param)
        ++ back
    → (read_box I.buffer (mov_read_stco I.buffer []) inp).0
      ≡ done (chunk_offsets track_offset samples, 0)
mov_read_stco-write O I samples track_offset count out inp back l c n e z h =
    let co64 = needs_co64 samples track_offset in
    let offsets = chunk_offsets track_offset samples in
    let size = stco_size co64 count in
    let bound =
      chunk_offsets-bound co64 track_offset (last_offset samples track_offset) samples l
        (last_offset-limit samples track_offset) in
    read-written O I []
      ((be32 size ++ offsets_tag co64) ++ (be32 0 ++ (be32 count ++ words co64 offsets))) back out
      inp (Writes-stco O samples track_offset count l)
      (subst
        (λ k.
          Reads I (read_box I.buffer (mov_read_stco I.buffer []))
            ((be32 size ++ offsets_tag co64) ++ (be32 0 ++ (be32 k ++ words co64 offsets)))
            (done (offsets, 0)))
        (sym c) (Reads-box I co64 size offsets (omega arith) (rw (sym c) n) bound))
      e z (rw add-zero h)
