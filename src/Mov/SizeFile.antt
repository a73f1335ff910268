-- ===== src/Mov/SizeFile.antt =====
-- src/media-server/libmov/source/mov-stsz.c and mov-stss.c: sizes and key frames that are written
-- into a file and read back from it.
use stream.Base.{
  ℕ, suc, List, [], ◌∷◌, ◌++◌, ◌+◌, ◌*◌, ◌^◌, ◌≤◌, ◌<◌, ◌≡◌, refl, ap, ◌==◌, if◌then◌else◌,
  Bool-cases, inl, inr, length, drop, All, true, false, ltb, u32, arith, Outcome, done, fault,
}
use stream.Base.{Bool}
use mathlib.Core.List.{append_assoc, append-nil}
use stream.Mov.IoUtil.{Call, mov_buffer_w32, MovIo, ◌>>◌, pure}
use stream.Mov.Files.{
  MovInput, MovOutput, Reads, Reads-bind, Reads-pure, Reads-cast, IsAtEnd, Writes, Writes-then,
  Writes-pure, Writes-cast, read-written,
}
use stream.Mov.Words.{be16, be24, be32, Reads-r8, Reads-r24, Reads-r32, Writes-write, Writes-w32}
use stream.Mov.TimeFile.{Reads-error}
use stream.Mov.Samples.{MovSample}
use stream.Mov.SizeTables.{
  sized, allocated, first_change, change_index, first_size, can_allocate, no_table, stsz_fields,
  read_sizes, same_sizes, mov_read_stsz, write_sizes, mov_write_stsz,
}

-- What a reader learns of the samples here.
unfoldable pub sized_all : List MovSample → List MovSample
sized_all [] = []
sized_all (s ∷ samples) = sized s.bytes ∷ sized_all samples

abbrev pub IsSized : MovSample → Type 0
IsSized s = (0 < s.bytes) × (s.bytes < 2 ^ 32)

size_bytes : List MovSample → List ℕ
size_bytes [] = []
size_bytes (s ∷ samples) = be32 s.bytes ++ size_bytes samples

positive_test : (n : ℕ) → 0 < n → (n == 0) ≡ false
positive_test n h = ground arith

equal : (m n : ℕ) → (m == n) ≡ true → m ≡ n
equal m n h = ground arith

change_here : (i later n : ℕ) (b : Bool) → b ≡ false → i + suc n ≤ (if b then later else i) → ⊥
change_here i later n b e h = ground arith

first_change-bound :
    (i : ℕ) (prev : MovSample) (samples : List MovSample)
    → first_change i prev samples ≤ i + length samples
unfolding first_change
first_change-bound i prev [] = omega arith
first_change-bound i prev (s ∷ samples) = ground (arith, first_change-bound (i + 1) s samples)

-- Where no size changes, all are the first one.
first_change-none :
    (i : ℕ) (prev : MovSample) (samples : List MovSample)
    → i + length samples ≤ first_change i prev samples
    → sized_all samples ≡ same_sizes (length samples) prev.bytes
unfolding first_change sized_all same_sizes
first_change-none i prev [] h = refl
first_change-none i prev (s ∷ samples) h = elim (Bool-cases (s.bytes == prev.bytes)) [
  | inl e ↦
      let same : s.bytes ≡ prev.bytes = equal s.bytes prev.bytes e in
      let h' : i + 1 + length samples ≤ first_change (i + 1) s samples = ground (arith, e, h) in
      rw (first_change-none (i + 1) s samples h', same)
  | inr e ↦
      absurd (
        change_here i (first_change (i + 1) s samples) (length samples) (s.bytes == prev.bytes) e h)
]

change_index-none :
    (s : MovSample) (samples : List MovSample)
    → ltb (change_index (s ∷ samples)) (length (s ∷ samples)) ≡ false
    → sized_all (s ∷ samples) ≡ same_sizes (length (s ∷ samples)) s.bytes
unfolding change_index sized_all same_sizes
change_index-none s samples h =
    ap (λ l. sized s.bytes ∷ l) (first_change-none 1 s samples (ground (arith, h)))

module _ (I : MovInput) where
  Reads-sizes :
      (samples : List MovSample)
      → All IsSized samples
      → Reads I (read_sizes I.buffer (length samples)) (size_bytes samples) (sized_all samples)
  unfolding read_sizes size_bytes sized_all
  Reads-sizes [] h = Reads-pure I []
  Reads-sizes (s ∷ samples) ((p, q), hs) =
      Reads-cast I (size_bytes (s ∷ samples)) (sized_all (s ∷ samples))
        (Reads-bind I _ (Reads-r32 I s.bytes q)
          (Reads-bind I _ (Reads-sizes samples hs) (Reads-pure I _)))
        (rw append-nil) refl

  fixed_branch :
      (n bytes : ℕ)
      → 0 < bytes
      → Reads I
          (if bytes == 0 then read_sizes I.buffer n else pure (same_sizes n bytes))
          []
          (same_sizes n bytes)
  fixed_branch n bytes q = rw (positive_test bytes q) (Reads-pure I (same_sizes n bytes))

  can_allocate_none : (n : ℕ) → n + 1 < 2 ^ 32 → can_allocate [] n ≡ true
  unfolding can_allocate no_table
  can_allocate_none n h = ground (arith, h)

  pub Reads-array :
      (n : ℕ) (fields : Call I.State (Outcome (List MovSample × ℕ))) (bytes : List ℕ)
      (r : Outcome (List MovSample × ℕ))
      → n + 1 < 2 ^ 32
      → Reads I fields bytes r
      → Reads I (if can_allocate [] n then fields else pure fault) bytes r
  Reads-array n fields bytes r h f = rw (can_allocate_none n h) f

  Reads-stsz_fields :
      (sample_size n : ℕ) (bytes : List ℕ) (samples : List MovSample)
      → Reads I
          (if sample_size == 0 then read_sizes I.buffer n else pure (same_sizes n sample_size))
          bytes
          samples
      → Reads I (stsz_fields I.buffer sample_size n) bytes (done (allocated samples, 0))
  unfolding stsz_fields
  Reads-stsz_fields sample_size n bytes samples h =
      Reads-cast I bytes (done (allocated samples, 0))
        (Reads-bind I _ h (Reads-bind I _ (Reads-error I) (Reads-pure I _))) (rw append-nil refl)
        refl

  -- The rest of the box, of the two kinds.
  Reads-listed :
      (samples : List MovSample)
      → length samples + 1 < 2 ^ 32
      → All IsSized samples
      → Reads I
          (mov_read_stsz I.buffer [])
          (be32 0 ++ (be32 0 ++ (be32 (length samples) ++ size_bytes samples)))
          (done (allocated (sized_all samples), 0))
  unfolding mov_read_stsz be32 be16 be24
  Reads-listed samples n h =
      Reads-cast I (be32 0 ++ (be32 0 ++ (be32 (length samples) ++ size_bytes samples)))
        (done (allocated (sized_all samples), 0))
        (Reads-bind I _ (Reads-r8 I 0) (
          Reads-bind I _ (Reads-r24 I 0 (omega arith)) (
            Reads-bind I _ (Reads-r32 I 0 (omega arith)) (
              Reads-bind I _ (Reads-r32 I (length samples) (omega arith)) (
                Reads-array (length samples) _ _ _ n
                  (Reads-stsz_fields 0 (length samples) _ _ (Reads-sizes samples h)))))))
        refl refl

  Reads-fixed :
      (n bytes : ℕ)
      → n + 1 < 2 ^ 32
      → 0 < bytes
      → bytes < 2 ^ 32
      → Reads I
          (mov_read_stsz I.buffer [])
          (be32 0 ++ (be32 bytes ++ be32 n))
          (done (allocated (same_sizes n bytes), 0))
  unfolding mov_read_stsz be32 be16 be24
  Reads-fixed n bytes p q r =
      Reads-cast I (be32 0 ++ (be32 bytes ++ be32 n)) (done (allocated (same_sizes n bytes), 0))
        (Reads-bind I _ (Reads-r8 I 0) (
          Reads-bind I _ (Reads-r24 I 0 (omega arith)) (
            Reads-bind I _ (Reads-r32 I bytes r) (
              Reads-bind I _ (Reads-r32 I n (omega arith))
                (Reads-array n _ _ _ p (Reads-stsz_fields bytes n _ _ (fixed_branch n bytes q)))))))
        (rw append-nil) refl

differ : List MovSample → Bool
differ samples = ltb (change_index samples) (length samples)

stsz_size : List MovSample → ℕ
stsz_size samples = u32 (12 + 8 + (if differ samples then 4 * length samples else 0))

size_payload : List MovSample → List ℕ
size_payload samples =
    if differ samples
    then be32 0 ++ (be32 (length samples) ++ size_bytes samples)
    else be32 (first_size samples) ++ be32 (length samples)

stsz_tag : List ℕ
stsz_tag = 0x73 ∷ 0x74 ∷ 0x73 ∷ 0x7A ∷ []

module _ (O : MovOutput) where
  Writes-sizes :
      (samples : List MovSample) → Writes O (write_sizes O.buffer samples) (size_bytes samples) tt
  unfolding write_sizes size_bytes
  Writes-sizes [] = Writes-pure O tt
  Writes-sizes (s ∷ samples) = Writes-then O (Writes-w32 O s.bytes) (Writes-sizes samples)

  Writes-rest :
      (samples : List MovSample)
      → Writes O
          (if differ samples
            then mov_buffer_w32 O.buffer 0
              >> (mov_buffer_w32 O.buffer (length samples) >> write_sizes O.buffer samples)
            else mov_buffer_w32 O.buffer (first_size samples)
              >> mov_buffer_w32 O.buffer (length samples))
          (size_payload samples)
          tt
  unfolding size_payload
  Writes-rest samples = elim (Bool-cases (differ samples)) [
    | inl e ↦ rw e (
        Writes-then O (Writes-w32 O 0)
          (Writes-then O (Writes-w32 O (length samples)) (Writes-sizes samples)))
    | inr e ↦
        rw e (Writes-then O (Writes-w32 O (first_size samples)) (Writes-w32 O (length samples)))
  ]

  Writes-stsz :
      (samples : List MovSample)
      → Writes O
          (mov_write_stsz O.buffer samples)
          ((be32 (stsz_size samples) ++ stsz_tag) ++ (be32 0 ++ size_payload samples))
          (stsz_size samples)
  unfolding mov_write_stsz stsz_size stsz_tag differ
  Writes-stsz samples =
      Writes-cast O ((be32 (stsz_size samples) ++ stsz_tag) ++ (be32 0 ++ size_payload samples))
        (Writes-then O (Writes-w32 O (stsz_size samples)) (
          Writes-then O (Writes-write O stsz_tag) (
            Writes-then O (Writes-w32 O 0)
              (Writes-then O (Writes-rest samples) (Writes-pure O (stsz_size samples))))))
        (rw (append-nil, append_assoc))

Reads-empty :
    (I : MovInput)
    → Reads I
        (mov_read_stsz I.buffer [])
        (be32 0 ++ size_payload [])
        (done (allocated (sized_all []), 0))
unfolding size_payload differ change_index size_bytes sized_all allocated
Reads-empty I =
    Reads-cast I (be32 0 ++ (be32 0 ++ be32 0)) (done ([], 0)) (Reads-listed I [] (omega arith) tt)
      (rw append-nil) refl

Reads-stsz :
    (I : MovInput) (samples : List MovSample)
    → length samples + 1 < 2 ^ 32
    → All IsSized samples
    → Reads I
        (mov_read_stsz I.buffer [])
        (be32 0 ++ size_payload samples)
        (done (allocated (sized_all samples), 0))
unfolding size_payload differ
Reads-stsz I [] n h = Reads-empty I
Reads-stsz I (s ∷ samples) n (h, hs) = elim (Bool-cases (differ (s ∷ samples))) [
  | inl e ↦ rw e (Reads-listed I (s ∷ samples) n (h, hs))
  | inr e ↦
      rw (e, change_index-none s samples e) (Reads-fixed I (length (s ∷ samples)) s.bytes n h.0 h.1)
]

length-size_header : (samples : List MovSample) → length (be32 (stsz_size samples) ++ stsz_tag) ≡ 8
unfolding stsz_tag be32 be16
length-size_header samples = refl

-- The sizes of fewer than 2^32 - 1 samples (none of them 0, all of 32 bits), written by mov_write_stsz at the end of
-- a file, are the sizes in the array that mov_read_stsz returns of what was written from behind
-- the size and the type of the box on, without an error, whether the box lists the sizes or has
-- one for all; one more entry of the array stays empty. Without samples there is no array. The
-- track has no samples before.
pub mov_read_stsz-write :
    (O : MovOutput) (I : MovInput) (samples : List MovSample) (out : MovIo O.State)
    (inp : MovIo I.State) (back : List ℕ)
    → All IsSized samples
    → length samples + 1 < 2 ^ 32
    → IsAtEnd O out
    → inp.error ≡ 0
    → I.remaining inp.param
      ≡ drop
          (length (O.contents out.param) + 8)
          (O.contents (mov_write_stsz O.buffer samples out).1.param)
        ++ back
    → (mov_read_stsz I.buffer [] inp).0 ≡ done (allocated (sized_all samples), 0)
mov_read_stsz-write O I samples out inp back f n e z h =
    read-written O I (be32 (stsz_size samples) ++ stsz_tag) (be32 0 ++ size_payload samples) back
      out inp (Writes-stsz O samples) (Reads-stsz I samples n f) e z
      (rw (length-size_header samples) h)
