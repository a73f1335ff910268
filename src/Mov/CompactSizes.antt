-- ===== src/Mov/CompactSizes.antt =====
-- src/media-server/libmov/source/mov-stsz.c: the compact box of sample sizes, with 4, 8 or 16 bits
-- for each. The reader starts behind size and type of the box; an allocation does not fail.
use stream.Base.{
  ℕ, zero, suc, List, [], ◌∷◌, ◌++◌, ◌+◌, ◌*◌, ◌/◌, ◌%◌, ◌^◌, ◌<◌, ◌≡◌, refl, sym, ap, ◌∙◌, ◌⊎◌,
  inl, inr, true, ◌==◌, ◌||◌, bit_and, ◌>>>◌, if◌then◌else◌, length, All, Outcome, done, fault,
  arith,
}
use stream.Base.Bits.{mask_low}
use mathlib.Core.List.{append-nil}
use mathlib.Core.Path.{subst}
use stream.Mov.IoUtil.{
  MovBuffer, MovIo, Call, ◌>>=◌, pure, mov_buffer_error, mov_buffer_r8, mov_buffer_r16,
  mov_buffer_r24, mov_buffer_r32,
}
use stream.Mov.Files.{MovInput, Reads, Reads-bind, Reads-pure, Reads-cast}
use stream.Mov.Words.{be16, be24, be32, Reads-r8, Reads-r16, Reads-r24, Reads-r32}
use stream.Mov.TimeFile.{Reads-error}
use stream.Mov.Samples.{MovSample}
use stream.Mov.SizeTables.{sized, allocated, can_allocate}
use stream.Mov.SizeFile.{Reads-array}

module _ {S : Type 0} (cb : MovBuffer S) where
  -- The loop over `n` bytes of two sizes each, and the byte behind them if `odd` is not 0.
  unfoldable pub read_halves : ℕ → ℕ → Call S (List MovSample)
  read_halves zero zero = pure []
  read_halves zero (suc odd) = do v ← mov_buffer_r8 cb; pure (sized (bit_and (v >>> 4) 0x0F) ∷ [])
  read_halves (suc n) odd = do
    v ← mov_buffer_r8 cb
    samples ← read_halves n odd
    pure (sized (bit_and (v >>> 4) 0x0F) ∷ (sized (bit_and v 0x0F) ∷ samples))

  unfoldable pub read_each : Call S ℕ → ℕ → Call S (List MovSample)
  read_each read zero = pure []
  read_each read (suc n) = do bytes ← read; samples ← read_each read n; pure (sized bytes ∷ samples)

  -- What is read behind the header.
  unfoldable pub read_fields : ℕ → ℕ → Call S (List MovSample)
  read_fields field_size n =
      if field_size == 4
      then read_halves (n / 2) (n % 2)
      else if field_size == 8
      then read_each (mov_buffer_r8 cb) n
      else read_each (mov_buffer_r16 cb) n

  -- What is read into the new array, and what is returned.
  unfoldable pub stz2_fields : ℕ → ℕ → Call S (Outcome (List MovSample × ℕ))
  stz2_fields field_size n = do
    samples ← read_fields field_size n
    error ← mov_buffer_error cb
    pure (done (allocated samples, error))

  -- From the test of the field size on, or a fault where the assertion on it fails, and where that on
  -- `track->samples`, which is `old`, does or the array has no entries.
  unfoldable pub checked_fields : List MovSample → ℕ → ℕ → Call S (Outcome (List MovSample × ℕ))
  checked_fields old field_size n =
      if field_size == 4 || (field_size == 8 || field_size == 16)
      then (if can_allocate old n then stz2_fields field_size n else pure fault)
      else pure fault

  unfoldable pub mov_read_stz2 : List MovSample → Call S (Outcome (List MovSample × ℕ))
  mov_read_stz2 old = do
    _ ← mov_buffer_r8 cb
    _ ← mov_buffer_r24 cb
    _ ← mov_buffer_r24 cb
    field_size ← mov_buffer_r8 cb
    n ← mov_buffer_r32 cb
    checked_fields old field_size n

-- The sizes, packed into fields.
unfoldable pub pack_halves : List ℕ → List ℕ
pack_halves [] = []
pack_halves (a ∷ []) = a * 16 ∷ []
pack_halves (a ∷ b ∷ sizes) = (a * 16 + b) ∷ pack_halves sizes

unfoldable pub pack_words : List ℕ → List ℕ
pack_words [] = []
pack_words (a ∷ sizes) = be16 a ++ pack_words sizes

abbrev pub packed : ℕ → List ℕ → List ℕ
packed field_size sizes =
    if field_size == 4
    then pack_halves sizes
    else if field_size == 8
    then sizes
    else pack_words sizes

abbrev pub sized_each : List ℕ → List MovSample
sized_each [] = []
sized_each (a ∷ sizes) = sized a ∷ sized_each sizes

upper_half : (a b : ℕ) → a < 16 → b < 16 → bit_and ((a * 16 + b) >>> 4) 0x0F ≡ a
upper_half a b p q = mask_low 4 ((a * 16 + b) >>> 4) ∙ omega arith

lower_half : (a b : ℕ) → b < 16 → bit_and (a * 16 + b) 0x0F ≡ b
lower_half a b q = mask_low 4 (a * 16 + b) ∙ omega arith

module _ (I : MovInput) where
  Reads-halves :
      (sizes : List ℕ)
      → All (λ a. a < 16) sizes
      → Reads I
          (read_halves I.buffer (length sizes / 2) (length sizes % 2))
          (pack_halves sizes)
          (sized_each sizes)
  unfolding read_halves pack_halves
  Reads-halves [] h = Reads-pure I []
  Reads-halves (a ∷ []) (p, h) =
      Reads-cast I (a * 16 ∷ []) (sized a ∷ [])
        (Reads-bind I _ (Reads-r8 I (a * 16)) (Reads-pure I _)) refl
        (ap (λ n. sized n ∷ []) (mask_low 4 ((a * 16) >>> 4) ∙ omega arith))
  Reads-halves (a ∷ b ∷ sizes) (p, (q, h)) =
      let more : suc (suc (length sizes)) / 2 ≡ suc (length sizes / 2) = omega arith in
      let odd : suc (suc (length sizes)) % 2 ≡ length sizes % 2 = omega arith in
      rw (more, odd)
        (Reads-cast I ((a * 16 + b) ∷ pack_halves sizes) (sized a ∷ (sized b ∷ sized_each sizes))
          (Reads-bind I _ (Reads-r8 I (a * 16 + b))
            (Reads-bind I _ (Reads-halves sizes h) (Reads-pure I _)))
          (rw append-nil) (rw (upper_half a b p q, lower_half a b q)))

  Reads-bytes :
      (sizes : List ℕ)
      → Reads I
          (read_each I.buffer (mov_buffer_r8 I.buffer) (length sizes))
          sizes
          (sized_each sizes)
  unfolding read_each
  Reads-bytes [] = Reads-pure I []
  Reads-bytes (a ∷ sizes) =
      Reads-cast I (a ∷ sizes) (sized a ∷ sized_each sizes)
        (Reads-bind I _ (Reads-r8 I a) (Reads-bind I _ (Reads-bytes sizes) (Reads-pure I _)))
        (rw append-nil) refl

  Reads-words16 :
      (sizes : List ℕ)
      → All (λ a. a < 2 ^ 16) sizes
      → Reads I
          (read_each I.buffer (mov_buffer_r16 I.buffer) (length sizes))
          (pack_words sizes)
          (sized_each sizes)
  unfolding read_each pack_words
  Reads-words16 [] h = Reads-pure I []
  Reads-words16 (a ∷ sizes) (p, h) =
      Reads-cast I (pack_words (a ∷ sizes)) (sized a ∷ sized_each sizes)
        (Reads-bind I _ (Reads-r16 I a p) (Reads-bind I _ (Reads-words16 sizes h) (Reads-pure I _)))
        (rw append-nil) refl

  Reads-fields :
      (field_size : ℕ) (sizes : List ℕ)
      → (field_size ≡ 4) ⊎ ((field_size ≡ 8) ⊎ (field_size ≡ 16))
      → All (λ a. a < 2 ^ field_size) sizes
      → Reads I
          (read_fields I.buffer field_size (length sizes))
          (packed field_size sizes)
          (sized_each sizes)
  unfolding read_fields
  Reads-fields field_size sizes (inl e) h =
      subst
        (λ k. Reads I (read_fields I.buffer k (length sizes)) (packed k sizes) (sized_each sizes))
        (sym e) (Reads-halves sizes (subst (λ k. All (λ a. a < 2 ^ k) sizes) e h))
  Reads-fields field_size sizes (inr (inl e)) h =
      subst
        (λ k. Reads I (read_fields I.buffer k (length sizes)) (packed k sizes) (sized_each sizes))
        (sym e) (Reads-bytes sizes)
  Reads-fields field_size sizes (inr (inr e)) h =
      subst
        (λ k. Reads I (read_fields I.buffer k (length sizes)) (packed k sizes) (sized_each sizes))
        (sym e) (Reads-words16 sizes (subst (λ k. All (λ a. a < 2 ^ k) sizes) e h))

  is_field_size :
      (field_size : ℕ)
      → (field_size ≡ 4) ⊎ ((field_size ≡ 8) ⊎ (field_size ≡ 16))
      → (field_size == 4 || (field_size == 8 || field_size == 16)) ≡ true
  is_field_size field_size h = ground arith

  Reads-stz2_fields :
      (field_size : ℕ) (sizes : List ℕ)
      → (field_size ≡ 4) ⊎ ((field_size ≡ 8) ⊎ (field_size ≡ 16))
      → All (λ a. a < 2 ^ field_size) sizes
      → Reads I
          (stz2_fields I.buffer field_size (length sizes))
          (packed field_size sizes)
          (done (allocated (sized_each sizes), 0))
  unfolding stz2_fields
  Reads-stz2_fields field_size sizes f h =
      Reads-cast I (packed field_size sizes) (done (allocated (sized_each sizes), 0))
        (Reads-bind I _ (Reads-fields field_size sizes f h)
          (Reads-bind I _ (Reads-error I) (Reads-pure I _)))
        (rw append-nil refl) refl

  Reads-checked :
      (field_size : ℕ) (sizes : List ℕ)
      → (field_size ≡ 4) ⊎ ((field_size ≡ 8) ⊎ (field_size ≡ 16))
      → All (λ a. a < 2 ^ field_size) sizes
      → length sizes + 1 < 2 ^ 32
      → Reads I
          (checked_fields I.buffer [] field_size (length sizes))
          (packed field_size sizes)
          (done (allocated (sized_each sizes), 0))
  unfolding checked_fields
  Reads-checked field_size sizes f h n = rw (is_field_size field_size f) (
      Reads-array I (length sizes) (stz2_fields I.buffer field_size (length sizes))
        (packed field_size sizes) (done (allocated (sized_each sizes), 0)) n
        (Reads-stz2_fields field_size sizes f h))

  Reads-stz2 :
      (field_size : ℕ) (sizes : List ℕ)
      → (field_size ≡ 4) ⊎ ((field_size ≡ 8) ⊎ (field_size ≡ 16))
      → All (λ a. a < 2 ^ field_size) sizes
      → length sizes + 1 < 2 ^ 32
      → Reads I
          (mov_read_stz2 I.buffer [])
          (be32 0 ++ (be24 0 ++ (field_size ∷ (be32 (length sizes) ++ packed field_size sizes))))
          (done (allocated (sized_each sizes), 0))
  unfolding mov_read_stz2 be32 be16 be24
  Reads-stz2 field_size sizes f h n =
      Reads-cast I
        (be32 0 ++ (be24 0 ++ (field_size ∷ (be32 (length sizes) ++ packed field_size sizes))))
        (done (allocated (sized_each sizes), 0))
        (Reads-bind I _ (Reads-r8 I 0) (
          Reads-bind I _ (Reads-r24 I 0 (omega arith)) (
            Reads-bind I _ (Reads-r24 I 0 (omega arith)) (
              Reads-bind I _ (Reads-r8 I field_size) (
                Reads-bind I _ (Reads-r32 I (length sizes) (omega arith))
                  (Reads-checked field_size sizes f h n))))))
        refl refl

  -- Of the fields behind size and type of a compact box (version, flags, a reserved number, the size of
  -- a field, fewer than 2^32 - 1 as number of samples, and the sizes in fields of 4, 8 or 16 bits that they
  -- fit, two to a byte for 4 bits, high half first), mov_read_stz2 takes all and returns the array of
  -- as many samples with these sizes, without an error. The track has no samples before.
  pub mov_read_stz2-packed :
      (field_size : ℕ) (sizes : List ℕ) (inp : MovIo I.State) (back : List ℕ)
      → (field_size ≡ 4) ⊎ ((field_size ≡ 8) ⊎ (field_size ≡ 16))
      → All (λ a. a < 2 ^ field_size) sizes
      → length sizes + 1 < 2 ^ 32
      → inp.error ≡ 0
      → I.remaining inp.param
        ≡ (be32 0 ++ (be24 0 ++ (field_size ∷ (be32 (length sizes) ++ packed field_size sizes))))
          ++ back
      → ((mov_read_stz2 I.buffer [] inp).0 ≡ done (allocated (sized_each sizes), 0))
        × (I.remaining (mov_read_stz2 I.buffer [] inp).1.param ≡ back)
  mov_read_stz2-packed field_size sizes inp back f h n e r =
      let (x, y, z) = (Reads-stz2 field_size sizes f h n).runs inp back e r in (x, z)
