-- ===== src/Mpeg/TsClock.antt =====
-- src/media-server/libmpeg/source/mpeg-ts-enc.c and mpeg-ts-dec.c: the adaptation field of the first
-- packet, written and read.
use stream.Base.{
  ℕ, List, [], ◌∷◌, ◌++◌, ◌+◌, ◌*◌, ◌/◌, ◌^◌, ◌%◌, ◌≤◌, ◌<◌, ◌≡◌, refl, sym, ap, ◌∙◌, ◌⊎◌, inl, inr,
  bit_or, lt→ltb, Bool-cases, true, length, drop, length-drop, replicate, arith, done, ◌>>=◌,
}
use stream.Base.Buffer.{store, store-behind}
use stream.Mpeg.Pes.{differs}
use stream.Mpeg.Adaptation.{
  TsAdaptationField, pcr_bytes, pcr_write, read_pcr, read_opcr, read_splice, read_private,
  read_extension, adaptation_filed_read,
}
use stream.Mpeg.ClockRoundTrip.{adp_image, adaptation_filed_read-pcr_write}
use stream.Mpeg.TsHeader.{
  TsProgram, TsStream, set_bits, has_pcr, is_random_access, stream_pcr, write_adaptation,
}
use stream.Mpeg.TsInput.{no_adaptation}
use stream.Mpeg.TsField.{plain_byte, field_byte, byte_facts}

-- An adaptation field of `n` bytes, `b5` and `f`, that is written into the first packet; with stuffing
-- of any length behind it, the reader takes it.
pub record Field (program : TsProgram) (s : TsStream) (a0 a1 a2 : ℕ) (z : List ℕ) : Type 0 where
  pub n : ℕ
  pub b5 : ℕ
  pub f : List ℕ
  pub room : List ℕ
  pub adp : ℕ → TsAdaptationField
  pub image :
      write_adaptation program s true (a0 ∷ a1 ∷ a2 ∷ plain_byte s.cc ∷ 0 ∷ 0 ∷ z)
      ≡ done (a0 ∷ a1 ∷ a2 ∷ field_byte s.cc ∷ n ∷ b5 ∷ (f ++ room), 4 + 1 + n)
  pub flags : differs 0 b5 ≡ true
  pub number : n ≡ 1 + length f
  pub small : n ≤ 7
  pub sizes : length f + length room ≡ length z
  pub read :
      (k : ℕ) (rest : List ℕ)
      → adaptation_filed_read no_adaptation ((n + k) ∷ b5 ∷ (f ++ rest)) 184
        ≡ done (n + k + 1, adp k)

module _ (s : TsStream) (a0 a1 a2 : ℕ) (z : List ℕ) where
  set_flags :
      (b flag : ℕ)
      → (set_bits 3 0x20 (a0 ∷ a1 ∷ a2 ∷ b ∷ 0 ∷ flag ∷ z) >>= λ out. set_bits 5 0x40 out)
        ≡ done (a0 ∷ a1 ∷ a2 ∷ bit_or b 0x20 ∷ 0 ∷ bit_or flag 0x40 ∷ z)
  unfolding set_bits
  set_flags b flag =
      rw (store-behind (a0 ∷ a1 ∷ a2 ∷ []) (bit_or b 0x20 ∷ []) (b ∷ 0 ∷ flag ∷ z) (omega arith)) (
        store-behind (a0 ∷ a1 ∷ a2 ∷ bit_or b 0x20 ∷ 0 ∷ []) (bit_or flag 0x40 ∷ []) (flag ∷ z)
          (omega arith))

  set_pcr_flag :
      (b : ℕ)
      → (set_bits 3 0x20 (a0 ∷ a1 ∷ a2 ∷ b ∷ 0 ∷ 0 ∷ z) >>= λ out. set_bits 5 0x10 out)
        ≡ done (a0 ∷ a1 ∷ a2 ∷ bit_or b 0x20 ∷ 0 ∷ 0x10 ∷ z)
  unfolding set_bits
  set_pcr_flag b =
      rw (store-behind (a0 ∷ a1 ∷ a2 ∷ []) (bit_or b 0x20 ∷ []) (b ∷ 0 ∷ 0 ∷ z) (omega arith))
        (store-behind (a0 ∷ a1 ∷ a2 ∷ bit_or b 0x20 ∷ 0 ∷ []) (0x10 ∷ []) (0 ∷ z) (omega arith))

  read_clock :
      (pcr t k : ℕ) (rest : List ℕ)
      → t < 8
      → pcr < 300 * 2 ^ 33
      → adaptation_filed_read no_adaptation
          ((7 + k) ∷ (t * 32 + 0x10) ∷ (pcr_bytes pcr ++ rest))
          184
        ≡ done (
          7 + k + 1,
          record (adp_image no_adaptation (7 + k) t 0) {
            program_clock_reference_base = pcr / 300;
            program_clock_reference_extension = pcr % 300;
          },
        )
  unfolding pcr_write pcr_bytes
  read_clock pcr t k rest b c =
      let flag = t * 32 + 0x10 in
      let room = replicate 6 0 ++ rest in
      let written = store-behind ((7 + k) ∷ flag ∷ []) (pcr_bytes pcr) room (omega arith) in
      sym (ap (λ o. o >>= λ buf. adaptation_filed_read no_adaptation buf 184) written)
      ∙ adaptation_filed_read-pcr_write no_adaptation (7 + k) t pcr room 184 (omega arith) b c
          (omega arith) (omega arith)

  store_number :
      (flag : ℕ)
      → store 4 (1 ∷ []) (a0 ∷ a1 ∷ a2 ∷ field_byte s.cc ∷ 0 ∷ flag ∷ z)
        ≡ done (a0 ∷ a1 ∷ a2 ∷ field_byte s.cc ∷ 1 ∷ flag ∷ z)
  store_number flag =
      store-behind (a0 ∷ a1 ∷ a2 ∷ field_byte s.cc ∷ []) (1 ∷ []) (0 ∷ flag ∷ z) (omega arith)

  write_clock :
      (c flag : ℕ)
      → 6 ≤ length z
      → (pcr_write 6 c (a0 ∷ a1 ∷ a2 ∷ field_byte s.cc ∷ 1 ∷ flag ∷ z) >>= λ out.
          store 4 (7 ∷ []) out)
        ≡ done (a0 ∷ a1 ∷ a2 ∷ field_byte s.cc ∷ 7 ∷ flag ∷ (pcr_bytes c ++ drop 6 z))
  unfolding pcr_write pcr_bytes
  write_clock c flag b =
      rw (store-behind (a0 ∷ a1 ∷ a2 ∷ field_byte s.cc ∷ 1 ∷ flag ∷ []) (pcr_bytes c) z b) (
        store-behind (a0 ∷ a1 ∷ a2 ∷ field_byte s.cc ∷ []) (7 ∷ [])
          (1 ∷ flag ∷ (pcr_bytes c ++ drop 6 z)) (omega arith))

length-pcr_bytes : (pcr : ℕ) → length (pcr_bytes pcr) ≡ 6
unfolding pcr_bytes
length-pcr_bytes pcr = refl

-- A field with the flag of random access alone.
read_flags :
    (k : ℕ) (rest : List ℕ)
    → adaptation_filed_read no_adaptation ((1 + k) ∷ 0x40 ∷ rest) 184
      ≡ done (1 + k + 1, record (adp_image no_adaptation (1 + k) 2 0) { pcr_flag = 0 })
unfolding adaptation_filed_read read_pcr read_opcr read_splice read_private read_extension
read_flags k rest = rw (lt→ltb 0 (1 + k) (omega arith))

abbrev Written : TsProgram → TsStream → ℕ → ℕ → ℕ → List ℕ → Type 0
Written program s a0 a1 a2 z =
    (write_adaptation program s true (a0 ∷ a1 ∷ a2 ∷ plain_byte s.cc ∷ 0 ∷ 0 ∷ z)
      ≡ done (a0 ∷ a1 ∷ a2 ∷ plain_byte s.cc ∷ 0 ∷ 0 ∷ z, 4))
    ⊎ Field program s a0 a1 a2 z

-- The four cases of the first packet: with or without clock, with or without random access.
pub write_adaptation-image :
    (program : TsProgram) (s : TsStream) (a0 a1 a2 : ℕ) (z : List ℕ)
    → 6 ≤ length z
    → stream_pcr s.pes < 300 * 2 ^ 33
    → Written program s a0 a1 a2 z
unfolding write_adaptation
write_adaptation-image program s a0 a1 a2 z b c =
    let (plain, field, again, _, _, _, _) = byte_facts s.cc in
    let pcr = stream_pcr s.pes in
    let positive = lt→ltb pcr (2 ^ 63) (omega (arith, c)) in
    elim (Bool-cases (has_pcr program s)) [
      | inl p ↦ elim (Bool-cases (is_random_access s)) [
        | inl r ↦ inr (record {
          n = 7;
          b5 = 0x50;
          f = pcr_bytes pcr;
          room = drop 6 z;
          adp = _;
          image =
              rw
                (
                  p,
                  r,
                  set_pcr_flag s a0 a1 a2 z (plain_byte s.cc),
                  set_flags s a0 a1 a2 z (field_byte s.cc) 0x10,
                  again,
                  field,
                )
                (rw (store_number s a0 a1 a2 z 0x50, positive)
                  (rw (write_clock s a0 a1 a2 z pcr 0x50 b)));
          flags = refl;
          number = omega (arith, length-pcr_bytes pcr);
          small = omega arith;
          sizes = omega (arith, b, length-pcr_bytes pcr, length-drop 6 z);
          read = λ k rest. read_clock s a0 a1 a2 z pcr 2 k rest (omega arith) c;
        })
        | inr r ↦ inr (record {
          n = 7;
          b5 = 0x10;
          f = pcr_bytes pcr;
          room = drop 6 z;
          adp = _;
          image =
              rw (p, r, set_pcr_flag s a0 a1 a2 z (plain_byte s.cc), field)
                (rw (store_number s a0 a1 a2 z 0x10, positive)
                  (rw (write_clock s a0 a1 a2 z pcr 0x10 b)));
          flags = refl;
          number = omega (arith, length-pcr_bytes pcr);
          small = omega arith;
          sizes = omega (arith, b, length-pcr_bytes pcr, length-drop 6 z);
          read = λ k rest. read_clock s a0 a1 a2 z pcr 0 k rest (omega arith) c;
        })
      ]
      | inr p ↦ elim (Bool-cases (is_random_access s)) [
        | inl r ↦ inr (record {
          n = 1;
          b5 = 0x40;
          f = [];
          room = z;
          adp = λ k. record (adp_image no_adaptation (1 + k) 2 0) { pcr_flag = 0 };
          image =
              rw (p, r, set_flags s a0 a1 a2 z (plain_byte s.cc) 0, field)
                (rw (store_number s a0 a1 a2 z 0x40));
          flags = refl;
          number = omega arith;
          small = omega arith;
          sizes = omega arith;
          read = read_flags;
        })
        | inr r ↦ inl (rw (p, r, plain) refl)
      ]
    ]
