-- ===== src/Mpeg/TsDelivery.antt =====
-- src/media-server/libmpeg/source/mpeg-ts-dec.c: what the reader takes out of the packets that
-- ts_write_pes sends.
use stream.Base.{
  ℕ, List, [], ◌∷◌, ◌++◌, ◌+◌, ◌-◌, ◌*◌, ◌/◌, ◌^◌, ◌%◌, ◌<◌, ◌≡◌, refl, sym, ap, ◌∙◌, inl, inr,
  ◌==◌, ◌<<<◌, ◌>>>◌, bit_and, bit_or, u64, le→leb, if◌then◌else◌, Bool, true, false, some, length,
  take, drop, arith, done,
}
use mathlib.Core.Path.{subst}
use stream.Mpeg.TsStuffing.{drop_first}
use stream.Base.Bytes.{byte_mask, join16}
use stream.Mpeg.Adaptation.{TsAdaptationField, adaptation_filed_read}
use stream.Base.Bits.{mask_low, or_high}
use stream.Base.Buffer.{first_bytes}
use stream.Mpeg.Pes.{Pes, differs, bit_at}
use stream.Mpeg.TsInput.{TsPacketHeader, no_adaptation, read_ts_header, stream_input}
use stream.Mpeg.TsField.{plain_byte, field_byte, byte_facts}
use stream.Mpeg.TsPayload.{IsBody}
use stream.Mpeg.TsRound.{pid_byte}

pid_parts :
    (start : Bool) (pid : ℕ)
    → pid < 2 ^ 13
    → (bit_and (bit_or (pid_byte start pid <<< 8) (bit_and pid 0xFF)) 0x1FFF ≡ pid)
      × (bit_at 6 (pid_byte start pid) ≡ (if start then 1 else 0))
pid_parts true pid b =
    let m = mask_low 5 (pid / 256) in
    let n = byte_mask pid in
    let hi : bit_and (pid >>> 8) 0x1F ≡ pid / 256 = omega (arith, m, b) in
    let o : bit_or (pid / 256) 0x40 ≡ pid / 256 + 64 =
      or_high 6 (pid / 256) 0x40 (omega (arith, b)) refl in
    rw (hi, o, n)
      (
        rw
            (
              join16 (pid / 256 + 64) (pid % 256) (omega arith),
              mask_low 13 ((pid / 256 + 64) * 256 + pid % 256),
            )
            (omega (arith, b)),
        mask_low 1 ((pid / 256 + 64) >>> 6) ∙ omega (arith, b),
      )
pid_parts false pid b =
    let m = mask_low 5 (pid / 256) in
    let n = byte_mask pid in
    let hi : bit_and (pid >>> 8) 0x1F ≡ pid / 256 = omega (arith, m, b) in
    rw (hi, n)
      (
        rw (join16 (pid / 256) (pid % 256) (omega arith), mask_low 13 (pid / 256 * 256 + pid % 256))
            (omega (arith, b)),
        mask_low 1 ((pid / 256) >>> 6) ∙ omega (arith, b),
      )

take_whole : (xs : List ℕ) → take (length xs) xs ≡ xs
take_whole [] = refl
take_whole (x ∷ xs) = ap (λ ys. x ∷ ys) (take_whole xs)

pub take_all : (n : ℕ) (xs : List ℕ) → n ≡ length xs → take n xs ≡ xs
take_all n xs e = ap (λ k. take k xs) e ∙ take_whole xs

-- A list that is asked for as a whole.
pub first_bytes-all : (n : ℕ) (xs : List ℕ) → n ≡ length xs → first_bytes n xs ≡ done xs
first_bytes-all n xs e =
    rw (le→leb n (length xs) (omega (arith, e))) (ap (λ ys. done ys) (take_all n xs e))

-- The header that is read from the second and the fourth byte.
abbrev header_of : ℕ → ℕ → TsAdaptationField → TsPacketHeader
header_of b1 b3 adp = record {
  transport_error_indicator = bit_at 7 b1;
  payload_unit_start_indicator = bit_at 6 b1;
  transport_priority = bit_at 5 b1;
  transport_scrambling_control = bit_and (b3 >>> 6) 0x03;
  adaptation_field_control = bit_and (b3 >>> 4) 0x03;
  continuity_counter = bit_and b3 0x0F;
  adaptation = adp;
}

-- What the reader needs to know of a packet of `pid` whose payload begins at `i`.
abbrev pub IsRead : List ℕ → Bool → ℕ → ℕ → ℕ → Type 0
IsRead packet start pid c i =
    (pkhd : TsPacketHeader) × (read_ts_header packet 188 ≡ done (pid, pkhd, i))
    × (pkhd.payload_unit_start_indicator ≡ (if start then 1 else 0))
    × (differs (bit_and 0x01 pkhd.adaptation_field_control) 0 ≡ true)
    × (pkhd.continuity_counter ≡ c % 16)

module _ (start : Bool) (pid c : ℕ) (small : pid < 2 ^ 13) where
  pub IsRead-plain :
      (rest : List ℕ)
      → IsRead (0x47 ∷ pid_byte start pid ∷ bit_and pid 0xFF ∷ plain_byte c ∷ rest) start pid c 4
  unfolding read_ts_header
  IsRead-plain rest =
      let (_, _, _, control, _, counter, _) = byte_facts c in
      let (p, s) = pid_parts start pid small in
      let done_test : differs (bit_and 0x02 (bit_and (plain_byte c >>> 4) 0x03)) 0 ≡ false =
        rw control refl in
      (
        header_of (pid_byte start pid) (plain_byte c) no_adaptation,
        rw (done_test, p) refl,
        s,
        rw control refl,
        counter,
      )

  IsRead-field :
      (more rest : List ℕ) (adp : TsAdaptationField)
      → adaptation_filed_read no_adaptation (more ++ rest) 184 ≡ done (length more, adp)
      → IsRead
          (0x47 ∷ pid_byte start pid ∷ bit_and pid 0xFF ∷ field_byte c ∷ (more ++ rest))
          start
          pid
          c
          (4 + length more)
  unfolding read_ts_header
  IsRead-field more rest adp r =
      let (_, _, _, _, control, _, counter) = byte_facts c in
      let (p, s) = pid_parts start pid small in
      let done_test : differs (bit_and 0x02 (bit_and (field_byte c >>> 4) 0x03)) 0 ≡ true =
        rw control refl in
      (
        header_of (pid_byte start pid) (field_byte c) adp,
        rw (done_test, r, p) refl,
        s,
        rw control refl,
        counter,
      )

  pub IsBody-IsRead :
      (headers chunk body : List ℕ) (b : IsBody c headers chunk body)
      → IsRead (0x47 ∷ pid_byte start pid ∷ bit_and pid 0xFF ∷ body) start pid c (4 + length b.more)
  IsBody-IsRead headers chunk body b =
      let rest = headers ++ chunk in
      let q = pid_byte start pid in
      let r = bit_and pid 0xFF in
      elim b.field [
        | inl (e, n) ↦
            let same : body ≡ plain_byte c ∷ rest =
              b.image ∙ ap (λ x. x ∷ (b.more ++ rest)) e ∙ ap (λ m. plain_byte c ∷ (m ++ rest)) n in
            let at : 4 + length b.more ≡ 4 = ap (λ m. 4 + length m) n in
            subst (λ bd. IsRead (0x47 ∷ q ∷ r ∷ bd) start pid c (4 + length b.more)) (sym same)
              (subst (λ i. IsRead (0x47 ∷ q ∷ r ∷ plain_byte c ∷ rest) start pid c i) (sym at)
                (IsRead-plain rest))
        | inr (e, a) ↦
            let same : body ≡ field_byte c ∷ (b.more ++ rest) =
              b.image ∙ ap (λ x. x ∷ (b.more ++ rest)) e in
            subst (λ bd. IsRead (0x47 ∷ q ∷ r ∷ bd) start pid c (4 + length b.more)) (sym same)
              (IsRead-field b.more rest b.adp a)
      ]

  pub payload_at :
      (headers chunk body : List ℕ) (b : IsBody c headers chunk body)
      → drop (4 + length b.more) (0x47 ∷ pid_byte start pid ∷ bit_and pid 0xFF ∷ body)
        ≡ headers ++ chunk
  payload_at headers chunk body b =
      let front : List ℕ = 0x47 ∷ pid_byte start pid ∷ bit_and pid 0xFF ∷ b.byte ∷ b.more in
      ap (λ bd. drop (4 + length b.more) (0x47 ∷ pid_byte start pid ∷ bit_and pid 0xFF ∷ bd))
        b.image
      ∙ drop_first (4 + length b.more) front (headers ++ chunk) (omega arith)

-- A packet behind the first one of a PES packet: its payload is delivered.
pub stream_input-next :
    (pid c : ℕ) (pes : Pes) (chunk body : List ℕ)
    → pid < 2 ^ 13
    → 0 < pes.sid
    → IsBody c [] chunk body
    → stream_input pid pes (0x47 ∷ pid_byte false pid ∷ bit_and pid 0xFF ∷ body) 188
      ≡ done (pes, some (0, chunk))
unfolding stream_input
stream_input-next pid c pes chunk body small sid b =
    let (pkhd, r, start, control, _) = IsBody-IsRead false pid c small [] chunk body b in
    let here : (pid == pid) ≡ true = ground arith in
    let known : (0 == pes.sid) ≡ false = ground (arith, sid) in
    let rest : u64 (188 + 2 ^ 64 - (4 + length b.more)) ≡ length chunk = omega (arith, b.size) in
    rw (
      r,
      start,
      control,
      here,
      known,
      rest,
      payload_at false pid c small [] chunk body b,
      first_bytes-all (length chunk) chunk refl,
    )
