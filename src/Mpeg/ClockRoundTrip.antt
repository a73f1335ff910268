-- ===== src/Mpeg/ClockRoundTrip.antt =====
-- src/media-server/libmpeg/source/mpeg-ts-dec.c: adaptation_filed_read of what pcr_write wrote.
use stream.Base.{
  ℕ, List, [], ◌∷◌, ◌+◌, ◌-◌, ◌*◌, ◌/◌, ◌%◌, ◌^◌, ◌≤◌, ◌<◌, ◌≡◌, refl, ◌∙◌, bit_and, bit_or, ◌<<<◌,
  ◌>>>◌, ltb, if◌then◌else◌, length, drop, length-drop, lt→ltb, le→ltb_false, le→leb, arith, done,
  ◌>>=◌,
}
use native.Mathlib.Decide.{dec_lt}
use stream.Base.Bits.{mask_low, or_low}
use stream.Base.Bytes.{byte_mask}
use stream.Base.Buffer.{store-behind}
use stream.Mpeg.Adaptation.{
  TsAdaptationField, pcr_bytes, pcr_write, clock_base, read_pcr, read_opcr, read_splice,
  read_private, read_extension, adaptation_filed_read,
}

-- The byte that the clock base and its extension share.
fifth_byte :
    (base ext : ℕ)
    → ext < 512
    → bit_or (bit_or (bit_and base 0x01 <<< 7) 0x7E) (bit_and (ext >>> 8) 0x01)
      ≡ base % 2 * 128 + 126 + ext / 256
fifth_byte base ext h = ground (
  arith,
  mask_low 1 base,
  mask_low 1 (ext / 256),
  or_low 7 (base % 2 * 128) 0x7E,
  or_low 1 (base % 2 * 128 + 126) (ext / 256),
)

join_base :
    (a b c d e : ℕ)
    → b < 256
    → c < 256
    → d < 256
    → e < 2
    → bit_or (bit_or (bit_or (bit_or (a <<< 25) (b <<< 17)) (c <<< 9)) (d <<< 1)) e
      ≡ a * 2 ^ 25 + b * 2 ^ 17 + c * 2 ^ 9 + d * 2 + e
join_base a b c d e p q r s = ground (
  arith,
  or_low 25 (a <<< 25) (b <<< 17),
  or_low 17 (a * 2 ^ 25 + b * 2 ^ 17) (c <<< 9),
  or_low 9 (a * 2 ^ 25 + b * 2 ^ 17 + c * 2 ^ 9) (d <<< 1),
  or_low 1 (a * 2 ^ 25 + b * 2 ^ 17 + c * 2 ^ 9 + d * 2) e,
)

top_bit : (b e : ℕ) → b < 2 → e < 2 → bit_and ((b * 128 + 126 + e) >>> 7) 0x01 ≡ b
top_bit b e p q = ground (arith, mask_low 1 b)

-- The 33 bits of a clock are read back from the bytes that hold them.
clock_base-bytes :
    (base e : ℕ)
    → base < 2 ^ 33
    → e < 2
    → clock_base
        (bit_and (base >>> 25) 0xFF)
        (bit_and (base >>> 17) 0xFF)
        (bit_and (base >>> 9) 0xFF)
        (bit_and (base >>> 1) 0xFF)
        (base % 2 * 128 + 126 + e)
      ≡ base
unfolding clock_base
clock_base-bytes base e p q =
    rw
      (
        byte_mask (base >>> 25),
        byte_mask (base >>> 17),
        byte_mask (base >>> 9),
        byte_mask (base >>> 1),
        top_bit (base % 2) e (omega arith) q,
        join_base ((base >>> 25) % 256) ((base >>> 17) % 256) ((base >>> 9) % 256)
            ((base >>> 1) % 256) (base % 2) (omega arith) (omega arith) (omega arith) (omega arith),
      )
      (omega arith)

last_bit : (base e : ℕ) → e < 2 → bit_and (base % 2 * 128 + 126 + e) 0x01 ≡ e
last_bit base e h = ground (arith, mask_low 1 (base % 2 * 128 + 126 + e))

extension-bytes : (e : ℕ) → bit_or ((e / 256) <<< 8) (bit_and e 0xFF) ≡ e
extension-bytes e =
    rw (byte_mask e, or_low 8 ((e / 256) <<< 8) (e % 256) (omega arith) (omega arith)) (omega arith)

-- The extension of the original clock as it is read: its upper bit lands in the second lowest one.
unfoldable pub misread_extension : ℕ → ℕ
misread_extension e = if ltb e 256 then e else bit_or 2 (e - 256)

misread_extension-bytes :
    (e : ℕ) → e < 512 → bit_or ((e / 256) <<< 1) (bit_and e 0xFF) ≡ misread_extension e
unfolding misread_extension
misread_extension-bytes e h = elim (dec_lt e 256) [
  | yes p ↦
      let q : e / 256 ≡ 0 = omega arith in
      let m : e % 256 ≡ e = omega arith in
      rw (byte_mask e, m, q, lt→ltb e 256 p, or_low 8 0 e refl p) (ground arith)
  | no p ↦
      let q : e / 256 ≡ 1 = omega arith in
      let m : e % 256 ≡ e - 256 = omega arith in
      rw (byte_mask e, m, q, le→ltb_false 256 e (omega arith))
]

-- A single flag of a byte.
flag_at : (k x v : ℕ) → x / 2 ^ k % 2 ≡ v → bit_and (x >>> k) 0x1 ≡ v
flag_at k x v h = mask_low 1 (x >>> k) ∙ h

low_flag : (x v : ℕ) → x % 2 ≡ v → bit_and x 0x1 ≡ v
low_flag x v h = mask_low 1 x ∙ h

-- The structure with the length and with the flags of the byte `t * 32 + 0x10 + o * 8`.
abbrev pub adp_image : TsAdaptationField → ℕ → ℕ → ℕ → TsAdaptationField
adp_image adp len t o = record adp {
  adaptation_field_length = len;
  discontinuity_indicator = t / 4;
  random_access_indicator = t / 2 % 2;
  elementary_stream_priority_indicator = t % 2;
  pcr_flag = 1;
  opcr_flag = o;
  splicing_point_flag = 0;
  transport_private_data_flag = 0;
  adaptation_field_extension_flag = 0;
}

-- A clock that fits 33 bits of base and an extension below 300, written by pcr_write into an
-- adaptation field of nonzero length whose flags announce it and none of the later parts (`t` are
-- the three upper flags), is read back, base and extension, with the flags; the length of the
-- field with its length byte is returned. The field stands in at most 188 bytes.
pub adaptation_filed_read-pcr_write :
    (adp : TsAdaptationField) (len t pcr : ℕ) (room : List ℕ) (bytes : ℕ)
    → 1 ≤ len
    → t < 8
    → pcr < 300 * 2 ^ 33
    → 6 ≤ length room
    → bytes ≤ 188
    → (pcr_write 2 pcr (len ∷ (t * 32 + 0x10) ∷ room) >>= λ buf.
        adaptation_filed_read adp buf bytes)
      ≡ done (
        len + 1,
        record (adp_image adp len t 0) {
          program_clock_reference_base = pcr / 300;
          program_clock_reference_extension = pcr % 300;
        },
      )
unfolding pcr_write pcr_bytes adaptation_filed_read read_pcr read_opcr read_splice read_private
    read_extension
adaptation_filed_read-pcr_write adp len t pcr room bytes p q r s u = rw (
  store-behind (len ∷ (t * 32 + 0x10) ∷ []) (pcr_bytes pcr) room s,
  le→leb bytes 188 u,
  lt→ltb 0 len p,
  fifth_byte (pcr / 300) (pcr % 300) (omega arith),
  clock_base-bytes (pcr / 300) (pcr % 300 / 256) (omega arith) (omega arith),
  last_bit (pcr / 300) (pcr % 300 / 256) (omega arith),
  extension-bytes (pcr % 300),
  flag_at 7 (t * 32 + 0x10) (t / 4) (omega arith),
  flag_at 6 (t * 32 + 0x10) (t / 2 % 2) (omega arith),
  flag_at 5 (t * 32 + 0x10) (t % 2) (omega arith),
  flag_at 4 (t * 32 + 0x10) 1 (omega arith),
  flag_at 3 (t * 32 + 0x10) 0 (omega arith),
  flag_at 2 (t * 32 + 0x10) 0 (omega arith),
  flag_at 1 (t * 32 + 0x10) 0 (omega arith),
  low_flag (t * 32 + 0x10) 0 (omega arith),
)

-- Of a field with both clocks and none of the later parts, the program clock and the base of the
-- original clock are read back. The extension of the original clock is read back where it is below
-- 256; an extension e from 256 on is read as 2 | (e - 256).
pub adaptation_filed_read-opcr :
    (adp : TsAdaptationField) (len t pcr opcr : ℕ) (room : List ℕ) (bytes : ℕ)
    → 1 ≤ len
    → t < 8
    → pcr < 300 * 2 ^ 33
    → opcr < 300 * 2 ^ 33
    → 12 ≤ length room
    → bytes ≤ 188
    → (pcr_write 2 pcr (len ∷ (t * 32 + 0x18) ∷ room) >>= λ buf.
        pcr_write 8 opcr buf >>= λ out. adaptation_filed_read adp out bytes)
      ≡ done (
        len + 1,
        record (adp_image adp len t 1) {
          program_clock_reference_base = pcr / 300;
          program_clock_reference_extension = pcr % 300;
          original_program_clock_reference_base = opcr / 300;
          original_program_clock_reference_extension = misread_extension (opcr % 300);
        },
      )
unfolding pcr_write pcr_bytes adaptation_filed_read read_pcr read_opcr read_splice read_private
    read_extension
adaptation_filed_read-opcr adp len t pcr opcr room bytes p q r r' s u =
    rw
      (
        store-behind (len ∷ (t * 32 + 0x18) ∷ []) (pcr_bytes pcr) room (omega arith),
        store-behind (len ∷ (t * 32 + 0x18) ∷ pcr_bytes pcr) (pcr_bytes opcr) (drop 6 room)
            (omega (arith, length-drop 6 room)),
        le→leb bytes 188 u,
        lt→ltb 0 len p,
        fifth_byte (pcr / 300) (pcr % 300) (omega arith),
        clock_base-bytes (pcr / 300) (pcr % 300 / 256) (omega arith) (omega arith),
        last_bit (pcr / 300) (pcr % 300 / 256) (omega arith),
        extension-bytes (pcr % 300),
        flag_at 7 (t * 32 + 0x18) (t / 4) (omega arith),
        flag_at 6 (t * 32 + 0x18) (t / 2 % 2) (omega arith),
        flag_at 5 (t * 32 + 0x18) (t % 2) (omega arith),
        flag_at 4 (t * 32 + 0x18) 1 (omega arith),
        flag_at 3 (t * 32 + 0x18) 1 (omega arith),
        flag_at 2 (t * 32 + 0x18) 0 (omega arith),
        flag_at 1 (t * 32 + 0x18) 0 (omega arith),
        low_flag (t * 32 + 0x18) 0 (omega arith),
      )
      (rw (
        fifth_byte (opcr / 300) (opcr % 300) (omega arith),
        clock_base-bytes (opcr / 300) (opcr % 300 / 256) (omega arith) (omega arith),
        last_bit (opcr / 300) (opcr % 300 / 256) (omega arith),
        misread_extension-bytes (opcr % 300) (omega arith),
      ))
