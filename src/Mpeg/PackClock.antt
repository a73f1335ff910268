-- ===== src/Mpeg/PackClock.antt =====
-- src/media-server/libmpeg/source/mpeg-pack-header.c: what the readers make of the header that
-- pack_header_write wrote.
use stream.Base.{
  ℕ, List, ◌+◌, ◌*◌, ◌/◌, ◌%◌, ◌^◌, ◌≤◌, ◌<◌, ◌≡◌, refl, bit_and, bit_or, ◌<<<◌, ◌>>>◌, length,
  le→ltb_false, arith, done, ◌>>=◌,
}
use stream.Base.Bits.{mask_low, or_low, or_high, bit_or-halve, bit_and-halve}
use stream.Base.Bytes.{byte_mask}
use stream.Base.Buffer.{store-front}
use stream.Mpeg.Pes.{Pes, read_escr}
use stream.Mpeg.PackHeader.{
  PsPackHeader, clock_bytes, pack_bytes, pack_header_read, pack_header_write,
}

-- Three bits, a marker and two bits behind a prefix.
marked_byte :
    (m a b : ℕ)
    → m % 64 ≡ 4
    → m < 128
    → a < 8
    → b < 4
    → bit_or (bit_or m (a <<< 3)) b ≡ m + a * 8 + b
marked_byte m a b p q r s = ground (
  arith,
  bit_or-halve m (a <<< 3),
  bit_or-halve (m / 2) (a * 4),
  bit_or-halve (m / 4) (a * 2),
  or_low 3 (m / 8) a,
  or_low 2 (m + a * 8) b,
)

-- The first byte of the clock tells an MPEG-2 header.
mpeg2_marker : (a b : ℕ) → a < 8 → b < 4 → bit_and 0xC0 (0x44 + a * 8 + b) ≡ 0x40
mpeg2_marker a b p q =
    let y = 0x44 + a * 8 + b in
    let top : y / 2 / 2 / 2 / 2 / 2 / 2 ≡ 1 = omega arith in
    rw
      (
        bit_and-halve 0xC0 y,
        bit_and-halve 0x60 (y / 2),
        bit_and-halve 0x30 (y / 2 / 2),
        bit_and-halve 0x18 (y / 2 / 2 / 2),
        bit_and-halve 0x0C (y / 2 / 2 / 2 / 2),
        bit_and-halve 0x06 (y / 2 / 2 / 2 / 2 / 2),
        top,
      )
      (omega arith)

first_byte :
    (x y : ℕ)
    → bit_or (bit_or 0x44 (bit_and x 0x07 <<< 3)) (bit_and y 0x03) ≡ 0x44 + x % 8 * 8 + y % 4
first_byte x y = rw (
  mask_low 3 x,
  mask_low 2 y,
  marked_byte 0x44 (x % 8) (y % 4) refl (omega arith) (omega arith) (omega arith),
)

-- The header that pack_header_write puts into a buffer with room for it is skipped, all 14 bytes of
-- it, by pack_header_read, which marks it as MPEG-2 and leaves the clock and the rate as they were.
pub pack_header_read-write :
    (h old : PsPackHeader) (buf : List ℕ) (bytes : ℕ)
    → 14 ≤ length buf
    → 14 ≤ bytes
    → (pack_header_write h buf >>= λ w. pack_header_read old w.1 bytes)
      ≡ done (14, record old { mpeg2 = 1 })
unfolding pack_header_write pack_header_read pack_bytes clock_bytes
pack_header_read-write h old buf bytes p q =
    let base = h.system_clock_reference_base in
    rw (
      store-front (pack_bytes h) buf p,
      le→ltb_false 14 bytes q,
      first_byte (base >>> 30) (base >>> 28),
      mpeg2_marker ((base >>> 30) % 8) ((base >>> 28) % 4) (omega arith) (omega arith),
    )

third_byte :
    (x y : ℕ)
    → bit_or (bit_or 0x04 (bit_and x 0x1F <<< 3)) (bit_and y 0x03) ≡ 4 + x % 32 * 8 + y % 4
third_byte x y = ground (
  arith,
  mask_low 5 x,
  mask_low 2 y,
  or_high 3 0x04 ((x % 32) <<< 3),
  or_low 2 (4 + x % 32 * 8) (y % 4),
)

last_byte : (x : ℕ) → bit_or 0x01 (bit_and x 0x7F <<< 1) ≡ 1 + x % 128 * 2
last_byte x = ground (arith, mask_low 7 x, or_high 1 0x01 ((x % 128) <<< 1))

upper_field : (m a b : ℕ) → m % 64 ≡ 4 → a < 8 → b < 4 → bit_and ((m + a * 8 + b) >>> 3) 0x07 ≡ a
upper_field m a b p q r = ground (arith, mask_low 3 ((m + a * 8 + b) >>> 3))

middle_field : (a b : ℕ) → a < 32 → b < 4 → bit_and ((4 + a * 8 + b) >>> 3) 0x1F ≡ a
middle_field a b p q = ground (arith, mask_low 5 ((4 + a * 8 + b) >>> 3))

lower_field : (m a b : ℕ) → m % 4 ≡ 0 → b < 4 → bit_and (m + a * 8 + b) 0x03 ≡ b
lower_field m a b p q = ground (arith, mask_low 2 (m + a * 8 + b))

last_field : (a : ℕ) → a < 128 → bit_and ((1 + a * 2) >>> 1) 0x7F ≡ a
last_field a p = ground (arith, mask_low 7 a)

join_extension : (a b : ℕ) → b < 128 → bit_or (a <<< 7) b ≡ a * 128 + b
join_extension a b h = or_low 7 (a <<< 7) b (omega arith) h

join_clock :
    (a b c d e f g : ℕ)
    → a < 8
    → b < 4
    → c < 256
    → d < 32
    → e < 4
    → f < 256
    → g < 32
    → bit_or
        (bit_or
          (bit_or (bit_or (bit_or (bit_or (a <<< 30) (b <<< 28)) (c <<< 20)) (d <<< 15)) (e <<< 13))
          (f <<< 5))
        g
      ≡ a * 2 ^ 30 + b * 2 ^ 28 + c * 2 ^ 20 + d * 2 ^ 15 + e * 2 ^ 13 + f * 2 ^ 5 + g
join_clock a b c d e f g p q r s t u v = ground (
  arith,
  or_low 30 (a <<< 30) (b <<< 28),
  or_low 28 (a * 2 ^ 30 + b * 2 ^ 28) (c <<< 20),
  or_low 20 (a * 2 ^ 30 + b * 2 ^ 28 + c * 2 ^ 20) (d <<< 15),
  or_low 15 (a * 2 ^ 30 + b * 2 ^ 28 + c * 2 ^ 20 + d * 2 ^ 15) (e <<< 13),
  or_low 13 (a * 2 ^ 30 + b * 2 ^ 28 + c * 2 ^ 20 + d * 2 ^ 15 + e * 2 ^ 13) (f <<< 5),
  or_low 5 (a * 2 ^ 30 + b * 2 ^ 28 + c * 2 ^ 20 + d * 2 ^ 15 + e * 2 ^ 13 + f * 2 ^ 5) g,
)

-- The clock in it has the form of a clock reference of a PES header, as the PES reader takes it: 33
-- bits of base and 9 bits of extension are read back from the fifth byte on.
pub read_escr-pack_header_write :
    (h : PsPackHeader) (pes : Pes) (buf : List ℕ)
    → pes.escr_flag ≡ 1
    → h.system_clock_reference_base < 2 ^ 33
    → h.system_clock_reference_extension < 2 ^ 9
    → 14 ≤ length buf
    → (pack_header_write h buf >>= λ w. read_escr w.1 (4, pes))
      ≡ done (
        10,
        record pes {
          escr_base = h.system_clock_reference_base;
          escr_extension = h.system_clock_reference_extension;
        },
      )
unfolding pack_header_write read_escr pack_bytes clock_bytes
read_escr-pack_header_write h pes buf f b e p =
    let base = h.system_clock_reference_base in
    let ext = h.system_clock_reference_extension in
    let a0 = (base >>> 30) % 8 in
    let a1 = (base >>> 28) % 4 in
    let a3 = (base >>> 15) % 32 in
    let a4 = (base >>> 13) % 4 in
    let joined : a0 * 2 ^ 30
          + a1 * 2 ^ 28
          + (base >>> 20) % 256 * 2 ^ 20
          + a3 * 2 ^ 15
          + a4 * 2 ^ 13
          + (base >>> 5) % 256 * 2 ^ 5
          + base % 32
        ≡ base =
      omega arith in
    let extended : (ext >>> 7) % 4 * 128 + ext % 128 ≡ ext = omega arith in
    rw (
      store-front (pack_bytes h) buf p,
      f,
      first_byte (base >>> 30) (base >>> 28),
      byte_mask (base >>> 20),
      third_byte (base >>> 15) (base >>> 13),
      byte_mask (base >>> 5),
      third_byte base (ext >>> 7),
      last_byte ext,
      upper_field 0x44 a0 a1 refl (omega arith) (omega arith),
      lower_field 0x44 a0 a1 refl (omega arith),
      middle_field a3 a4 (omega arith) (omega arith),
      lower_field 4 a3 a4 refl (omega arith),
      middle_field (base % 32) ((ext >>> 7) % 4) (omega arith) (omega arith),
      lower_field 4 (base % 32) ((ext >>> 7) % 4) refl (omega arith),
      last_field (ext % 128) (omega arith),
      join_clock a0 a1 ((base >>> 20) % 256) a3 a4 ((base >>> 5) % 256) (base % 32) (omega arith)
          (omega arith) (omega arith) (omega arith) (omega arith) (omega arith) (omega arith),
      join_extension ((ext >>> 7) % 4) (ext % 128) (omega arith),
      joined,
      extended,
    )
