-- ===== src/Mpeg/Timestamp.antt =====
-- src/media-server/libmpeg/source/mpeg-pes.c: the five bytes of a 33-bit PTS or DTS, as
-- pes_write_header writes them and pes_read_header and pes_read_mpeg1_header read them.
use stream.Base.{
  ℕ, List, [], ◌∷◌, ◌+◌, ◌*◌, ◌/◌, ◌%◌, ◌^◌, ◌<◌, ◌≡◌, ◌⊎◌, inl, inr, bit_and, bit_or, u8, ◌<<<◌,
  ◌>>>◌, arith, Outcome, done, ◌>>=◌, u64,
}
use stream.Base.Bits.{mask_low, mask_field, or_low}
use stream.Base.Bytes.{byte_mask}
use stream.Base.Buffer.{load}

-- A time is the bit pattern of an int64_t; this one is INT64_MIN.
abbrev pub pts_no_value : ℕ
pts_no_value = 2 ^ 63

-- `marker` is the prefix 0010, 0011 or 0001 in the upper half of the first byte.
unfoldable pub timestamp_bytes : ℕ → ℕ → List ℕ
timestamp_bytes marker ts =
    u8 (bit_or (bit_or marker (bit_and (ts >>> 30) 0x07 <<< 1)) 0x01)
    ∷ bit_and (ts >>> 22) 0xFF
    ∷ u8 (bit_or (bit_and (ts >>> 14) 0xFE) 0x01)
    ∷ bit_and (ts >>> 7) 0xFF
    ∷ u8 (bit_or (bit_and (u64 (ts <<< 1)) 0xFE) 0x01)
    ∷ []

-- The number that five bytes stand for.
unfoldable pub timestamp_value : ℕ → ℕ → ℕ → ℕ → ℕ → ℕ
timestamp_value b0 b1 b2 b3 b4 =
    let high = bit_or (bit_and (b0 >>> 1) 0x07 <<< 30) (b1 <<< 22) in
    bit_or (bit_or (bit_or high (bit_and (b2 >>> 1) 0x7F <<< 15)) (b3 <<< 7))
      (bit_and (b4 >>> 1) 0x7F)

unfoldable pub timestamp_at : List ℕ → ℕ → Outcome ℕ
timestamp_at buf i = do
  b0 ← load buf i
  b1 ← load buf (i + 1)
  b2 ← load buf (i + 2)
  b3 ← load buf (i + 3)
  b4 ← load buf (i + 4)
  done (timestamp_value b0 b1 b2 b3 b4)

first_byte :
    (m t : ℕ)
    → m % 16 ≡ 0
    → m < 64
    → u8 (bit_or (bit_or m (bit_and t 0x07 <<< 1)) 0x01) ≡ m + t % 8 * 2 + 1
first_byte m t p q =
    ground (arith, mask_low 3 t, or_low 4 m (t % 8 * 2), or_low 1 (m + t % 8 * 2) 1)

odd_byte : (t : ℕ) → u8 (bit_or (bit_and t 0xFE) 0x01) ≡ t / 2 % 128 * 2 + 1
odd_byte t = ground (arith, mask_field 1 7 t, or_low 1 (t / 2 % 128 * 2) 1)

join_timestamp :
    (a b c d e : ℕ)
    → a < 8
    → b < 256
    → c < 128
    → d < 256
    → e < 128
    → bit_or (bit_or (bit_or (bit_or (a <<< 30) (b <<< 22)) (c <<< 15)) (d <<< 7)) e
      ≡ a * 2 ^ 30 + b * 2 ^ 22 + c * 2 ^ 15 + d * 2 ^ 7 + e
join_timestamp a b c d e p q r s t = ground (
  arith,
  or_low 30 (a <<< 30) (b <<< 22),
  or_low 22 (a * 2 ^ 30 + b * 2 ^ 22) (c <<< 15),
  or_low 15 (a * 2 ^ 30 + b * 2 ^ 22 + c * 2 ^ 15) (d <<< 7),
  or_low 7 (a * 2 ^ 30 + b * 2 ^ 22 + c * 2 ^ 15 + d * 2 ^ 7) e,
)

first_field : (m t : ℕ) → m % 16 ≡ 0 → t < 8 → bit_and ((m + t * 2 + 1) >>> 1) 0x07 ≡ t
first_field m t p q = ground (arith, mask_low 3 (m / 2 + t))

odd_field : (t : ℕ) → t < 128 → bit_and ((t * 2 + 1) >>> 1) 0x7F ≡ t
odd_field t p = ground (arith, mask_low 7 t)

-- A time of 33 bits is read back from its five bytes, whatever marker the first one carries.
pub timestamp_value-bytes :
    (marker ts : ℕ)
    → marker % 16 ≡ 0
    → marker < 64
    → ts < 2 ^ 33
    → timestamp_value
        (u8 (bit_or (bit_or marker (bit_and (ts >>> 30) 0x07 <<< 1)) 0x01))
        (bit_and (ts >>> 22) 0xFF)
        (u8 (bit_or (bit_and (ts >>> 14) 0xFE) 0x01))
        (bit_and (ts >>> 7) 0xFF)
        (u8 (bit_or (bit_and (u64 (ts <<< 1)) 0xFE) 0x01))
      ≡ ts
unfolding timestamp_value
timestamp_value-bytes m ts p q h =
    rw
      (
        first_byte m (ts >>> 30) p q,
        odd_byte (ts >>> 14),
        odd_byte (u64 (ts <<< 1)),
        byte_mask (ts >>> 22),
        byte_mask (ts >>> 7),
        first_field m ((ts >>> 30) % 8) p (omega arith),
        odd_field ((ts >>> 14) / 2 % 128) (omega arith),
        odd_field (u64 (ts <<< 1) / 2 % 128) (omega arith),
        join_timestamp ((ts >>> 30) % 8) ((ts >>> 22) % 256) ((ts >>> 14) / 2 % 128)
            ((ts >>> 7) % 256) (u64 (ts <<< 1) / 2 % 128) (omega arith) (omega arith) (omega arith)
            (omega arith) (omega arith),
      )
      (omega arith)

-- The marker bits that the readers assert.
pub pts_marker :
    (m t : ℕ)
    → (m ≡ 0x20) ⊎ (m ≡ 0x30)
    → bit_and (u8 (bit_or (bit_or m (bit_and t 0x07 <<< 1)) 0x01)) 0x20 ≡ 0x20
pts_marker m t (inl e) = ground (arith, first_byte m t, mask_field 5 1 (m + t % 8 * 2 + 1))
pts_marker m t (inr e) = ground (arith, first_byte m t, mask_field 5 1 (m + t % 8 * 2 + 1))

pub dts_marker :
    (t : ℕ) → bit_and (u8 (bit_or (bit_or 0x10 (bit_and t 0x07 <<< 1)) 0x01)) 0x10 ≡ 0x10
dts_marker t = ground (arith, first_byte 0x10 t, mask_field 4 1 (0x10 + t % 8 * 2 + 1))
