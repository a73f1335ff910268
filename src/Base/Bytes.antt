-- ===== src/Base/Bytes.antt =====
-- Numbers of several bytes, most significant byte first, as shifts and `|` build them.
use stream.Base.Tests.{◌<<<◌, ◌>>>◌, u8, u32}
use stream.Base.Bits.{mask_low, or_low}
use Prim.Native.Nat.{ℕ, ◌+◌, ◌*◌, ◌/◌, ◌%◌, ◌^◌, ◌<◌, bit_and, bit_or}
use mathlib.Core.Path.{◌≡◌}
use native.Mathlib.Omega.{arith}

pub byte_mask : (x : ℕ) → bit_and x 0xFF ≡ x % 256
byte_mask x = mask_low 8 x

pub join16 : (a b : ℕ) → b < 256 → bit_or (a <<< 8) b ≡ a * 256 + b
join16 a b h = or_low 8 (a <<< 8) b (omega arith) h

pub join24 :
    (a b c : ℕ)
    → b < 256
    → c < 256
    → bit_or (bit_or (a <<< 16) (b <<< 8)) c ≡ a * 65536 + b * 256 + c
join24 a b c p q = ground (arith, or_low 16 (a <<< 16) (b <<< 8), or_low 8 (a * 65536 + b * 256) c)

pub join32 :
    (a b c d : ℕ)
    → b < 256
    → c < 256
    → d < 256
    → bit_or (bit_or (bit_or (a <<< 24) (b <<< 16)) (c <<< 8)) d
      ≡ a * 16777216 + b * 65536 + c * 256 + d
join32 a b c d p q r = ground (
  arith,
  or_low 24 (a <<< 24) (b <<< 16),
  or_low 16 (a * 16777216 + b * 65536) (c <<< 8),
  or_low 8 (a * 16777216 + b * 65536 + c * 256) d,
)

-- Writing a number byte by byte and reading it back.
pub split24 :
    (x : ℕ)
    → x < 2 ^ 24
    → bit_or
        (bit_or (bit_and (x >>> 16) 0xFF <<< 16) (bit_and (x >>> 8) 0xFF <<< 8))
        (bit_and x 0xFF)
      ≡ x
split24 x h = ground (
  arith,
  byte_mask (x / 65536),
  byte_mask (x / 256),
  byte_mask x,
  join24 (x / 65536 % 256) (x / 256 % 256) (x % 256),
)

pub split32 :
    (x : ℕ)
    → x < 2 ^ 32
    → u32 (
        bit_or
          (bit_or
            (bit_or (u8 (bit_and (x >>> 24) 0xFF) <<< 24) (u8 (bit_and (x >>> 16) 0xFF) <<< 16))
            (u8 (bit_and (x >>> 8) 0xFF) <<< 8))
          (u8 (bit_and x 0xFF)))
      ≡ x
split32 x h = ground (
  arith,
  byte_mask (x / 16777216),
  byte_mask (x / 65536),
  byte_mask (x / 256),
  byte_mask x,
  join32 (x / 16777216 % 256) (x / 65536 % 256) (x / 256 % 256) (x % 256),
)
