-- ===== src/Mpeg/CrcResidue.antt =====
-- src/media-server/libmpeg/source/mpeg-crc32.c: the checksum of data with its own checksum behind it.
use stream.Base.{
  ℕ, zero, suc, List, [], ◌∷◌, ◌++◌, ◌*◌, ◌/◌, ◌%◌, ◌^◌, ◌<◌, ◌≡◌, refl, ◌∙◌, ◌>>>◌, bit_and,
  bit_xor, ltb, Bool, true, ◌&&◌, get_elem?, arith,
}
use stream.Base.Bits.{xor_cancel, xor_bound, zero-bit_xor}
use stream.Base.Bytes.{byte_mask}
use stream.Mpeg.Crc32.{crc32table, entry_or_zero, crc32_entry, mpeg_crc32, crc_bytes}

crc32_entry-zero : crc32_entry 0 ≡ 0
unfolding crc32_entry crc32table
crc32_entry-zero = refl

index_zero : (crc : ℕ) → bit_and (bit_xor crc (bit_and crc 0xFF)) 0xFF ≡ 0
index_zero crc =
    ground (arith, byte_mask crc, xor_cancel 8 (crc / 256) (crc % 256), byte_mask (crc / 256 * 256))

-- Feeding the lowest byte of the state shifts it out.
shift_out :
    (crc : ℕ) (rest : List ℕ)
    → mpeg_crc32 crc (bit_and crc 0xFF ∷ rest) ≡ mpeg_crc32 (crc >>> 8) rest
unfolding mpeg_crc32
shift_out crc rest = rw (index_zero crc, crc32_entry-zero, zero-bit_xor)

mpeg_crc32-nil : (crc : ℕ) → mpeg_crc32 crc [] ≡ crc
unfolding mpeg_crc32
mpeg_crc32-nil crc = refl

crc_cancel : (crc : ℕ) → crc < 2 ^ 32 → mpeg_crc32 crc (crc_bytes crc) ≡ 0
unfolding crc_bytes
crc_cancel crc h =
    let e2 : crc >>> 16 ≡ crc >>> 8 >>> 8 = omega arith in
    let e3 : crc >>> 24 ≡ crc >>> 8 >>> 8 >>> 8 = omega arith in
    rw
      (
        e3,
        e2,
        shift_out crc,
        shift_out (crc >>> 8),
        shift_out (crc >>> 8 >>> 8),
        shift_out (crc >>> 8 >>> 8 >>> 8),
        mpeg_crc32-nil,
      )
      (omega arith)

mpeg_crc32-append :
    (crc : ℕ) (bytes rest : List ℕ)
    → mpeg_crc32 crc (bytes ++ rest) ≡ mpeg_crc32 (mpeg_crc32 crc bytes) rest
unfolding mpeg_crc32
mpeg_crc32-append crc [] rest = refl
mpeg_crc32-append crc (b ∷ bytes) rest =
    mpeg_crc32-append (bit_xor (crc32_entry (bit_and (bit_xor crc b) 0xFF)) (crc >>> 8)) bytes rest

all_below : List ℕ → Bool
all_below [] = true
all_below (x ∷ xs) = ltb x (2 ^ 32) && all_below xs

entry_or_zero-bound :
    (table : List ℕ) (i : ℕ) → all_below table ≡ true → entry_or_zero (get_elem? table i) < 2 ^ 32
unfolding entry_or_zero all_below
entry_or_zero-bound [] i h = omega arith
entry_or_zero-bound (x ∷ xs) zero h = ground arith
entry_or_zero-bound (x ∷ xs) (suc i) h = ground (arith, entry_or_zero-bound xs i)

crc32table-bound : all_below crc32table ≡ true
unfolding crc32table all_below
crc32table-bound = refl

crc32_entry-bound : (i : ℕ) → crc32_entry i < 2 ^ 32
unfolding crc32_entry
crc32_entry-bound i = entry_or_zero-bound crc32table i crc32table-bound

mpeg_crc32-bound : (crc : ℕ) (bytes : List ℕ) → crc < 2 ^ 32 → mpeg_crc32 crc bytes < 2 ^ 32
unfolding mpeg_crc32
mpeg_crc32-bound crc [] h = h
mpeg_crc32-bound crc (b ∷ bytes) h =
    mpeg_crc32-bound (bit_xor (crc32_entry (bit_and (bit_xor crc b) 0xFF)) (crc >>> 8)) bytes (
      xor_bound 32 (crc32_entry (bit_and (bit_xor crc b) 0xFF)) (crc >>> 8)
        (crc32_entry-bound (bit_and (bit_xor crc b) 0xFF)) (omega arith))

-- Data with its checksum behind it, lowest byte first, has the checksum 0, whatever 32-bit value
-- the computation starts from.
pub mpeg_crc32-residue :
    (crc : ℕ) (bytes : List ℕ)
    → crc < 2 ^ 32
    → mpeg_crc32 crc (bytes ++ crc_bytes (mpeg_crc32 crc bytes)) ≡ 0
mpeg_crc32-residue crc bytes h =
    mpeg_crc32-append crc bytes (crc_bytes (mpeg_crc32 crc bytes))
    ∙ crc_cancel (mpeg_crc32 crc bytes) (mpeg_crc32-bound crc bytes h)
