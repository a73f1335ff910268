-- ===== src/Flv/RoundTrip.antt =====
-- src/media-server/libflv/source/flv-header.c: what is written is read back.
use stream.Base.{
  ℕ, List, [], ◌∷◌, ◌++◌, bit_and, bit_or, ◌+◌, ◌*◌, ◌/◌, ◌%◌, ◌^◌, ◌≤◌, ◌<◌, ◌≡◌, true, arith, u8,
  u32, ◌<<<◌, ◌>>>◌, length, drop, done, ◌>>=◌, le→leb, le→ltb_false, ◌==◌, Bool-cases, inl, inr,
}
use stream.Base.Bits.{mask_low, or_high}
use stream.Base.Bytes.{byte_mask, join24, split24, split32}
use stream.Base.Buffer.{store-front}
use stream.Flv.Proto.{FlvTagHeader, is_tag_type}
use stream.Flv.Read.{flv_header_read, flv_tag_header_read, flv_tag_size_read}
use stream.Flv.Write.{
  be_write_uint32, to_bit, flv_header_write, tag_header_bytes, flv_tag_header_write,
  flv_tag_size_write,
}

-- The values that the fields of a tag header can carry.
pub record IsTagHeader (tag : FlvTagHeader) : Type 0 where
  pub known : is_tag_type tag.type ≡ true
  pub filter_bit : tag.filter < 2
  pub size_bits : tag.size < 2 ^ 24
  pub timestamp_bits : tag.timestamp < 2 ^ 32
  pub stream_id_bits : tag.stream_id < 2 ^ 24

tag_type_bits : (t : ℕ) → is_tag_type t ≡ true → t < 32
tag_type_bits t h = ground arith

tag_type_field :
    (t f : ℕ) → t < 32 → bit_and (u8 (bit_or (bit_and t 0x1F) (bit_and f 0x01 <<< 5))) 0x1F ≡ t
tag_type_field t f h =
    ground
      (arith, mask_low 5 t, mask_low 1 f, or_high 5 t (f % 2 * 32), mask_low 5 (t + f % 2 * 32))

tag_filter_field :
    (t f : ℕ) → f < 2 → bit_and (u8 (bit_or (bit_and t 0x1F) (bit_and f 0x01 <<< 5)) >>> 5) 0x01 ≡ f
tag_filter_field t f h =
    ground (arith, mask_low 5 t, mask_low 1 f, or_high 5 (t % 32) (f * 32), mask_low 1 f)

timestamp_field :
    (x : ℕ)
    → x < 2 ^ 32
    → u32 (
        bit_or
          (bit_or
            (bit_or (bit_and (x >>> 16) 0xFF <<< 16) (bit_and (x >>> 8) 0xFF <<< 8))
            (bit_and (x >>> 0) 0xFF))
          (bit_and (x >>> 24) 0xFF <<< 24))
      ≡ x
timestamp_field x h = ground (
  arith,
  byte_mask (x / 16777216),
  byte_mask (x / 65536),
  byte_mask (x / 256),
  byte_mask x,
  join24 (x / 65536 % 256) (x / 256 % 256) (x % 256),
  or_high 24 (x % 16777216) (x / 16777216 * 16777216),
)

-- The bytes of a tag header whose fields fit are read as that header, whatever follows them.
pub flv_tag_header_read-bytes :
    (tag : FlvTagHeader) (rest : List ℕ) (len : ℕ)
    → IsTagHeader tag
    → 11 ≤ len
    → flv_tag_header_read (tag_header_bytes tag ++ rest) len ≡ done (11, tag)
unfolding tag_header_bytes flv_tag_header_read
flv_tag_header_read-bytes tag rest len v p = rw (
  le→leb 11 len p,
  tag_type_field tag.type tag.filter (tag_type_bits tag.type v.known),
  v.known,
  tag_filter_field tag.type tag.filter v.filter_bit,
  split24 tag.size v.size_bits,
  timestamp_field tag.timestamp v.timestamp_bits,
  split24 tag.stream_id v.stream_id_bits,
)

pub flv_tag_header_write-bytes :
    (tag : FlvTagHeader) (buf : List ℕ) (len : ℕ)
    → is_tag_type tag.type ≡ true
    → 11 ≤ len
    → 11 ≤ length buf
    → flv_tag_header_write tag buf len ≡ done (11, tag_header_bytes tag ++ drop 11 buf)
unfolding flv_tag_header_write
flv_tag_header_write-bytes tag buf len known p q =
    rw (le→leb 11 len p, known, store-front (tag_header_bytes tag) buf q)

pub flv_tag_size_write-bytes :
    (size : ℕ) (buf : List ℕ) (len : ℕ)
    → 4 ≤ len
    → 4 ≤ length buf
    → flv_tag_size_write buf len size ≡ done (4, be_write_uint32 size ++ drop 4 buf)
unfolding flv_tag_size_write
flv_tag_size_write-bytes size buf len p q =
    rw (le→ltb_false 4 len p, store-front (be_write_uint32 size) buf q)

-- A tag header whose fields fit is read back unchanged from the buffer that it was written into.
pub flv_tag_header_read-write :
    (tag : FlvTagHeader) (buf : List ℕ) (len : ℕ)
    → IsTagHeader tag
    → 11 ≤ len
    → 11 ≤ length buf
    → (flv_tag_header_write tag buf len >>= λ r. flv_tag_header_read r.1 len) ≡ done (11, tag)
unfolding flv_tag_header_write
flv_tag_header_read-write tag buf len v p q =
    rw (le→leb 11 len p, v.known, store-front (tag_header_bytes tag) buf q)
      (flv_tag_header_read-bytes tag (drop 11 buf) len v p)

pub flv_tag_size_read-bytes :
    (size : ℕ) (rest : List ℕ) (len : ℕ)
    → size < 2 ^ 32
    → 4 ≤ len
    → flv_tag_size_read (be_write_uint32 size ++ rest) len ≡ done (4, size)
unfolding flv_tag_size_read be_write_uint32
flv_tag_size_read-bytes size rest len v p = rw (le→ltb_false 4 len p, split32 size v)

-- The size of a tag is read back from the four bytes that it was written into.
pub flv_tag_size_read-write :
    (size : ℕ) (buf : List ℕ) (len : ℕ)
    → size < 2 ^ 32
    → 4 ≤ len
    → 4 ≤ length buf
    → (flv_tag_size_write buf len size >>= λ r. flv_tag_size_read r.1 len) ≡ done (4, size)
unfolding flv_tag_size_write flv_tag_size_read
flv_tag_size_read-write size buf len v p q =
    rw (le→ltb_false 4 len p, store-front (be_write_uint32 size) buf q, split32 size v)

header_bytes : ℕ → ℕ → List ℕ
unfolding be_write_uint32
header_bytes audio video =
    b'F' ∷ b'L' ∷ b'V' ∷ 0x01 ∷ bit_or (to_bit audio <<< 2) (to_bit video) ∷ be_write_uint32 9

-- The file header that is written is read back with its two flags and the data offset 9.
pub flv_header_read-write :
    (audio video : ℕ) (buf : List ℕ) (len : ℕ)
    → 9 ≤ len
    → 9 ≤ length buf
    → (flv_header_write audio video buf len >>= λ r. flv_header_read r.1 len)
      ≡ done (
        9,
        record {
          flv = b'F' ∷ b'L' ∷ b'V' ∷ [];
          version = 1;
          audio = to_bit audio;
          video = to_bit video;
          offset = 9;
        },
      )
unfolding flv_header_write flv_header_read header_bytes
flv_header_read-write audio video buf len p q = elim (Bool-cases (audio == 0)) [
  | inl a ↦ elim (Bool-cases (video == 0)) [
    | inl v ↦ rw (le→leb 9 len p, store-front (header_bytes audio video) buf q, a, v)
    | inr v ↦ rw (le→leb 9 len p, store-front (header_bytes audio video) buf q, a, v)
  ]
  | inr a ↦ elim (Bool-cases (video == 0)) [
    | inl v ↦ rw (le→leb 9 len p, store-front (header_bytes audio video) buf q, a, v)
    | inr v ↦ rw (le→leb 9 len p, store-front (header_bytes audio video) buf q, a, v)
  ]
]
