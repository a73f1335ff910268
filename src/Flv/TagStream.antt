-- ===== src/Flv/TagStream.antt =====
-- src/media-server/libflv/source/flv-writer.c and flv-reader.c: one tag on its way through a file.
use stream.Base.{
  ℕ, ◌+◌, ◌^◌, ◌≤◌, ◌<◌, ◌≡◌, refl, ◌∙◌, arith, List, [], ◌++◌, length, take, drop, take-append,
  leb, lt→leb_false, true, false, ap, done, u8, u32, le→ltb_false, ◌==◌,
}
use stream.Flv.Proto.{FlvTagHeader, is_tag_type}
use stream.Flv.Read.{flv_tag_header_read, flv_tag_size_read}
use stream.Flv.Write.{tag_header_bytes, be_write_uint32}
use stream.Flv.RoundTrip.{
  IsTagHeader, flv_tag_header_read-bytes, flv_tag_size_read-bytes, flv_tag_header_write-bytes,
  flv_tag_size_write-bytes,
}
use native.Mathlib.Nat.{le_refl}
use mathlib.Core.List.{append_assoc, append-nil}
use stream.Flv.Writer.{input_tag, local_array, flv_writer_input}
use stream.Flv.Reader.{tag_read, flv_reader_read}
use stream.Flv.Streams.{ByteSink, ByteSource}

-- A tag as it stands in a file: its header, its payload, and the size of both.
abbrev pub tag_image : ℕ → ℕ → List ℕ → List ℕ
tag_image type timestamp payload =
    tag_header_bytes (input_tag type (length payload) timestamp)
    ++ (payload ++ be_write_uint32 (u32 (length payload + 11)))

known_byte : (t : ℕ) → is_tag_type t ≡ true → u8 t ≡ t
known_byte t h = ground arith

eq_true : (a b : ℕ) → a ≡ b → (a == b) ≡ true
eq_true a b h = ground arith

-- The two parts of the array that `flv_writer_input` fills.
take_header :
    (tag : FlvTagHeader) (rest : List ℕ)
    → take 11 (tag_header_bytes tag ++ rest) ≡ tag_header_bytes tag
unfolding tag_header_bytes
take_header tag rest = refl

drop_header : (tag : FlvTagHeader) (rest : List ℕ) → drop 11 (tag_header_bytes tag ++ rest) ≡ rest
unfolding tag_header_bytes
drop_header tag rest = refl

take_size :
    (size : ℕ) (rest : List ℕ) → take 4 (be_write_uint32 size ++ rest) ≡ be_write_uint32 size
unfolding be_write_uint32
take_size size rest = refl

length_header : (tag : FlvTagHeader) → length (tag_header_bytes tag) ≡ 11
unfolding tag_header_bytes
length_header tag = refl

length_size : (size : ℕ) → length (be_write_uint32 size) ≡ 4
unfolding be_write_uint32
length_size size = refl

-- On a sink that takes all, `flv_writer_input` returns 0 and appends the image of the tag whose
-- payload, of less than 2^31 bytes, is the first part of the buffer.
pub flv_writer_input-tag_image :
    (k : ByteSink) (s : k.State) (type timestamp : ℕ) (payload rest : List ℕ)
    → is_tag_type type ≡ true
    → length payload < 2 ^ 31
    → (s' : k.State) × (flv_writer_input k.write s type (payload ++ rest) (length payload) timestamp
        ≡ done (s', true))
      × (k.contents s' ≡ k.contents s ++ tag_image type timestamp payload)
unfolding flv_writer_input
flv_writer_input-tag_image k s type timestamp payload rest known int =
    let tag = input_tag type (length payload) timestamp in
    let header = tag_header_bytes tag in
    let bytes = u32 (length payload + 11) in
    let size = be_write_uint32 bytes in
    let same : u32 (length payload) ≡ length payload = omega arith in
    let taken : take (u32 (length payload)) (payload ++ rest) ≡ payload =
      ap (λ n. take n (payload ++ rest)) same ∙ take-append payload rest in
    let positive : leb (2 ^ 31) (u32 (length payload)) ≡ false =
      lt→leb_false (u32 (length payload)) (2 ^ 31) (omega (arith, int)) in
    let s₁ = (k.write s header).0 in
    let s₂ = (k.write s₁ payload).0 in
    let (s₃, _) = k.write s₂ size in
    (
      s₃,
      rw (
        flv_tag_header_write-bytes tag (local_array 15) 11 (rw (known_byte type known) known)
            (le_refl 11) (omega arith),
        drop_header tag (local_array 4),
        flv_tag_size_write-bytes bytes (local_array 4) 4 (le_refl 4) (le_refl 4),
        take_header tag (local_array 4),
        take_size bytes [],
        taken,
        k.takes_all s header,
        length_header tag,
        positive,
        k.takes_all s₁ payload,
        eq_true (length payload) (length payload) refl,
        k.takes_all s₂ size,
        length_size bytes,
      ),
      rw (k.appends s₂ size, k.appends s₁ payload, k.appends s header) (simp append_assoc),
    )

header_alone :
    (tag : FlvTagHeader)
    → IsTagHeader tag
    → flv_tag_header_read (tag_header_bytes tag) 11 ≡ done (11, tag)
header_alone tag v = rw append-nil at (flv_tag_header_read-bytes tag [] 11 v (le_refl 11))

size_alone :
    (size : ℕ) → size < 2 ^ 32 → flv_tag_size_read (be_write_uint32 size) 4 ≡ done (4, size)
size_alone size h = rw append-nil at (flv_tag_size_read-bytes size [] 4 h (le_refl 4))

image-IsTagHeader :
    (type timestamp : ℕ) (payload : List ℕ)
    → is_tag_type type ≡ true
    → timestamp < 2 ^ 32
    → length payload < 2 ^ 24
    → IsTagHeader (input_tag type (length payload) timestamp)
image-IsTagHeader type timestamp payload known p q = record {
  known = rw (known_byte type known) known;
  filter_bit = omega arith;
  size_bits = omega arith;
  timestamp_bits = p;
  stream_id_bits = omega arith;
}

-- `flv_reader_read` returns 1 with the tag whose image comes next, and leaves what follows it.
pub flv_reader_read-tag_image :
    (r : ByteSource) (s : r.State) (room type timestamp : ℕ) (payload back : List ℕ)
    → is_tag_type type ≡ true
    → timestamp < 2 ^ 32
    → length payload < 2 ^ 24
    → length payload ≤ room
    → r.remaining s ≡ tag_image type timestamp payload ++ back
    → (s' : r.State) × (flv_reader_read r.read s room
        ≡ done (s', tag_read (record { tagtype = type; timestamp = timestamp; payload = payload })))
      × (r.remaining s' ≡ back)
unfolding flv_reader_read
flv_reader_read-tag_image r s room type timestamp payload back known p q fits e =
    let tag = input_tag type (length payload) timestamp in
    let header = tag_header_bytes tag in
    let bytes = u32 (length payload + 11) in
    let size = be_write_uint32 bytes in
    let (s₁, _) = r.read s 11 in
    let (s₂, _) = r.read s₁ tag.size in
    let (s₃, _) = r.read s₂ 4 in
    let same : length payload ≡ tag.size = omega arith in
    let e₀ : r.remaining s ≡ header ++ (payload ++ (size ++ back)) = e ∙ simp append_assoc in
    let e₁ : r.remaining s₁ ≡ payload ++ (size ++ back) =
      r.advances s 11 header _ e₀ (length_header tag) in
    let e₂ : r.remaining s₂ ≡ size ++ back = r.advances s₁ tag.size payload _ e₁ same in
    (
      s₃,
      rw (
        r.delivers s 11 header _ e₀ (length_header tag),
        length_header tag,
        header_alone tag (image-IsTagHeader type timestamp payload known p q),
        r.delivers s₁ tag.size payload _ e₁ same,
        r.delivers s₂ 4 size _ e₂ (length_size bytes),
        size_alone bytes (omega arith),
        le→ltb_false tag.size room (omega arith),
        eq_true tag.size (length payload) (omega arith),
        length_size bytes,
        eq_true bytes (u32 (tag.size + 11)) (omega arith),
        known_byte type known,
      ),
      r.advances s₂ 4 size back e₂ (length_size bytes),
    )
