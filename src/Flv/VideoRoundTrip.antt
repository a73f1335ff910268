-- ===== src/Flv/VideoRoundTrip.antt =====
-- src/media-server/libflv/source/flv-header.c: the header of a video tag is read back.
use stream.Base.{
  ℕ, List, [], ◌∷◌, ◌++◌, bit_and, bit_or, ◌+◌, ◌*◌, ◌/◌, ◌%◌, ◌^◌, ◌≤◌, ◌<◌, ◌≡◌, true, arith, u8,
  ◌<<<◌, ◌>>>◌, length, drop, done, ◌>>=◌, lt→ltb, drop-drop, le→ltb_false, if◌then◌else◌, ◌==◌,
  Bool-cases, inl, inr, ◌⊎◌, ◌||◌, length-drop,
}
use stream.Base.Bits.{mask_low, mask_field, or_low, xor_parts}
use stream.Base.Bytes.{byte_mask, join24}
use stream.Base.Buffer.{store-front, store-behind}
use stream.Flv.Proto.{FlvVideoTagHeader, is_packet_video}
use stream.Flv.Read.{flv_video_tag_header_read, sign_extend24}
use stream.Flv.Write.{flv_video_tag_header_write}

-- The values that the fields of a video tag header can carry: `cts` is a signed 24-bit number.
pub record IsVideoTag (video : FlvVideoTagHeader) : Type 0 where
  pub keyframe_bits : video.keyframe < 16
  pub codec_bits : video.codecid < 16
  pub packet : video.avpacket < 3
  pub cts_signed24 : (video.cts < 2 ^ 23) ⊎ (2 ^ 32 ≤ video.cts + 2 ^ 23)
  pub cts_word : video.cts < 2 ^ 32

-- Codecs other than H.264, H.265 and AV1 carry neither packet type nor composition time.
abbrev pub carried_video : FlvVideoTagHeader → FlvVideoTagHeader → FlvVideoTagHeader
carried_video old video =
    if is_packet_video video.codecid
    then video
    else record video { avpacket = old.avpacket; cts = old.cts }

abbrev pub video_header_size : FlvVideoTagHeader → ℕ
video_header_size video = if is_packet_video video.codecid then 5 else 1

-- The reader's sign extension restores every int32_t that 24 bits can hold.
pub sign_extend24_lem :
    (x : ℕ) → x < 2 ^ 32 → (x < 2 ^ 23) ⊎ (2 ^ 32 ≤ x + 2 ^ 23) → sign_extend24 (x % 2 ^ 24) ≡ x
unfolding sign_extend24
sign_extend24_lem x w (inl low) = ground (arith, xor_parts 23 0x1FF x 0x1FF)
sign_extend24_lem x w (inr high) = ground (arith, xor_parts 23 0 (x % 2 ^ 23) 0x1FF)

cts_bytes :
    (x : ℕ)
    → bit_or
        (bit_or (bit_and (x >>> 16) 0xFF <<< 16) (bit_and (x >>> 8) 0xFF <<< 8))
        (bit_and x 0xFF)
      ≡ x % 2 ^ 24
cts_bytes x = ground (
  arith,
  byte_mask (x / 65536),
  byte_mask (x / 256),
  byte_mask x,
  join24 (x / 65536 % 256) (x / 256 % 256) (x % 256),
)

video_byte : (k c : ℕ) → k < 16 → c < 16 → u8 (bit_or (k <<< 4) (bit_and c 0x0F)) ≡ k * 16 + c
video_byte k c p q = ground (arith, mask_low 4 c, or_low 4 (k * 16) c)

video_fields :
    (k c : ℕ)
    → k < 16
    → c < 16
    → (bit_and (k * 16 + c) 0xF0 >>> 4 ≡ k) × (bit_and (k * 16 + c) 0x0F ≡ c)
video_fields k c p q = omega (arith, mask_field 4 4 (k * 16 + c), mask_low 4 (k * 16 + c))

packet_assert : (a : ℕ) → a < 3 → (0 == a || 1 == a || 2 == a) ≡ true
packet_assert a h = ground arith

-- The bytes of a written header.
abbrev pub video_bytes : FlvVideoTagHeader → List ℕ
video_bytes video =
    if is_packet_video video.codecid
    then (video.keyframe * 16 + video.codecid)
      ∷ video.avpacket
      ∷ bit_and (video.cts >>> 16) 0xFF
      ∷ bit_and (video.cts >>> 8) 0xFF
      ∷ bit_and video.cts 0xFF
      ∷ []
    else (video.keyframe * 16 + video.codecid) ∷ []

pub flv_video_tag_header_write-bytes :
    (video : FlvVideoTagHeader) (buf : List ℕ) (len : ℕ)
    → IsVideoTag video
    → video_header_size video ≤ len
    → video_header_size video ≤ length buf
    → flv_video_tag_header_write video buf len
      ≡ done (video_header_size video, video_bytes video ++ drop (video_header_size video) buf)
unfolding flv_video_tag_header_write
flv_video_tag_header_write-bytes video buf len v p q =
    let cts = video.cts in
    let first = video.keyframe * 16 + video.codecid in
    let later : List ℕ =
      video.avpacket
      ∷ bit_and (cts >>> 16) 0xFF
      ∷ bit_and (cts >>> 8) 0xFF
      ∷ bit_and cts 0xFF
      ∷ [] in
    elim (Bool-cases (is_packet_video video.codecid)) [
      | inl e ↦
          let room : 5 ≤ length buf = rw e at q in
          let wide : 5 ≤ len = rw e at p in
          rw (
            e,
            le→ltb_false 5 len wide,
            le→ltb_false 1 len (omega arith),
            video_byte video.keyframe video.codecid v.keyframe_bits v.codec_bits,
            store-front (first ∷ []) buf (omega arith),
            packet_assert video.avpacket v.packet,
            store-behind (first ∷ []) later (drop 1 buf) (rw (length-drop 1 buf) (omega arith)),
            drop-drop 4 1 buf,
          )
      | inr e ↦ rw (
        e,
        le→ltb_false 1 len (rw e at p),
        video_byte video.keyframe video.codecid v.keyframe_bits v.codec_bits,
        store-front (first ∷ []) buf (rw e at q),
      )
    ]

pub flv_video_tag_header_read-bytes :
    (old video : FlvVideoTagHeader) (rest : List ℕ) (len : ℕ)
    → IsVideoTag video
    → video_header_size video ≤ len
    → flv_video_tag_header_read old (video_bytes video ++ rest) len
      ≡ done (video_header_size video, carried_video old video)
unfolding flv_video_tag_header_read
flv_video_tag_header_read-bytes old video rest len v p =
    let (key, codec) = video_fields video.keyframe video.codecid v.keyframe_bits v.codec_bits in
    elim (Bool-cases (is_packet_video video.codecid)) [
      | inl e ↦
          let wide : 5 ≤ len = rw e at p in
          rw (
            e,
            lt→ltb 0 len (omega arith),
            key,
            codec,
            e,
            le→ltb_false 5 len wide,
            packet_assert video.avpacket v.packet,
            cts_bytes video.cts,
            sign_extend24_lem video.cts v.cts_word v.cts_signed24,
          )
      | inr e ↦ rw (e, lt→ltb 0 len (rw e at p), key, codec, e)
    ]

-- A video tag header is read back from the buffer that it was written into, as `carried_video`
-- says, whatever the reader's structure held before.
pub flv_video_tag_header_read-write :
    (old video : FlvVideoTagHeader) (buf : List ℕ) (len : ℕ)
    → IsVideoTag video
    → video_header_size video ≤ len
    → video_header_size video ≤ length buf
    → (flv_video_tag_header_write video buf len >>= λ w. flv_video_tag_header_read old w.1 len)
      ≡ done (video_header_size video, carried_video old video)
flv_video_tag_header_read-write old video buf len v p q =
    rw (flv_video_tag_header_write-bytes video buf len v p q)
      (flv_video_tag_header_read-bytes old video _ len v p)
