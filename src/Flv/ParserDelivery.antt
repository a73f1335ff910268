-- ===== src/Flv/ParserDelivery.antt =====
-- src/media-server/libflv/source/flv-parser.c: what the handler is called with for a tag whose
-- header flv-header.c wrote in front of a payload.
use stream.Base.{
  ℕ, ◌+◌, ◌-◌, ◌≤◌, ◌<◌, ◌≡◌, arith, List, ◌++◌, length, drop, drop-append, true, false, Bool,
  Bool-cases, inl, inr, Outcome, done, fault, ◌>>=◌, if◌then◌else◌, ltb, ◌==◌, u32,
}
use stream.Flv.Proto.{
  FlvAudioTagHeader, FlvVideoTagHeader, is_packet_audio, is_packet_video, flv_type_audio,
  flv_type_video, flv_audio_opus_head, flv_audio_aac, flv_audio_asc, flv_avpacket,
  flv_sequence_header, flv_end_of_sequence,
}
use stream.Flv.Write.{flv_audio_tag_header_write, flv_video_tag_header_write}
use stream.Flv.AudioRoundTrip.{
  IsAudioTag, audio_header_size, audio_bytes, flv_audio_tag_header_write-bytes,
  flv_audio_tag_header_read-bytes,
}
use stream.Flv.VideoRoundTrip.{
  IsVideoTag, video_header_size, video_bytes, flv_video_tag_header_write-bytes,
  flv_video_tag_header_read-bytes,
}
use stream.Flv.Parser.{
  FlvPacket, packet_at, flv_parser_input, flv_parser_audio, flv_parser_video, flv_video_codec_name,
  key_flag,
}

-- What the handler is called with for an audio tag: the payload behind the header, and the codec
-- of the configuration if the packet type is 0, else the codec of the header.
abbrev pub audio_packet : FlvAudioTagHeader → List ℕ → ℕ → ℕ → FlvPacket
audio_packet tag buf bytes timestamp =
    packet_at (audio_header_size tag) buf bytes
      (if flv_sequence_header == tag.avpacket
        then (if flv_audio_aac == tag.codecid then flv_audio_asc else flv_audio_opus_head)
        else tag.codecid)
      timestamp timestamp 0

-- The call with what stands behind `n` bytes of the tag for the payload.
abbrev pub video_packet : ℕ → List ℕ → ℕ → ℕ → ℕ → ℕ → ℕ → FlvPacket
video_packet n buf bytes timestamp codec pts flags = record {
  codec = codec;
  payload = drop n buf;
  bytes = bytes - n;
  pts = pts;
  dts = timestamp;
  flags = flags;
}

-- 1 for the frame type of a key frame, 1.
abbrev pub video_flag : FlvVideoTagHeader → ℕ
video_flag tag = if tag.keyframe == 1 then 1 else 0

-- Where the packet type decides: a configuration (0), a frame (1) that is presented at the
-- timestamp plus the composition time, or no call.
abbrev pub by_packet_type :
    (FlvPacket → Outcome ℕ) → FlvVideoTagHeader → ℕ → List ℕ → ℕ → ℕ → ℕ → Outcome ℕ
by_packet_type handler tag n buf bytes timestamp config =
    let packet = video_packet n buf bytes timestamp in
    if tag.avpacket == 0
    then handler (packet config timestamp 0)
    else if tag.avpacket == 1
    then handler (packet tag.codecid (u32 (timestamp + tag.cts)) (video_flag tag))
    else done 0

-- What is done for a video tag. For H.264 (7), H.265 (12) and AV1 (14) the packet type decides,
-- and the codec of a configuration is 0x200, 0x201 and 0x202, in this order.
abbrev pub video_delivery : (FlvPacket → Outcome ℕ) → FlvVideoTagHeader → List ℕ → ℕ → ℕ → Outcome ℕ
video_delivery handler tag buf bytes timestamp =
    let n = video_header_size tag in
    let by_type = by_packet_type handler tag n buf bytes timestamp in
    if tag.codecid == 7
    then by_type 0x200
    else if tag.codecid == 12
    then by_type 0x201
    else if tag.codecid == 14
    then by_type 0x202
    else handler (video_packet n buf bytes timestamp tag.codecid timestamp (video_flag tag))

-- The tests of the parser and those above.
packet_codecs :
    (c : ℕ) (f : ℕ → Outcome ℕ) (plain : Outcome ℕ)
    → is_packet_video c ≡ true
    → f (flv_video_codec_name c) ≡ (
        if c == 7 then f 0x200 else if c == 12 then f 0x201 else if c == 14 then f 0x202 else plain)
packet_codecs c f plain h = ground arith

plain_codecs :
    (c : ℕ) (f : ℕ → Outcome ℕ) (plain : Outcome ℕ)
    → is_packet_video c ≡ false
    → plain ≡ (
        if c == 7 then f 0x200 else if c == 12 then f 0x201 else if c == 14 then f 0x202 else plain)
plain_codecs c f plain h = ground arith

video_types :
    (a : ℕ) (x y : Outcome ℕ)
    → a < 3
    → (if flv_sequence_header == a
        then x
        else if flv_avpacket == a
        then y
        else if flv_end_of_sequence == a
        then done 0
        else fault)
      ≡ (if a == 0 then x else if a == 1 then y else done 0)
video_types a x y h = ground arith

key_frames : (k : ℕ) → key_flag k ≡ (if k == 1 then 1 else 0)
key_frames k = ground arith

plain_drop :
    (size : ℕ) (header buf : List ℕ)
    → size ≡ length header
    → drop size (header ++ drop size buf) ≡ drop size buf
plain_drop size header buf e = rw e (drop-append header (drop (length header) buf))

length-audio_bytes : (tag : FlvAudioTagHeader) → audio_header_size tag ≡ length (audio_bytes tag)
length-audio_bytes tag = ground arith

length-video_bytes : (tag : FlvVideoTagHeader) → video_header_size tag ≡ length (video_bytes tag)
length-video_bytes tag = ground arith

plain_not_aac : (c : ℕ) → is_packet_audio c ≡ false → (flv_audio_aac == c) ≡ false
plain_not_aac c h = ground arith

eq_rev : (a : ℕ) (b : Bool) → (a == 0) ≡ b → (0 == a) ≡ b
eq_rev a b h = ground arith

audio_size_pos :
    (tag : FlvAudioTagHeader) (bytes : ℕ) → audio_header_size tag ≤ bytes → ltb bytes 1 ≡ false
audio_size_pos tag bytes h = ground arith

video_size_pos :
    (tag : FlvVideoTagHeader) (bytes : ℕ) → video_header_size tag ≤ bytes → ltb bytes 1 ≡ false
video_size_pos tag bytes h = ground arith

module _ (handler : FlvPacket → Outcome ℕ) (audio : FlvAudioTagHeader)
    (video : FlvVideoTagHeader) where
  -- Of an AAC or Opus tag whose header was written in front of a payload, the parser hands the
  -- payload to the handler, as `audio_packet` says.
  pub flv_parser_input-audio :
      (tag : FlvAudioTagHeader) (buf : List ℕ) (bytes timestamp : ℕ)
      → IsAudioTag tag
      → is_packet_audio tag.codecid ≡ true
      → audio_header_size tag ≤ bytes
      → audio_header_size tag ≤ length buf
      → (flv_audio_tag_header_write tag buf bytes >>= λ w.
          flv_parser_input handler audio video flv_type_audio w.1 bytes timestamp)
        ≡ handler (audio_packet tag buf bytes timestamp)
  unfolding flv_parser_input flv_parser_audio
  flv_parser_input-audio tag buf bytes timestamp v e p q =
      rw
        (
          flv_audio_tag_header_write-bytes tag buf bytes v p q,
          audio_size_pos tag bytes p,
          flv_audio_tag_header_read-bytes audio tag _ bytes v p,
          plain_drop (audio_header_size tag) (audio_bytes tag) buf (length-audio_bytes tag),
          e,
        )
        (elim (Bool-cases (flv_sequence_header == tag.avpacket)) [ inl c ↦ rw c | inr c ↦ rw c ])

  -- For any other audio codec the handler is told the codec of the header only if the packet type
  -- that the uninitialised structure holds is not 0, and else that the payload is an Opus header.
  pub flv_parser_input-unset_packet :
      (tag : FlvAudioTagHeader) (buf : List ℕ) (bytes timestamp : ℕ)
      → IsAudioTag tag
      → is_packet_audio tag.codecid ≡ false
      → 1 ≤ bytes
      → 1 ≤ length buf
      → (flv_audio_tag_header_write tag buf bytes >>= λ w.
          flv_parser_input handler audio video flv_type_audio w.1 bytes timestamp)
        ≡ handler (
            packet_at 1 buf bytes
              (if audio.avpacket == 0 then flv_audio_opus_head else tag.codecid)
              timestamp
              timestamp
              0)
  unfolding flv_parser_input flv_parser_audio
  flv_parser_input-unset_packet tag buf bytes timestamp v e p q =
      rw
        (
          flv_audio_tag_header_write-bytes tag buf bytes v (rw e p) (rw e q),
          audio_size_pos tag bytes (rw e p),
          flv_audio_tag_header_read-bytes audio tag _ bytes v (rw e p),
          plain_drop (audio_header_size tag) (audio_bytes tag) buf (length-audio_bytes tag),
          e,
          plain_not_aac tag.codecid e,
        )
        (elim (Bool-cases (audio.avpacket == 0)) [
          | inl c ↦ rw (c, eq_rev audio.avpacket true c)
          | inr c ↦ rw (c, eq_rev audio.avpacket false c)
        ])

  -- Of a video tag whose header was written in front of a payload, the parser makes the call that
  -- `video_delivery` says, or none at an end of sequence.
  pub flv_parser_input-video :
      (tag : FlvVideoTagHeader) (buf : List ℕ) (bytes timestamp : ℕ)
      → IsVideoTag tag
      → video_header_size tag ≤ bytes
      → video_header_size tag ≤ length buf
      → (flv_video_tag_header_write tag buf bytes >>= λ w.
          flv_parser_input handler audio video flv_type_video w.1 bytes timestamp)
        ≡ video_delivery handler tag buf bytes timestamp
  unfolding flv_parser_input flv_parser_video
  flv_parser_input-video tag buf bytes timestamp v p q =
      rw
        (
          flv_video_tag_header_write-bytes tag buf bytes v p q,
          video_size_pos tag bytes p,
          flv_video_tag_header_read-bytes video tag _ bytes v p,
          plain_drop (video_header_size tag) (video_bytes tag) buf (length-video_bytes tag),
        )
        (elim (Bool-cases (is_packet_video tag.codecid)) [
          | inl e ↦ rw e (
              rw (e, video_types tag.avpacket _ _ v.packet, key_frames tag.keyframe)
                (packet_codecs tag.codecid (by_packet_type handler tag 5 buf bytes timestamp)
                  (handler
                    (video_packet 5 buf bytes timestamp tag.codecid timestamp (video_flag tag)))
                  e))
          | inr e ↦ rw e (
              rw (e, key_frames tag.keyframe)
                (plain_codecs tag.codecid (by_packet_type handler tag 1 buf bytes timestamp)
                  (handler
                    (video_packet 1 buf bytes timestamp tag.codecid timestamp (video_flag tag)))
                  e))
        ])
