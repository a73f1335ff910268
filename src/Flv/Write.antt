-- ===== src/Flv/Write.antt =====
-- src/media-server/libflv/source/flv-header.c: the functions that write a header into a buffer.
-- Each returns the number of bytes of the header with the buffer that it leaves.
use stream.Base.{
  ℕ, List, [], ◌∷◌, bit_and, bit_or, ◌+◌, ◌==◌, ◌||◌, leb, ltb, if◌then◌else◌, u8, ◌<<<◌, ◌>>>◌,
  Outcome, done, ◌>>=◌, ◌>>◌, assert, fail_if,
}
use stream.Base.Buffer.{store}
use stream.Flv.Proto.{
  FlvTagHeader, FlvAudioTagHeader, FlvVideoTagHeader, flv_sequence_header, flv_avpacket,
  flv_end_of_sequence, flv_header_size, flv_tag_header_size, is_tag_type, is_packet_audio,
  is_packet_video,
}

-- The bytes that `be_write_uint32(ptr, val)` stores.
unfoldable pub be_write_uint32 : ℕ → List ℕ
be_write_uint32 val =
    u8 (bit_and (val >>> 24) 0xFF)
    ∷ u8 (bit_and (val >>> 16) 0xFF)
    ∷ u8 (bit_and (val >>> 8) 0xFF)
    ∷ u8 (bit_and val 0xFF)
    ∷ []

-- `flag ? 1 : 0`
abbrev pub to_bit : ℕ → ℕ
to_bit flag = if flag == 0 then 0 else 1

unfoldable pub flv_header_write : ℕ → ℕ → List ℕ → ℕ → Outcome (ℕ × List ℕ)
unfolding be_write_uint32
flv_header_write audio video buf len = do
  assert (leb flv_header_size len)
  out ←
      store 0
        (b'F'
          ∷ b'L'
          ∷ b'V'
          ∷ 0x01
          ∷ bit_or (to_bit audio <<< 2) (to_bit video)
          ∷ be_write_uint32 flv_header_size)
        buf
  done (flv_header_size, out)

-- The 11 bytes of a tag header.
unfoldable pub tag_header_bytes : FlvTagHeader → List ℕ
tag_header_bytes tag =
    u8 (bit_or (bit_and tag.type 0x1F) (bit_and tag.filter 0x01 <<< 5))
    ∷ bit_and (tag.size >>> 16) 0xFF
    ∷ bit_and (tag.size >>> 8) 0xFF
    ∷ bit_and tag.size 0xFF
    ∷ bit_and (tag.timestamp >>> 16) 0xFF
    ∷ bit_and (tag.timestamp >>> 8) 0xFF
    ∷ bit_and (tag.timestamp >>> 0) 0xFF
    ∷ bit_and (tag.timestamp >>> 24) 0xFF
    ∷ bit_and (tag.stream_id >>> 16) 0xFF
    ∷ bit_and (tag.stream_id >>> 8) 0xFF
    ∷ bit_and tag.stream_id 0xFF
    ∷ []

unfoldable pub flv_tag_header_write : FlvTagHeader → List ℕ → ℕ → Outcome (ℕ × List ℕ)
unfolding tag_header_bytes
flv_tag_header_write tag buf len = do
  assert (leb flv_tag_header_size len)
  assert (is_tag_type tag.type)
  out ← store 0 (tag_header_bytes tag) buf
  done (flv_tag_header_size, out)

unfoldable pub flv_audio_tag_header_write : FlvAudioTagHeader → List ℕ → ℕ → Outcome (ℕ × List ℕ)
flv_audio_tag_header_write audio buf len = do
  fail_if (ltb len (1 + (if is_packet_audio audio.codecid then 1 else 0))) 1
  if is_packet_audio audio.codecid
      then (do
        assert (flv_sequence_header == audio.avpacket || flv_avpacket == audio.avpacket)
        out ←
            store 0
              (u8 (bit_or (bit_or (bit_or audio.codecid (3 <<< 2)) (1 <<< 1)) 1)
                ∷ audio.avpacket
                ∷ [])
              buf
        done (2, out))
      else (do
        out ←
            store 0
              (u8 (
                  bit_or
                    (bit_or (bit_or audio.codecid (bit_and audio.rate 0x03 <<< 2))
                      (bit_and audio.bits 0x01 <<< 1))
                    (bit_and audio.channels 0x01))
                ∷ [])
              buf
        done (1, out))

unfoldable pub flv_video_tag_header_write : FlvVideoTagHeader → List ℕ → ℕ → Outcome (ℕ × List ℕ)
flv_video_tag_header_write video buf len = do
  fail_if (ltb len 1) 1
  out ← store 0 (u8 (bit_or (video.keyframe <<< 4) (bit_and video.codecid 0x0F)) ∷ []) buf
  if is_packet_video video.codecid
      then (do
        assert (
            flv_sequence_header == video.avpacket
            || flv_avpacket == video.avpacket
            || flv_end_of_sequence == video.avpacket)
        fail_if (ltb len 5) 1
        out' ←
            store 1
              (video.avpacket
                ∷ bit_and (video.cts >>> 16) 0xFF
                ∷ bit_and (video.cts >>> 8) 0xFF
                ∷ bit_and video.cts 0xFF
                ∷ [])
              out
        done (5, out'))
      else done (1, out)

unfoldable pub flv_data_tag_header_write : List ℕ → ℕ → Outcome (ℕ × List ℕ)
flv_data_tag_header_write buf len = done (0, buf)

unfoldable pub flv_tag_size_write : List ℕ → ℕ → ℕ → Outcome (ℕ × List ℕ)
unfolding be_write_uint32
flv_tag_size_write buf len size = do
  fail_if (ltb len 4) 1
  out ← store 0 (be_write_uint32 size) buf
  done (4, out)
