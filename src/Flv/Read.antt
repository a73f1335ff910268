-- ===== src/Flv/Read.antt =====
-- src/media-server/libflv/source/flv-header.c: the functions that read a header. Each returns the
-- number of bytes that it consumed with the structure that it filled; one that leaves fields of
-- the structure unset takes what stood in it before.
use stream.Base.{
  ℕ, List, [], ◌∷◌, bit_and, bit_or, bit_xor, ◌+◌, ◌==◌, ◌&&◌, ◌||◌, leb, ltb, if◌then◌else◌, u32,
  ◌<<<◌, ◌>>>◌, Outcome, done, ◌>>=◌, ◌>>◌, assert, fail_if,
}
use stream.Base.Buffer.{load}
use stream.Flv.Proto.{
  FlvHeader, FlvTagHeader, FlvAudioTagHeader, FlvVideoTagHeader, flv_sequence_header, flv_avpacket,
  flv_end_of_sequence, flv_header_size, flv_tag_header_size, is_tag_type, is_packet_audio,
  is_packet_video,
}

-- `be_read_uint32(ptr)` with `ptr` at index `i` of the buffer.
unfoldable pub be_read_uint32 : List ℕ → ℕ → Outcome ℕ
be_read_uint32 buf i = do
  b0 ← load buf i
  b1 ← load buf (i + 1)
  b2 ← load buf (i + 2)
  b3 ← load buf (i + 3)
  done (u32 (bit_or (bit_or (bit_or (b0 <<< 24) (b1 <<< 16)) (b2 <<< 8)) b3))

unfoldable pub flv_header_read : List ℕ → ℕ → Outcome (ℕ × FlvHeader)
unfolding be_read_uint32
flv_header_read buf len = do
  assert (leb flv_header_size len)
  b0 ← load buf 0
  assert (b'F' == b0)
  b1 ← load buf 1
  assert (b'L' == b1)
  b2 ← load buf 2
  assert (b'V' == b2)
  version ← load buf 3
  b4 ← load buf 4
  assert (bit_and b4 0xF8 == 0 && bit_and b4 0x20 == 0)
  offset ← be_read_uint32 buf 5
  done (
    flv_header_size,
    record {
      flv = b0 ∷ b1 ∷ b2 ∷ [];
      version = version;
      audio = bit_and (b4 >>> 2) 0x01;
      video = bit_and b4 0x01;
      offset = offset;
    },
  )

unfoldable pub flv_tag_header_read : List ℕ → ℕ → Outcome (ℕ × FlvTagHeader)
flv_tag_header_read buf len = do
  assert (leb flv_tag_header_size len)
  b0 ← load buf 0
  let type = bit_and b0 0x1F
  assert (is_tag_type type)
  b1 ← load buf 1
  b2 ← load buf 2
  b3 ← load buf 3
  b4 ← load buf 4
  b5 ← load buf 5
  b6 ← load buf 6
  b7 ← load buf 7
  b8 ← load buf 8
  b9 ← load buf 9
  b10 ← load buf 10
  done (
    flv_tag_header_size,
    record {
      filter = bit_and (b0 >>> 5) 0x01;
      type = type;
      size = bit_or (bit_or (b1 <<< 16) (b2 <<< 8)) b3;
      timestamp = u32 (bit_or (bit_or (bit_or (b4 <<< 16) (b5 <<< 8)) b6) (b7 <<< 24));
      stream_id = bit_or (bit_or (b8 <<< 16) (b9 <<< 8)) b10;
    },
  )

unfoldable pub flv_audio_tag_header_read :
    FlvAudioTagHeader → List ℕ → ℕ → Outcome (ℕ × FlvAudioTagHeader)
flv_audio_tag_header_read audio buf len = do
  assert (ltb 0 len)
  b0 ← load buf 0
  let audio' = record audio {
    codecid = bit_and b0 0xF0;
    rate = bit_and b0 0x0C >>> 2;
    bits = bit_and b0 0x02 >>> 1;
    channels = bit_and b0 0x01;
  }
  if is_packet_audio (bit_and b0 0xF0)
      then (do
        assert (leb 2 len)
        b1 ← load buf 1
        assert (flv_sequence_header == b1 || flv_avpacket == b1)
        done (2, record audio' { avpacket = b1 }))
      else done (1, audio')

-- The sign extension of 24 bits, `(cts + 0xFF800000) ^ 0xFF800000`.
unfoldable pub sign_extend24 : ℕ → ℕ
sign_extend24 cts = bit_xor (u32 (cts + 0xFF800000)) 0xFF800000

unfoldable pub flv_video_tag_header_read :
    FlvVideoTagHeader → List ℕ → ℕ → Outcome (ℕ × FlvVideoTagHeader)
flv_video_tag_header_read video buf len = do
  assert (ltb 0 len)
  b0 ← load buf 0
  let video' = record video { keyframe = bit_and b0 0xF0 >>> 4; codecid = bit_and b0 0x0F }
  if is_packet_video (bit_and b0 0x0F)
      then (do
        fail_if (ltb len 5) 1
        b1 ← load buf 1
        b2 ← load buf 2
        b3 ← load buf 3
        b4 ← load buf 4
        assert (flv_sequence_header == b1 || flv_avpacket == b1 || flv_end_of_sequence == b1)
        done (
          5,
          record video' {
            avpacket = b1;
            cts = sign_extend24 (bit_or (bit_or (b2 <<< 16) (b3 <<< 8)) b4);
          },
        ))
      else done (1, video')

unfoldable pub flv_data_tag_header_read : List ℕ → ℕ → Outcome ℕ
flv_data_tag_header_read buf len = done len

unfoldable pub flv_tag_size_read : List ℕ → ℕ → Outcome (ℕ × ℕ)
unfolding be_read_uint32
flv_tag_size_read buf len = do fail_if (ltb len 4) 1; size ← be_read_uint32 buf 0; done (4, size)
