-- ===== src/Mpeg/SystemHeader.antt =====
-- src/media-server/libmpeg/source/mpeg-system-header.c: the system header of a program stream.
use stream.Base.{
  ℕ, zero, suc, List, [], ◌∷◌, ◌++◌, ◌+◌, ◌-◌, ◌==◌, ◌&&◌, bit_and, bit_or, u8, u16, ◌<<<◌, ◌>>>◌,
  ltb, leb, if◌then◌else◌, length, Outcome, done, fault, ◌>>=◌, ◌>>◌, assert,
}
use stream.Base.Buffer.{load, store}
use stream.Mpeg.Pes.{bit_at}
use stream.Mpeg.Pat.{nbo_w16}

pub record PsStreamHeader : Type 0 where
  pub stream_id : ℕ
  pub stream_extid : ℕ
  pub buffer_bound_scale : ℕ
  pub buffer_size_bound : ℕ

-- `streams` is the whole array, of which `stream_count` entries are in use.
pub record PsSystemHeader : Type 0 where
  pub rate_bound : ℕ
  pub audio_bound : ℕ
  pub fixed_flag : ℕ
  pub csps_flag : ℕ
  pub system_audio_lock_flag : ℕ
  pub system_video_lock_flag : ℕ
  pub video_bound : ℕ
  pub packet_rate_restriction_flag : ℕ
  pub stream_count : ℕ
  pub streams : List PsStreamHeader

abbrev pub pes_sid_extension : ℕ
pes_sid_extension = 0xB7

-- The extension behind a stream id: the index behind it and the stream id, a field of 8 bits. The
-- mask 80 is the source's.
unfoldable pub read_extid : List ℕ → ℕ → ℕ → Outcome (ℕ × ℕ)
read_extid buf i id =
    if id == pes_sid_extension
    then (do
      c ← load buf i
      assert (c == 0xC0)
      d ← load buf (i + 1)
      assert (bit_and d 80 == 0)
      e ← load buf (i + 2)
      assert (e == 0xB6)
      done (i + 3, u8 (bit_or (id <<< 7) (bit_and d 0x7F))))
    else done (i, id)

-- One round of the loop, on the entry that it fills.
unfoldable pub read_stream : List ℕ → ℕ → PsStreamHeader → Outcome (ℕ × PsStreamHeader)
read_stream buf i s = do
  id ← load buf i
  x ← read_extid buf (i + 1) id
  b ← load buf x.0
  assert (bit_and b 0xC0 == 0xC0)
  c ← load buf (x.0 + 1)
  done (
    x.0 + 2,
    record s {
      stream_id = x.1;
      buffer_bound_scale = bit_at 5 b;
      buffer_size_bound = bit_or (bit_and b 0x1F) c;
    },
  )

-- The loop over the entries of the array; each test of its condition reads a byte first.
unfoldable pub read_streams : List ℕ → ℕ → ℕ → List PsStreamHeader → Outcome (List PsStreamHeader)
read_streams buf bytes i [] = do b ← load buf i; done []
read_streams buf bytes i (s ∷ slots) = do
  b ← load buf i
  if bit_and b 0x80 == 0x80 && ltb i bytes
      then (do x ← read_stream buf i s; rest ← read_streams buf bytes x.0 slots; done (x.1 ∷ rest))
      else done (s ∷ slots)

-- Returns the length, 0 on an error. `stream_count` is not set.
unfoldable pub system_header_read : PsSystemHeader → List ℕ → ℕ → Outcome (ℕ × PsSystemHeader)
system_header_read h buf bytes = if ltb bytes 12 then done (0, h) else (do
  b0 ← load buf 0
  b1 ← load buf 1
  b2 ← load buf 2
  b3 ← load buf 3
  assert (b0 == 0x00 && b1 == 0x00 && b2 == 0x01 && b3 == 0xBB)
  b4 ← load buf 4
  b5 ← load buf 5
  let len = bit_or (b4 <<< 8) b5
  assert (leb (len + 6) bytes)
  b6 ← load buf 6
  assert (bit_and 0x80 b6 == 0x80)
  b8 ← load buf 8
  assert (bit_and 0x01 b8 == 0x01)
  b7 ← load buf 7
  b9 ← load buf 9
  b10 ← load buf 10
  assert (bit_and 0x20 b10 == 0x20)
  b11 ← load buf 11
  streams ← read_streams buf bytes 12 h.streams
  done (
    len + 4 + 2,
    record h {
      rate_bound = bit_or (bit_or (bit_and b6 0x7F <<< 15) (b7 <<< 7)) (bit_and (b8 >>> 1) 0x7F);
      audio_bound = bit_and (b9 >>> 2) 0x3F;
      fixed_flag = bit_at 1 b9;
      csps_flag = bit_and b9 0x01;
      system_audio_lock_flag = bit_at 7 b10;
      system_video_lock_flag = bit_at 6 b10;
      video_bound = bit_and b10 0x1F;
      packet_rate_restriction_flag = bit_at 7 b11;
      streams = streams;
    },
  ))

-- The bytes of a stream in `system_header_write`.
unfoldable pub stream_bytes : PsStreamHeader → List ℕ
stream_bytes s =
    s.stream_id
    ∷ ((if pes_sid_extension == s.stream_id
          then 0xD0 ∷ bit_and s.stream_extid 0x7F ∷ 0xB6 ∷ []
          else [])
        ++ (bit_or (bit_or 0xC0 (bit_and s.buffer_bound_scale 0x01 <<< 5))
              (bit_and (s.buffer_size_bound >>> 8) 0x1F)
            ∷ bit_and s.buffer_size_bound 0xFF
            ∷ []))

unfoldable pub write_streams : ℕ → List PsStreamHeader → ℕ → List ℕ → Outcome (ℕ × List ℕ)
write_streams zero streams i buf = done (i, buf)
write_streams (suc n) [] i buf = fault
write_streams (suc n) (s ∷ streams) i buf = do
  out ← store i (stream_bytes s) buf
  write_streams n streams (i + length (stream_bytes s)) out

-- The six bytes behind the length.
unfoldable pub fixed_bytes : PsSystemHeader → List ℕ
fixed_bytes h =
    bit_or 0x80 (bit_and (h.rate_bound >>> 15) 0x7F)
    ∷ bit_and (h.rate_bound >>> 7) 0xFF
    ∷ bit_or 0x01 (bit_and h.rate_bound 0x7F <<< 1)
    ∷ bit_or (bit_or (bit_and h.audio_bound 0x3F <<< 2) (bit_and h.fixed_flag 0x01 <<< 1))
        (bit_and h.csps_flag 0x01)
    ∷ bit_or
        (bit_or (bit_or 0x20 (bit_and h.system_audio_lock_flag 0x01 <<< 7))
          (bit_and h.system_video_lock_flag 0x01 <<< 6))
        (bit_and h.video_bound 0x1F)
    ∷ bit_or 0x7F (bit_and h.packet_rate_restriction_flag 0x01 <<< 7)
    ∷ []

-- Returns the length with the buffer.
unfoldable pub system_header_write : PsSystemHeader → List ℕ → Outcome (ℕ × List ℕ)
system_header_write h buf = do
  a ← store 0 (0x00 ∷ 0x00 ∷ 0x01 ∷ 0xBB ∷ []) buf
  b ← store 6 (fixed_bytes h) a
  x ← write_streams h.stream_count h.streams 12 b
  out ← store 4 (nbo_w16 (u16 (x.0 - 6))) x.1
  done (x.0, out)
