-- ===== src/Mpeg/TsHeader.antt =====
-- src/media-server/libmpeg/source/mpeg-ts-enc.c: the headers of the packets that a PES packet is
-- cut into.
use stream.Base.{
  ℕ, List, [], ◌∷◌, ◌++◌, ◌+◌, ◌-◌, ◌*◌, ◌^◌, ◌==◌, ◌&&◌, ◌>>>◌, bit_and, bit_or, u8, u16, u64, ltb,
  if◌then◌else◌, Bool, length, take, drop, Outcome, done, assert, ◌>>=◌, ◌>>◌,
}
use stream.Base.Buffer.{load, store}
use stream.Mpeg.Timestamp.{pts_no_value}
use stream.Mpeg.Pes.{Pes, differs, pes_write_header}
use stream.Mpeg.Adaptation.{pcr_write}

abbrev pub ts_packet_size : ℕ
ts_packet_size = 188

abbrev pub psi_stream_h264 : ℕ
psi_stream_h264 = 0x1B

abbrev pub psi_stream_h265 : ℕ
psi_stream_h265 = 0x24

-- The functions of struct mpeg_ts_func_t: `alloc` gives what is in the memory of a packet, by the
-- number of bytes of the payload that are left; `write` gets the number of packets before and
-- the packet. Allocations do not fail.
pub record TsFunc : Type 0 where
  pub alloc : ℕ → List ℕ
  pub write : ℕ → List ℕ → ℕ

-- The fields of struct pes_t that are used beside those of mpeg-pes.c.
pub record TsStream : Type 0 where
  pub pid : ℕ
  pub codecid : ℕ
  pub cc : ℕ
  pub pes : Pes

-- Where the context has `h264_h265_with_aud` and the program has `PCR_PID`.
pub record TsProgram : Type 0 where
  pub with_aud : Bool
  pub pcr_pid : ℕ

-- `data[i] |= bits`
unfoldable pub set_bits : ℕ → ℕ → List ℕ → Outcome (List ℕ)
set_bits i bits buf = do b ← load buf i; store i (bit_or b bits ∷ []) buf

unfoldable pub has_pcr : TsProgram → TsStream → Bool
has_pcr program s = s.pid == program.pcr_pid

unfoldable pub is_random_access : TsStream → Bool
is_random_access s = differs s.pes.data_alignment_indicator 0 && differs pts_no_value s.pes.pts

-- The clock in units of 27 MHz, as a bit pattern of int64_t.
unfoldable pub stream_pcr : Pes → ℕ
stream_pcr pes = u64 ((if pts_no_value == pes.dts then pes.pts else pes.dts) * 300)

-- The flags, the clock and `header - data`. A negative clock, for which `pcr_write` is not modelled, is
-- a fault.
unfoldable pub write_adaptation : TsProgram → TsStream → Bool → List ℕ → Outcome (List ℕ × ℕ)
write_adaptation program s start buf = do
  buf1 ←
      if start && has_pcr program s
      then (do out ← set_bits 3 0x20 buf; set_bits 5 0x10 out)
      else done buf
  buf2 ←
      if start && is_random_access s
      then (do out ← set_bits 3 0x20 buf1; set_bits 5 0x40 out)
      else done buf1
  b3 ← load buf2 3
  if differs (bit_and b3 0x20) 0
      then (do
        buf3 ← store 4 (1 ∷ []) buf2
        b5 ← load buf3 5
        buf4 ←
            if differs (bit_and b5 0x10) 0
            then (do
              assert (ltb (stream_pcr s.pes) (2 ^ 63))
              out ← pcr_write 6 (stream_pcr s.pes) buf3
              store 4 (7 ∷ []) out)
            else done buf3
        b4 ← load buf4 4
        done (buf4, 4 + 1 + b4))
      else done (buf2, 4)

-- The access unit delimiter that is put in front of a picture.
unfoldable pub delimiter : TsProgram → TsStream → List ℕ
delimiter program s =
    if program.with_aud
    then []
    else if s.codecid == psi_stream_h264
    then 0 ∷ 0 ∷ 0 ∷ 1 ∷ 0x09 ∷ 0xF0 ∷ []
    else if s.codecid == psi_stream_h265
    then 0 ∷ 0 ∷ 0 ∷ 1 ∷ 0x46 ∷ 0x01 ∷ 0x50 ∷ []
    else []

-- `pes_write_header(stream, data + header, …)`: the length of the header, and the array.
unfoldable pub write_header_at : ℕ → Pes → List ℕ → Outcome (ℕ × List ℕ)
write_header_at header pes buf = do
  (n, out) ← pes_write_header pes (drop header buf) (ts_packet_size - header)
  done (n, take header buf ++ out)

-- The value of PES_packet_length for `n` bytes of header and delimiter and `bytes` bytes of payload.
unfoldable pub pes_packet_length : ℕ → ℕ → ℕ
pes_packet_length n bytes =
    if ltb 0xFFFF (u64 (n + 2 ^ 64 - 6 + bytes)) then 0 else u16 (u64 (n + 2 ^ 64 - 6 + bytes))

-- The first packet has the PES header: the array and `p - data`.
unfoldable pub write_start : TsProgram → TsStream → ℕ → List ℕ → ℕ → Outcome (List ℕ × ℕ)
write_start program s header buf bytes = do
  buf1 ← set_bits 1 0x40 buf
  (n, buf2) ← write_header_at header s.pes buf1
  buf3 ← store (header + n) (delimiter program s) buf2
  let m = n + length (delimiter program s)
  let len = pes_packet_length m bytes
  buf4 ← store (header + 4) (u8 (len >>> 8) ∷ u8 len ∷ []) buf3
  done (buf4, header + m)
