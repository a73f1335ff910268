-- ===== src/Mpeg/TsInput.antt =====
-- src/media-server/libmpeg/source/mpeg-ts-dec.c: the part of ts_demuxer_input that a packet of an
-- elementary stream goes through.
use stream.Base.{
  ℕ, List, ◌+◌, ◌-◌, ◌^◌, ◌==◌, ◌&&◌, ◌<<<◌, ◌>>>◌, bit_and, bit_or, u64, ltb, if◌then◌else◌,
  Option, none, some, drop, Outcome, done, assert, ◌>>=◌, ◌>>◌,
}
use stream.Base.Buffer.{load, first_bytes}
use stream.Mpeg.Pes.{Pes, differs, bit_at, pes_read_header}
use stream.Mpeg.Adaptation.{TsAdaptationField, adaptation_filed_read}

-- struct ts_packet_header_t
pub record TsPacketHeader : Type 0 where
  pub transport_error_indicator : ℕ
  pub payload_unit_start_indicator : ℕ
  pub transport_priority : ℕ
  pub transport_scrambling_control : ℕ
  pub adaptation_field_control : ℕ
  pub continuity_counter : ℕ
  pub adaptation : TsAdaptationField

-- What `memset` leaves.
abbrev pub no_adaptation : TsAdaptationField
no_adaptation = record {
  adaptation_field_length = 0;
  discontinuity_indicator = 0;
  random_access_indicator = 0;
  elementary_stream_priority_indicator = 0;
  pcr_flag = 0;
  opcr_flag = 0;
  splicing_point_flag = 0;
  transport_private_data_flag = 0;
  adaptation_field_extension_flag = 0;
  program_clock_reference_base = 0;
  program_clock_reference_extension = 0;
  original_program_clock_reference_base = 0;
  original_program_clock_reference_extension = 0;
  splice_countdown = 0;
  transport_private_data_length = 0;
  adaptation_field_extension_length = 0;
  ltw_flag = 0;
  piecewise_rate_flag = 0;
  seamless_splice_flag = 0;
}

-- Up to the payload: the PID, the header and the index of the payload.
unfoldable pub read_ts_header : List ℕ → ℕ → Outcome (ℕ × TsPacketHeader × ℕ)
read_ts_header buf bytes = do
  assert (188 == bytes)
  b0 ← load buf 0
  assert (0x47 == b0)
  b1 ← load buf 1
  b2 ← load buf 2
  b3 ← load buf 3
  let pid = bit_and (bit_or (b1 <<< 8) b2) 0x1FFF
  let pkhd : TsPacketHeader = record {
    transport_error_indicator = bit_at 7 b1;
    payload_unit_start_indicator = bit_at 6 b1;
    transport_priority = bit_at 5 b1;
    transport_scrambling_control = bit_and (b3 >>> 6) 0x03;
    adaptation_field_control = bit_and (b3 >>> 4) 0x03;
    continuity_counter = bit_and b3 0x0F;
    adaptation = no_adaptation;
  }
  if differs (bit_and 0x02 pkhd.adaptation_field_control) 0
      then (do
        (n, adp) ← adaptation_filed_read no_adaptation (drop 4 buf) (bytes - 4)
        done (pid, record pkhd { adaptation = adp }, 4 + n))
      else done (pid, pkhd, 4)

-- A packet, where `pid` is the PID of a stream that is not one of a table: the state of the stream,
-- and the start indicator and the bytes that are given to `pes_packet`.
unfoldable pub stream_input : ℕ → Pes → List ℕ → ℕ → Outcome (Pes × Option (ℕ × List ℕ))
stream_input pid pes buf bytes = do
  (pid', pkhd, i) ← read_ts_header buf bytes
  if differs (bit_and 0x01 pkhd.adaptation_field_control) 0 && pid' == pid
      then (if differs pkhd.payload_unit_start_indicator 0
          then (do
            (n, pes') ← pes_read_header pes (drop i buf) (u64 (bytes + 2 ^ 64 - i))
            assert (ltb 0 n)
            xs ← first_bytes (u64 (bytes + 2 ^ 64 - (i + n))) (drop (i + n) buf)
            done (pes', some (pkhd.payload_unit_start_indicator, xs)))
          else if 0 == pes.sid
          then done (pes, none)
          else (do
            xs ← first_bytes (u64 (bytes + 2 ^ 64 - i)) (drop i buf)
            done (pes, some (pkhd.payload_unit_start_indicator, xs))))
      else done (pes, none)
