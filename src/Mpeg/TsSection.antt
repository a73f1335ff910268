-- ===== src/Mpeg/TsSection.antt =====
-- src/media-server/libmpeg/source/mpeg-ts-enc.c and mpeg-ts-dec.c: a packet with the section of a
-- table, and the program association table out of it.
use stream.Base.{
  ℕ, List, [], ◌∷◌, ◌+◌, ◌-◌, ◌^◌, ◌%◌, ◌==◌, ◌&&◌, ◌>>>◌, bit_and, bit_or, u64, ltb, if◌then◌else◌,
  drop, replicate, Outcome, done, assert, ◌>>=◌, ◌>>◌,
}
use stream.Base.Buffer.{store, first_bytes}
use stream.Mpeg.Pes.{differs}
use stream.Mpeg.Pat.{Pat, pat_read}
use stream.Mpeg.TsHeader.{ts_packet_size}
use stream.Mpeg.TsInput.{read_ts_header}

abbrev pub ts_pid_pat : ℕ
ts_pid_pat = 0x00

-- The packet that is given to `write`, in the memory `buf`, and the counter behind it.
unfoldable pub mpeg_ts_write_section_header : List ℕ → ℕ → ℕ → List ℕ → ℕ → Outcome (List ℕ × ℕ)
mpeg_ts_write_section_header buf pid counter payload len = do
  assert (ltb len (ts_packet_size - 5))
  buf1 ←
      store 0
        (0x47
          ∷ bit_or 0x40 (bit_and (pid >>> 8) 0x1F)
          ∷ bit_and pid 0xFF
          ∷ bit_or 0x10 (bit_and counter 0x0F)
          ∷ [])
        buf
  buf2 ← store 4 (0x00 ∷ []) buf1
  xs ← first_bytes len payload
  buf3 ← store 5 xs buf2
  buf4 ← store (5 + len) (replicate (ts_packet_size - len - 5) 0xFF) buf3
  done (buf4, (counter + 1) % 16)

-- A packet, as far as it concerns the program association table.
unfoldable pub pat_input : Pat → List ℕ → ℕ → Outcome Pat
pat_input pat buf bytes = do
  (pid, pkhd, i) ← read_ts_header buf bytes
  if differs (bit_and 0x01 pkhd.adaptation_field_control) 0 && pid == ts_pid_pat
      then (let j = if differs pkhd.payload_unit_start_indicator 0 then i + 1 else i in
          pat_read pat (drop j buf) (u64 (bytes + 2 ^ 64 - j)))
      else done pat
