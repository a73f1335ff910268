-- ===== src/Mpeg/TableTests.antt =====
-- Runs of the functions on the tables and headers of MPEG streams, and their theorems at concrete
-- inputs.
use stream.Base.{
  ℕ, ◌^◌, ◌≤◌, ◌<◌, All, take, [], ◌∷◌, ◌≡◌, refl, arith, replicate, done, fault, ◌>>=◌,
}
use stream.Mpeg.TsSection.{mpeg_ts_write_section_header, pat_input}
use stream.Mpeg.TsSectionRoundTrip.{pat_input-section_header}
use stream.Mpeg.Pes.{read_escr}
use stream.Mpeg.Crc32.{mpeg_crc32, crc_bytes, crc32_entry, crc32table, entry_or_zero}
use stream.Mpeg.CrcResidue.{mpeg_crc32-residue}
use stream.Mpeg.Adaptation.{TsAdaptationField, pcr_write, adaptation_filed_read}
use stream.Mpeg.ClockRoundTrip.{
  adp_image, misread_extension, adaptation_filed_read-pcr_write, adaptation_filed_read-opcr,
}
use stream.Mpeg.Pat.{Pmt, Pat, empty_pmt, pat_fetch, pat_read, pat_write}
use stream.Mpeg.PatSection.{pat_write-crc}
use stream.Mpeg.PatRoundTrip.{IsProgram, update_programs}
use stream.Mpeg.PatPrograms.{programs_of, pat_read-write_programs}
use stream.Mpeg.PatOverrun.{pat_read-overrun}
use stream.Mpeg.SystemHeader.{PsStreamHeader, read_streams, write_streams}
use stream.Mpeg.SystemHeaderRoundTrip.{
  IsPlainStream, misread_stream, misread_streams, read_streams-write,
}
use stream.Mpeg.PackHeader.{PsPackHeader, pack_header_write}
use stream.Mpeg.PackClock.{read_escr-pack_header_write}
use stream.Mpeg.Tests.{blank}

mpeg_crc32-residue_example :
    mpeg_crc32 0xFFFFFFFF
      (0x00 ∷ 0xB0 ∷ 0x0D ∷ crc_bytes (mpeg_crc32 0xFFFFFFFF (0x00 ∷ 0xB0 ∷ 0x0D ∷ [])))
    ≡ 0
mpeg_crc32-residue_example = mpeg_crc32-residue 0xFFFFFFFF (0x00 ∷ 0xB0 ∷ 0x0D ∷ []) (omega arith)

-- The checksum of "123456789", with its bytes swapped: CRC-32/MPEG-2 is 0x0376E6E7.
mpeg_crc32_run :
    mpeg_crc32 0xFFFFFFFF (0x31 ∷ 0x32 ∷ 0x33 ∷ 0x34 ∷ 0x35 ∷ 0x36 ∷ 0x37 ∷ 0x38 ∷ 0x39 ∷ [])
    ≡ 0xE7E67603
unfolding mpeg_crc32 crc32_entry crc32table entry_or_zero
mpeg_crc32_run = refl

abbrev no_field : TsAdaptationField
no_field = record {
  adaptation_field_length = 0;
  discontinuity_indicator = 0;
  random_access_indicator = 0;
  elementary_stream_priority_indicator = 0;
  pcr_flag = 0;
  opcr_flag = 0;
  splicing_point_flag = 0;
  transport_private_data_flag = 0;
  adaptation_field_extension_flag = 0;
  program_clock_reference_base = 0;
  program_clock_reference_extension = 0;
  original_program_clock_reference_base = 0;
  original_program_clock_reference_extension = 0;
  splice_countdown = 0;
  transport_private_data_length = 0;
  adaptation_field_extension_length = 0;
  ltw_flag = 0;
  piecewise_rate_flag = 0;
  seamless_splice_flag = 0;
}

adaptation_filed_read-pcr_write_example :
    (pcr_write 2 27000299 (7 ∷ 0x50 ∷ replicate 6 0xFF) >>= λ buf.
    adaptation_filed_read no_field buf 8)
    ≡ done (
      8,
      record (adp_image no_field 7 2 0) {
        program_clock_reference_base = 90000;
        program_clock_reference_extension = 299;
      },
    )
adaptation_filed_read-pcr_write_example =
    adaptation_filed_read-pcr_write no_field 7 2 27000299 (replicate 6 0xFF) 8 (omega arith)
      (omega arith) (omega arith) (omega arith) (omega arith)

adaptation_filed_read-opcr_example :
    (pcr_write 2 600 (13 ∷ 0x18 ∷ replicate 12 0xFF) >>= λ buf.
    pcr_write 8 899 buf >>= λ out. adaptation_filed_read no_field out 14)
    ≡ done (
      14,
      record (adp_image no_field 13 0 1) {
        program_clock_reference_base = 2;
        program_clock_reference_extension = 0;
        original_program_clock_reference_base = 2;
        original_program_clock_reference_extension = misread_extension 299;
      },
    )
adaptation_filed_read-opcr_example =
    adaptation_filed_read-opcr no_field 13 0 600 899 (replicate 12 0xFF) 14 (omega arith)
      (omega arith) (omega arith) (omega arith) (omega arith) (omega arith)

abbrev program : ℕ → ℕ → Pmt
program pn pid = record empty_pmt { pn = pn; pid = pid }

abbrev two_programs : Pat
two_programs = record { tsid = 1; ver = 3; cc = 0; pmts = program 1 0x100 ∷ program 2 0x1FFE ∷ [] }

abbrev old_table : Pat
old_table = record { tsid = 9; ver = 2; cc = 5; pmts = program 7 0x100 ∷ [] }

program-IsProgram : (pn pid : ℕ) → 1 ≤ pn → pn < 2 ^ 16 → pid < 2 ^ 13 → IsProgram (program pn pid)
program-IsProgram pn pid p q r = record { pn_used = p; pn_bits = q; pid_bits = r }

two_programs-IsProgram : All IsProgram two_programs.pmts
two_programs-IsProgram = (
  program-IsProgram 1 0x100 (omega arith) (omega arith) (omega arith),
  (program-IsProgram 2 0x1FFE (omega arith) (omega arith) (omega arith), tt),
)

pat_write-crc_example :
    (pat_write two_programs (replicate 20 0) >>= λ w. done (mpeg_crc32 0xFFFFFFFF (take w.0 w.1)))
    ≡ done 0
pat_write-crc_example = pat_write-crc two_programs (replicate 20 0) (omega arith) (omega arith)

pat_input-section_header_example :
    (pat_write two_programs (replicate 1024 0) >>= λ (n, out).
    mpeg_ts_write_section_header (replicate 188 0xAA) 0 0 out n >>= λ (packet, _).
    pat_input old_table packet 188)
    ≡ done (record old_table { tsid = 1; ver = 3; pmts = update_programs [] two_programs.pmts })
pat_input-section_header_example =
    pat_input-section_header old_table two_programs (replicate 1024 0) (replicate 188 0xAA)
      (omega arith) (omega arith) (omega arith) two_programs-IsProgram (omega arith) refl

pat_read-write_programs_example :
    (pat_write two_programs (replicate 20 0) >>= λ w. pat_read old_table w.1 20)
    ≡ done (record old_table { tsid = 1; ver = 3; pmts = programs_of two_programs.pmts })
pat_read-write_programs_example =
    pat_read-write_programs old_table two_programs (replicate 20 0) 20 refl
      ((ground arith, tt), (tt, tt)) (omega arith) (omega arith) (omega arith)
      two_programs-IsProgram (omega arith) (omega arith)

pat_read-overrun_example :
    pat_read old_table (0x00 ∷ 0xB0 ∷ 0x00 ∷ 0 ∷ 1 ∷ 0xC1 ∷ replicate 10 0) 16 ≡ fault
pat_read-overrun_example =
    pat_read-overrun old_table 0 1 0xC1 (replicate 10 0) 16 (omega arith) (omega arith)
      (omega arith)

-- A program that moves to a pid in use takes the entry over.
update_programs_run :
    update_programs (program 7 0x100 ∷ []) (program 1 0x100 ∷ []) ≡ program 1 0x100 ∷ []
unfolding update_programs pat_fetch
update_programs_run = refl

stream_header : ℕ → ℕ → PsStreamHeader
stream_header id size = record {
  stream_id = id;
  stream_extid = 0;
  buffer_bound_scale = 1;
  buffer_size_bound = size;
}

-- 1024 is read as 4.
misread_stream_run :
    misread_stream (stream_header 0xE0 1024) (stream_header 0 0) ≡ stream_header 0xE0 4
unfolding misread_stream stream_header
misread_stream_run = refl

stream_header-IsPlainStream :
    (id size : ℕ) → 0xC0 ≤ id → id < 0x100 → size < 2 ^ 13 → IsPlainStream (stream_header id size)
unfolding stream_header
stream_header-IsPlainStream id size p q r = record {
  id_high = omega arith;
  id_byte = q;
  no_extension = ground arith;
  scale_bit = omega arith;
  size_bits = r;
}

read_streams-write_example :
    (write_streams 2
        (stream_header 0xE0 1024 ∷ stream_header 0xC0 32 ∷ [])
        2
        (9 ∷ 9 ∷ 0 ∷ 0 ∷ 0 ∷ 0 ∷ 0 ∷ 0 ∷ 0 ∷ [])
      >>= λ x. read_streams x.1 8 2 (stream_header 0 0 ∷ stream_header 0 0 ∷ []))
    ≡ done (
        misread_streams
          (stream_header 0xE0 1024 ∷ stream_header 0xC0 32 ∷ [])
          (stream_header 0 0 ∷ stream_header 0 0 ∷ []))
read_streams-write_example =
    read_streams-write (stream_header 0xE0 1024 ∷ stream_header 0xC0 32 ∷ []) []
      (stream_header 0 0 ∷ stream_header 0 0 ∷ []) 8 0 (9 ∷ 9 ∷ []) (0 ∷ 0 ∷ 0 ∷ 0 ∷ 0 ∷ 0 ∷ []) []
      (
        stream_header-IsPlainStream 0xE0 1024 (omega arith) (omega arith) (omega arith),
        (stream_header-IsPlainStream 0xC0 32 (omega arith) (omega arith) (omega arith), tt),
      )
      (omega arith) refl (omega arith) (omega arith)

abbrev pack : PsPackHeader
pack = record {
  mpeg2 = 1;
  system_clock_reference_base = 0x1_2345_6789;
  system_clock_reference_extension = 299;
  program_mux_rate = 6106;
}

read_escr-pack_header_write_example :
    (pack_header_write pack (replicate 16 0) >>= λ w.
    read_escr w.1 (4, record blank { escr_flag = 1 }))
    ≡ done (10, record blank { escr_flag = 1; escr_base = 0x1_2345_6789; escr_extension = 299 })
read_escr-pack_header_write_example =
    read_escr-pack_header_write pack (record blank { escr_flag = 1 }) (replicate 16 0) refl
      (omega arith) (omega arith) (omega arith)
