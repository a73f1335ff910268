-- ===== src/Mpeg/Tests.antt =====
-- Runs of the MPEG functions on concrete inputs, and the theorems at concrete inputs.
use stream.Base.{[], ◌∷◌, ◌≡◌, refl, arith, replicate, done, fault, ◌>>=◌, inr}
use stream.Mpeg.Pes.{Pes, skip_stuffing, pes_read_header, pes_write_header, pes_read_mpeg1_header}
use stream.Mpeg.PesBytes.{IsCarriedPes, carried_pes}
use stream.Mpeg.PesRoundTrip.{pes_read_header-write}
use stream.Base.{ℕ, List, ◌≤◌, ◌==◌, ◌&&◌, ltb, false}
use stream.Base.Buffer.{load}
use stream.Mpeg.PesStuffing.{skip_stuffing-stops}
use stream.Mpeg.PesMpeg1.{pes_read_mpeg1_header-overrun}

abbrev pub blank : Pes
blank = record {
  sid = 0;
  len = 0;
  scrambling_control = 0;
  priority = 0;
  data_alignment_indicator = 0;
  copyright = 0;
  original_or_copy = 0;
  pts_dts_flags = 0;
  escr_flag = 0;
  es_rate_flag = 0;
  dsm_trick_mode_flag = 0;
  additional_copy_info_flag = 0;
  pes_crc_flag = 0;
  pes_extension_flag = 0;
  header_data_length = 0;
  pts = 0;
  dts = 0;
  escr_base = 0;
  escr_extension = 0;
  es_rate = 0;
}

abbrev pub picture : Pes
picture = record blank {
  sid = 0xE0;
  data_alignment_indicator = 1;
  pts = 0x1_2345_6789;
  dts = 0x1_2345_0000;
}

pub picture-IsCarriedPes : IsCarriedPes picture
picture-IsCarriedPes = record {
  alignment_bit = omega arith;
  pts_bits = inr (omega arith);
  dts_bits = inr (omega arith);
  dts_allowed = inr (inr (refl, omega arith));
}

pes_read_header-write_example :
    (pes_write_header picture (0 ∷ 0 ∷ 0 ∷ 0 ∷ 1 ∷ 0 ∷ 0 ∷ 0 ∷ 0 ∷ replicate 12 0) 21 >>= λ w.
    pes_read_header blank w.1 21)
    ≡ done (19, carried_pes blank picture 256)
pes_read_header-write_example =
    pes_read_header-write blank picture 0 0 0 0 1 0 0 0 0 (replicate 12 0) 21 picture-IsCarriedPes
      (omega arith) (omega arith)

pes_read_mpeg1_header-overrun_example :
    pes_read_mpeg1_header blank (0 ∷ 0 ∷ 1 ∷ 0xE0 ∷ 0 ∷ 9 ∷ 0xFF ∷ 0xFF ∷ []) 8 ≡ fault
pes_read_mpeg1_header-overrun_example = pes_read_mpeg1_header-overrun blank 0xE0 0 9 2

-- Two stuffing bytes behind the length of the packet, and the byte behind the packet.
abbrev stuffed : List ℕ
stuffed = 0 ∷ 0 ∷ 1 ∷ 0xE0 ∷ 0 ∷ 3 ∷ 0xFF ∷ 0xFF ∷ 0x0F ∷ 0 ∷ []

skip_stuffing-stops_example :
    (j b : ℕ) × (skip_stuffing 10 stuffed 9 6 ≡ done j)
    × (6 ≤ j)
    × (j ≤ 9)
    × (load stuffed j ≡ done b)
    × ((b == 0xFF && ltb j 9) ≡ false)
skip_stuffing-stops_example =
    skip_stuffing-stops 10 stuffed 9 6 (omega arith) (omega arith) (omega arith)
