-- ===== src/Mpeg/TsTests.antt =====
-- Runs of the packet writer and reader on a picture, and the theorems there.
use stream.Base.{
  ℕ, List, ◌∷◌, ◌++◌, ◌*◌, ◌^◌, ◌<◌, ◌≡◌, refl, arith, length, replicate, true, false, done, ◌>>=◌,
}
use stream.Base.{[], inl, inr, if◌then◌else◌}
use stream.Mpeg.Pes.{Pes, has_dts}
use stream.Mpeg.PesBytes.{IsCarriedPes}
use stream.Mpeg.Packet.{Packet}
use stream.Mpeg.TsFrames.{demux_frames, pes_frame}
use stream.Mpeg.TsFrameRoundTrip.{demux_frames-ts_write_pes}
use stream.Mpeg.Tests.{blank, picture, picture-IsCarriedPes}
use stream.Mpeg.PesBytes.{carried_pes}
use stream.Mpeg.TsHeader.{TsFunc, TsProgram, TsStream, delimiter, stream_pcr}
use stream.Mpeg.TsPacket.{ts_write_pes}
use stream.Mpeg.TsPayload.{sent_payload}
use stream.Mpeg.TsChain.{lacks_code, IsOpen}
use stream.Mpeg.TsRoundTrip.{header_length}
use stream.Mpeg.TsStream.{demux, IsNumbered, demux-ts_write_pes, ts_write_pes-IsNumbered}

-- Memory that is not cleared, and a sink that takes every packet.
abbrev sink : TsFunc
sink = record { alloc = λ _. replicate 188 0xAA; write = λ _ _. 0 }

sink-IsOpen : IsOpen sink
sink-IsOpen = record { memory = λ _. refl; accepts = λ _ _. refl }

abbrev program : TsProgram
program = record { with_aud = false; pcr_pid = 0x100 }

abbrev video : TsStream
video = record { pid = 0x100; codecid = 0x1B; cc = 15; pes = picture }

-- The slice of an IDR picture, without a start code.
abbrev slice : List ℕ
slice = 0x65 ∷ replicate 299 0x88

video-clock : stream_pcr video.pes < 300 * 2 ^ 33
unfolding stream_pcr
video-clock = omega arith

demux-ts_write_pes_example :
    (ts_write_pes sink program video slice (length slice) >>= λ (_, packets, _).
    demux 0x100 blank packets)
    ≡ done (
      carried_pes blank picture
          (header_length program video (length (sent_payload (lacks_code 0x1B slice) slice))),
      delimiter program video ++ sent_payload (lacks_code 0x1B slice) slice,
    )
demux-ts_write_pes_example =
    demux-ts_write_pes sink program video slice sink-IsOpen (omega arith) picture-IsCarriedPes
      video-clock (omega arith) blank (omega arith)

ts_write_pes-IsNumbered_example :
    (packets : List (List ℕ)) × (s' : TsStream) × (ts_write_pes sink program video slice
        (length slice)
      ≡ done (0, packets, s'))
    × (0 < length packets)
    × IsNumbered 0x100 15 true packets
ts_write_pes-IsNumbered_example =
    ts_write_pes-IsNumbered sink program video slice sink-IsOpen (omega arith) picture-IsCarriedPes
      video-clock (omega arith)

-- A frame of AAC, with a decoding time that is the presentation time.
abbrev sound : Pes
sound = record blank { sid = 0xC0; pts = 90000; dts = 90000 }

sound-IsCarriedPes : IsCarriedPes sound
sound-IsCarriedPes = record {
  alignment_bit = omega arith;
  pts_bits = inr (omega arith);
  dts_bits = inr (omega arith);
  dts_allowed = inr (inl refl);
}

abbrev audio : TsStream
audio = record { pid = 0x101; codecid = 0x0F; cc = 3; pes = sound }

audio-clock : stream_pcr audio.pes < 300 * 2 ^ 33
unfolding stream_pcr
audio-clock = omega arith

abbrev no_packet : Packet
no_packet = record { sid = 0; codecid = 0; flags = 0; pts = 0; dts = 0; bytes = []; capacity = 0 }

demux_frames-ts_write_pes_example :
    (pes : Pes) × (pkt' : Packet) × ((ts_write_pes sink program audio (replicate 400 0x21) 400
        >>= λ (_, packets, _). demux_frames (λ _. 0) 0x101 0x0F blank no_packet packets)
      ≡ done (pes, pkt', pes_frame 0x0F pes (replicate 400 0x21) ∷ []))
    × (pkt'.bytes ≡ [])
    × (pes.pts ≡ 90000)
    × (pes.dts ≡ (if has_dts sound then 90000 else 90000))
    × (pes.data_alignment_indicator ≡ 0)
demux_frames-ts_write_pes_example =
    demux_frames-ts_write_pes (λ _. 0) sink program audio blank no_packet (replicate 400 0x21)
      sink-IsOpen refl (omega arith) (omega arith) sound-IsCarriedPes (omega arith) audio-clock
      (omega arith) (omega arith) refl
