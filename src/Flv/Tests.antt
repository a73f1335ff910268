-- ===== src/Flv/Tests.antt =====
-- Runs of the FLV functions on concrete inputs, and the theorems at concrete inputs.
use stream.Base.{
  ℕ, zero, suc, List, [], ◌∷◌, ◌++◌, ◌≡◌, refl, ap, arith, length, take, drop, take-append,
  drop-append, replicate, Outcome, done, ◌>>=◌, some, true, inr,
}
use stream.Base.Buffer.{store, patch}
use stream.Flv.Proto.{
  FlvTagHeader, FlvAudioTagHeader, FlvVideoTagHeader, flv_type_audio, flv_type_video,
}
use stream.Flv.Read.{
  flv_tag_header_read, flv_audio_tag_header_read, flv_video_tag_header_read, sign_extend24,
}
use stream.Flv.Write.{flv_tag_header_write, flv_audio_tag_header_write, flv_video_tag_header_write}
use stream.Flv.RoundTrip.{IsTagHeader, flv_tag_header_read-write}
use stream.Flv.AudioRoundTrip.{IsAudioTag, flv_audio_tag_header_read-write}
use stream.Flv.VideoRoundTrip.{IsVideoTag, flv_video_tag_header_read-write, sign_extend24_lem}
use stream.Flv.Parser.{FlvPacket, flv_parser_input}
use stream.Flv.ParserDelivery.{
  flv_parser_input-audio, flv_parser_input-unset_packet, flv_parser_input-video,
}
use stream.Flv.Writer.{flv_writer_input}
use stream.Flv.Reader.{got, FlvTag, tag_read, end_of_file, flv_reader_read}
use stream.Flv.Streams.{ByteSink, ByteSource}
use stream.Flv.TagStream.{tag_image, flv_writer_input-tag_image, flv_reader_read-tag_image}
use stream.Flv.FileRoundTrip.{write_file, read_file, eos_tag, IsFileTag, read_file-write_file}

abbrev memory_sink : ByteSink
memory_sink = record {
  State = List ℕ;
  write = λ s bytes. (s ++ bytes, some (length bytes));
  contents = λ s. s;
  takes_all = λ s bytes. refl;
  appends = λ s bytes. refl;
}

take_front :
    (s : List ℕ) (n : ℕ) (front back : List ℕ)
    → s ≡ front ++ back
    → length front ≡ n
    → take n s ≡ front
take_front s n front back e h = rw (e, ← h) (take-append front back)

drop_front :
    (s : List ℕ) (n : ℕ) (front back : List ℕ)
    → s ≡ front ++ back
    → length front ≡ n
    → drop n s ≡ back
drop_front s n front back e h = rw (e, ← h) (drop-append front back)

take_nothing : (s : List ℕ) (n : ℕ) → s ≡ [] → take n s ≡ []
take_nothing s zero e = refl
take_nothing s (suc n) e = rw e

abbrev memory_source : ByteSource
memory_source = record {
  State = List ℕ;
  read = λ s n. (drop n s, got (take n s));
  remaining = λ s. s;
  delivers = λ s n front back e h. ap got (take_front s n front back e h);
  advances = drop_front;
  ends = λ s n e h. ap got (take_nothing s n e);
}

abbrev script : FlvTag
script = record { tagtype = 18; timestamp = 0; payload = 2 ∷ 0 ∷ 1 ∷ [] }

abbrev sound : FlvTag
sound = record { tagtype = 8; timestamp = 0x1000002; payload = 0xAF ∷ 1 ∷ 0x21 ∷ [] }

script-IsFileTag : IsFileTag 100 script
script-IsFileTag = record {
  known = refl;
  timestamp_bits = omega arith;
  size_bits = omega arith;
  fits = omega arith;
}

sound-IsFileTag : IsFileTag 100 sound
sound-IsFileTag = record {
  known = refl;
  timestamp_bits = omega arith;
  size_bits = omega arith;
  fits = omega arith;
}

read_file-write_file_example :
    (write_file memory_sink.write [] (script ∷ sound ∷ []) >>= λ s.
    read_file memory_source.read 100 3 s)
    ≡ done (script ∷ sound ∷ eos_tag ∷ [], end_of_file)
read_file-write_file_example =
    read_file-write_file memory_sink memory_source (λ s. s) (λ s. refl) [] 100 (script ∷ sound ∷ [])
      refl (omega arith) (script-IsFileTag, (sound-IsFileTag, tt))

flv_writer_input-tag_image_example :
    (s : List ℕ) × (flv_writer_input memory_sink.write (7 ∷ []) 8 (1 ∷ 2 ∷ 9 ∷ []) 2 40
      ≡ done (s, true))
    × (s ≡ 7 ∷ tag_image 8 40 (1 ∷ 2 ∷ []))
flv_writer_input-tag_image_example =
    flv_writer_input-tag_image memory_sink (7 ∷ []) 8 40 (1 ∷ 2 ∷ []) (9 ∷ []) refl (omega arith)

flv_reader_read-tag_image_example :
    (s : List ℕ) × (flv_reader_read memory_source.read (tag_image 8 40 (1 ∷ 2 ∷ []) ++ (7 ∷ [])) 10
      ≡ done (s, tag_read (record { tagtype = 8; timestamp = 40; payload = 1 ∷ 2 ∷ [] })))
    × (s ≡ 7 ∷ [])
flv_reader_read-tag_image_example =
    flv_reader_read-tag_image memory_source (tag_image 8 40 (1 ∷ 2 ∷ []) ++ (7 ∷ [])) 10 8 40
      (1 ∷ 2 ∷ []) (7 ∷ []) refl (omega arith) (omega arith) (omega arith) refl

abbrev sample_tag : FlvTagHeader
sample_tag = record { filter = 1; type = 9; size = 0x012345; timestamp = 0xFE000001; stream_id = 3 }

sample_tag_bytes :
    flv_tag_header_write sample_tag (replicate 11 0) 11
    ≡ done (11, 0x29 ∷ 0x01 ∷ 0x23 ∷ 0x45 ∷ 0 ∷ 0 ∷ 1 ∷ 0xFE ∷ 0 ∷ 0 ∷ 3 ∷ [])
unfolding flv_tag_header_write store patch
sample_tag_bytes = refl

sample_tag-IsTagHeader : IsTagHeader sample_tag
sample_tag-IsTagHeader = record {
  known = refl;
  filter_bit = omega arith;
  size_bits = omega arith;
  timestamp_bits = omega arith;
  stream_id_bits = omega arith;
}

flv_tag_header_read-write_example :
    (flv_tag_header_write sample_tag (replicate 12 7) 12 >>= λ r. flv_tag_header_read r.1 12)
    ≡ done (11, sample_tag)
flv_tag_header_read-write_example =
    flv_tag_header_read-write sample_tag (replicate 12 7) 12 sample_tag-IsTagHeader (omega arith)
      (omega arith)

abbrev mp3 : FlvAudioTagHeader
mp3 = record { codecid = 0x20; rate = 2; bits = 1; channels = 0; avpacket = 0 }

abbrev aac : FlvAudioTagHeader
aac = record { codecid = 0xA0; rate = 3; bits = 1; channels = 1; avpacket = 1 }

mp3-IsAudioTag : IsAudioTag mp3
mp3-IsAudioTag = omega arith

aac-IsAudioTag : IsAudioTag aac
aac-IsAudioTag = omega arith

flv_audio_tag_header_read-write_example :
    (flv_audio_tag_header_write mp3 (5 ∷ 5 ∷ []) 2 >>= λ w. flv_audio_tag_header_read aac w.1 2)
    ≡ done (1, record mp3 { avpacket = 1 })
flv_audio_tag_header_read-write_example =
    flv_audio_tag_header_read-write aac mp3 (5 ∷ 5 ∷ []) 2 mp3-IsAudioTag (omega arith)
      (omega arith)

-- -40 as an int32_t.
abbrev frame : FlvVideoTagHeader
frame = record { codecid = 7; keyframe = 1; avpacket = 1; cts = 0xFFFFFFD8 }

frame-IsVideoTag : IsVideoTag frame
frame-IsVideoTag = record {
  keyframe_bits = omega arith;
  codec_bits = omega arith;
  packet = omega arith;
  cts_signed24 = inr (omega arith);
  cts_word = omega arith;
}

flv_video_tag_header_read-write_example :
    (flv_video_tag_header_write frame (replicate 6 0) 6 >>= λ w.
    flv_video_tag_header_read frame w.1 6)
    ≡ done (5, frame)
flv_video_tag_header_read-write_example =
    flv_video_tag_header_read-write frame frame (replicate 6 0) 6 frame-IsVideoTag (omega arith)
      (omega arith)

sign_extend24_lem_example : sign_extend24 0xFFFFD8 ≡ 0xFFFFFFD8
sign_extend24_lem_example = sign_extend24_lem 0xFFFFFFD8 (omega arith) (inr (omega arith))

-- A handler that returns what tells its calls apart.
abbrev codec_handler : FlvPacket → Outcome ℕ
codec_handler packet = done packet.codec

abbrev pts_handler : FlvPacket → Outcome ℕ
pts_handler packet = done packet.pts

flv_parser_input-audio_example :
    (flv_audio_tag_header_write aac (0 ∷ 0 ∷ 9 ∷ []) 3 >>= λ w.
    flv_parser_input codec_handler mp3 frame flv_type_audio w.1 3 40)
    ≡ done 0xA0
flv_parser_input-audio_example =
    flv_parser_input-audio codec_handler mp3 frame aac (0 ∷ 0 ∷ 9 ∷ []) 3 40 aac-IsAudioTag refl
      (omega arith) (omega arith)

flv_parser_input-unset_packet_example :
    (flv_audio_tag_header_write mp3 (0 ∷ 9 ∷ []) 2 >>= λ w.
    flv_parser_input codec_handler mp3 frame flv_type_audio w.1 2 40)
    ≡ done 0x101
flv_parser_input-unset_packet_example =
    flv_parser_input-unset_packet codec_handler mp3 frame mp3 (0 ∷ 9 ∷ []) 2 40 mp3-IsAudioTag refl
      (omega arith) (omega arith)

flv_parser_input-video_example :
    (flv_video_tag_header_write frame (0 ∷ 0 ∷ 0 ∷ 0 ∷ 0 ∷ 9 ∷ []) 6 >>= λ w.
    flv_parser_input pts_handler mp3 frame flv_type_video w.1 6 100)
    ≡ done 60
flv_parser_input-video_example =
    flv_parser_input-video pts_handler mp3 frame frame (0 ∷ 0 ∷ 0 ∷ 0 ∷ 0 ∷ 9 ∷ []) 6 100
      frame-IsVideoTag (omega arith) (omega arith)
