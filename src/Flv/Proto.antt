-- ===== src/Flv/Proto.antt =====
-- src/media-server/libflv/include/flv-header.h and flv-proto.h: the structures and the codes.
-- A field of an unsigned type is a number below its width; `cts`, an int32_t, is its bit pattern.
use stream.Base.{ℕ, List, Bool, ◌||◌, ◌==◌}

pub record FlvHeader : Type 0 where
  pub flv : List ℕ
  pub version : ℕ
  pub audio : ℕ
  pub video : ℕ
  pub offset : ℕ

pub record FlvTagHeader : Type 0 where
  pub filter : ℕ
  pub type : ℕ
  pub size : ℕ
  pub timestamp : ℕ
  pub stream_id : ℕ

pub record FlvAudioTagHeader : Type 0 where
  pub codecid : ℕ
  pub rate : ℕ
  pub bits : ℕ
  pub channels : ℕ
  pub avpacket : ℕ

pub record FlvVideoTagHeader : Type 0 where
  pub codecid : ℕ
  pub keyframe : ℕ
  pub avpacket : ℕ
  pub cts : ℕ

abbrev pub flv_sequence_header : ℕ
flv_sequence_header = 0

abbrev pub flv_avpacket : ℕ
flv_avpacket = 1

abbrev pub flv_end_of_sequence : ℕ
flv_end_of_sequence = 2

abbrev pub flv_video_key_frame : ℕ
flv_video_key_frame = 1

abbrev pub flv_type_audio : ℕ
flv_type_audio = 8

abbrev pub flv_type_video : ℕ
flv_type_video = 9

abbrev pub flv_type_script : ℕ
flv_type_script = 18

abbrev pub flv_audio_mp3 : ℕ
flv_audio_mp3 = 0x20

abbrev pub flv_audio_aac : ℕ
flv_audio_aac = 0xA0

abbrev pub flv_audio_opus : ℕ
flv_audio_opus = 0xD0

abbrev pub flv_audio_asc : ℕ
flv_audio_asc = 0x100

abbrev pub flv_audio_opus_head : ℕ
flv_audio_opus_head = 0x101

abbrev pub flv_video_h264 : ℕ
flv_video_h264 = 7

abbrev pub flv_video_h265 : ℕ
flv_video_h265 = 12

abbrev pub flv_video_av1 : ℕ
flv_video_av1 = 14

abbrev pub flv_video_avcc : ℕ
flv_video_avcc = 0x200

abbrev pub flv_video_hvcc : ℕ
flv_video_hvcc = 0x201

abbrev pub flv_video_av1c : ℕ
flv_video_av1c = 0x202

abbrev pub flv_header_size : ℕ
flv_header_size = 9

abbrev pub flv_tag_header_size : ℕ
flv_tag_header_size = 11

-- The conditions that the functions of flv-header.c and flv-parser.c repeat.
abbrev pub is_tag_type : ℕ → Bool
is_tag_type t = t == flv_type_video || t == flv_type_audio || t == flv_type_script

abbrev pub is_packet_audio : ℕ → Bool
is_packet_audio codecid = codecid == flv_audio_aac || codecid == flv_audio_opus

abbrev pub is_packet_video : ℕ → Bool
is_packet_video codecid =
    codecid == flv_video_h264 || codecid == flv_video_h265 || codecid == flv_video_av1
