-- ===== src/Flv/Parser.antt =====
-- src/media-server/libflv/source/flv-parser.c: the body of a tag is taken apart and its payload
-- handed to a handler.
use stream.Base.{
  ℕ, List, ◌+◌, ◌-◌, ◌==◌, ltb, if◌then◌else◌, u32, drop, Outcome, done, fault, ◌>>=◌, ◌>>◌,
  fail_if,
}
use stream.Flv.Proto.{
  FlvAudioTagHeader, FlvVideoTagHeader, flv_sequence_header, flv_avpacket, flv_end_of_sequence,
  flv_video_key_frame, flv_type_audio, flv_type_video, flv_type_script, flv_audio_aac,
  flv_audio_asc, flv_audio_opus_head, flv_video_h264, flv_video_h265, flv_video_avcc,
  flv_video_hvcc, flv_video_av1c, is_packet_video,
}
use stream.Flv.Read.{flv_audio_tag_header_read, flv_video_tag_header_read, flv_data_tag_header_read}

-- The arguments of a call of the handler.
pub record FlvPacket : Type 0 where
  pub codec : ℕ
  pub payload : List ℕ
  pub bytes : ℕ
  pub pts : ℕ
  pub dts : ℕ
  pub flags : ℕ

-- The call with `buf + n, bytes - n` for the payload.
abbrev pub packet_at : ℕ → List ℕ → ℕ → ℕ → ℕ → ℕ → ℕ → FlvPacket
packet_at n buf bytes codec pts dts flags = record {
  codec = codec;
  payload = drop n buf;
  bytes = bytes - n;
  pts = pts;
  dts = dts;
  flags = flags;
}

-- EINVAL
abbrev pub einval : ℕ
einval = 22

-- The structures that the functions read into are locals that nothing initialises: `audio` and
-- `video` stand for what they hold on entry.
module _ (handler : FlvPacket → Outcome ℕ) where
  unfoldable pub flv_parser_audio : FlvAudioTagHeader → List ℕ → ℕ → ℕ → Outcome ℕ
  flv_parser_audio audio buf bytes timestamp = do
    (n, audio') ← flv_audio_tag_header_read audio buf bytes
    let packet = λ (codec : ℕ). packet_at n buf bytes codec timestamp timestamp 0
    if flv_sequence_header == audio'.avpacket
        then handler (
            packet (if flv_audio_aac == audio'.codecid then flv_audio_asc else flv_audio_opus_head))
        else handler (packet audio'.codecid)

-- FLV_VIDEO_CODEC_NAME
abbrev pub flv_video_codec_name : ℕ → ℕ
flv_video_codec_name codecid =
    if flv_video_h264 == codecid
    then flv_video_avcc
    else if flv_video_h265 == codecid
    then flv_video_hvcc
    else flv_video_av1c

abbrev pub key_flag : ℕ → ℕ
key_flag keyframe = if flv_video_key_frame == keyframe then 1 else 0

module _ (handler : FlvPacket → Outcome ℕ) where
  unfoldable pub flv_parser_video : FlvVideoTagHeader → List ℕ → ℕ → ℕ → Outcome ℕ
  flv_parser_video video buf bytes timestamp = do
    (n, video') ← flv_video_tag_header_read video buf bytes
    let packet = λ (codec pts flags : ℕ). packet_at n buf bytes codec pts timestamp flags
    if is_packet_video video'.codecid
        then (if flv_sequence_header == video'.avpacket
            then handler (packet (flv_video_codec_name video'.codecid) timestamp 0)
            else if flv_avpacket == video'.avpacket
            then handler
                (packet video'.codecid (u32 (timestamp + video'.cts)) (key_flag video'.keyframe))
            else if flv_end_of_sequence == video'.avpacket
            then done 0
            else fault)
        else handler (packet video'.codecid timestamp (key_flag video'.keyframe))

  unfoldable pub flv_parser_script : List ℕ → ℕ → ℕ → Outcome ℕ
  flv_parser_script buf bytes timestamp = do
    n ← flv_data_tag_header_read buf bytes
    handler (packet_at n buf bytes 0 timestamp timestamp 0)

  unfoldable pub flv_parser_input :
      FlvAudioTagHeader → FlvVideoTagHeader → ℕ → List ℕ → ℕ → ℕ → Outcome ℕ
  flv_parser_input audio video type buf bytes timestamp = do
    fail_if (ltb bytes 1) einval
    if type == flv_type_audio
        then flv_parser_audio handler audio buf bytes timestamp
        else if type == flv_type_video
        then flv_parser_video video buf bytes timestamp
        else if type == flv_type_script
        then flv_parser_script buf bytes timestamp
        else fault
