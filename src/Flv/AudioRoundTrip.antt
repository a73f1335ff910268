-- ===== src/Flv/AudioRoundTrip.antt =====
-- src/media-server/libflv/source/flv-header.c: the header of an audio tag is read back.
use stream.Base.{
  ℕ, List, [], ◌∷◌, ◌++◌, bit_and, bit_or, ◌+◌, ◌*◌, ◌%◌, ◌≤◌, ◌<◌, ◌≡◌, true, arith, u8, ◌<<<◌,
  ◌>>>◌, length, drop, done, ◌>>=◌, le→leb, lt→ltb, le→ltb_false, if◌then◌else◌, ◌==◌, Bool-cases,
  inl, inr, ◌⊎◌, ◌||◌,
}
use stream.Base.Bits.{mask_low, mask_field, or_low}
use stream.Base.Buffer.{store-front}
use stream.Flv.Proto.{FlvAudioTagHeader, is_packet_audio}
use stream.Flv.Read.{flv_audio_tag_header_read}
use stream.Flv.Write.{flv_audio_tag_header_write}

-- The values that the fields of an audio tag header can carry.
pub record IsAudioTag (audio : FlvAudioTagHeader) : Type 0 where
  pub codec_bits : audio.codecid % 16 ≡ 0
  pub codec_byte : audio.codecid < 256
  pub rate_bits : audio.rate < 4
  pub sample_bit : audio.bits < 2
  pub channel_bit : audio.channels < 2
  pub packet : audio.avpacket < 2

-- What a written header says: AAC and Opus are always marked 44 kHz, 16 bits, stereo; the other
-- codecs carry no packet type, and the reader leaves that field as it was.
abbrev pub carried_audio : FlvAudioTagHeader → FlvAudioTagHeader → FlvAudioTagHeader
carried_audio old audio =
    if is_packet_audio audio.codecid
    then record audio { rate = 3; bits = 1; channels = 1 }
    else record audio { avpacket = old.avpacket }

abbrev pub audio_header_size : FlvAudioTagHeader → ℕ
audio_header_size audio = if is_packet_audio audio.codecid then 2 else 1

packet_codec : (c : ℕ) → is_packet_audio c ≡ true → (c ≡ 0xA0) ⊎ (c ≡ 0xD0)
packet_codec c h = ground arith

packet_assert : (a : ℕ) → a < 2 → (0 == a || 1 == a) ≡ true
packet_assert a h = ground arith

packet_byte :
    (c : ℕ)
    → (c ≡ 0xA0) ⊎ (c ≡ 0xD0)
    → u8 (bit_or (bit_or (bit_or c (3 <<< 2)) (1 <<< 1)) 1) ≡ c + 15
packet_byte c (inl e) = rw e
packet_byte c (inr e) = rw e

sum_fifteen : (c : ℕ) → c + 15 ≡ c + 3 * 4 + 1 * 2 + 1
sum_fifteen c = omega arith

audio_byte :
    (c r b ch : ℕ)
    → c % 16 ≡ 0
    → c < 256
    → r < 4
    → b < 2
    → ch < 2
    → u8
        (bit_or (bit_or (bit_or c (bit_and r 0x03 <<< 2)) (bit_and b 0x01 <<< 1)) (bit_and ch 0x01))
      ≡ c + r * 4 + b * 2 + ch
audio_byte c r b ch p q s t u = ground (
  arith,
  mask_low 2 r,
  mask_low 1 b,
  mask_low 1 ch,
  or_low 4 c (r * 4),
  or_low 2 (c + r * 4) (b * 2),
  or_low 1 (c + r * 4 + b * 2) ch,
)

audio_fields :
    (c r b ch : ℕ)
    → c % 16 ≡ 0
    → c < 256
    → r < 4
    → b < 2
    → ch < 2
    → let x = c + r * 4 + b * 2 + ch in
      (bit_and x 0xF0 ≡ c)
      × (bit_and x 0x0C >>> 2 ≡ r)
      × (bit_and x 0x02 >>> 1 ≡ b)
      × (bit_and x 0x01 ≡ ch)
audio_fields c r b ch p q s t u =
    let x = c + r * 4 + b * 2 + ch in
    omega (arith, mask_field 4 4 x, mask_field 2 2 x, mask_field 1 1 x, mask_low 1 x)

-- The bytes of a written header, as numbers.
abbrev pub audio_bytes : FlvAudioTagHeader → List ℕ
audio_bytes audio =
    if is_packet_audio audio.codecid
    then (audio.codecid + 15) ∷ audio.avpacket ∷ []
    else (audio.codecid + audio.rate * 4 + audio.bits * 2 + audio.channels) ∷ []

pub flv_audio_tag_header_write-bytes :
    (audio : FlvAudioTagHeader) (buf : List ℕ) (len : ℕ)
    → IsAudioTag audio
    → audio_header_size audio ≤ len
    → audio_header_size audio ≤ length buf
    → flv_audio_tag_header_write audio buf len
      ≡ done (audio_header_size audio, audio_bytes audio ++ drop (audio_header_size audio) buf)
unfolding flv_audio_tag_header_write
flv_audio_tag_header_write-bytes audio buf len v p q =
    elim (Bool-cases (is_packet_audio audio.codecid)) [
      | inl e ↦ rw (
        e,
        le→ltb_false 2 len (rw e at p),
        packet_byte audio.codecid (packet_codec _ e),
        packet_assert audio.avpacket v.packet,
        store-front ((audio.codecid + 15) ∷ audio.avpacket ∷ []) buf (rw e at q),
      )
      | inr e ↦ rw (
        e,
        le→ltb_false 1 len (rw e at p),
        audio_byte audio.codecid audio.rate audio.bits audio.channels v.codec_bits v.codec_byte
            v.rate_bits v.sample_bit v.channel_bit,
        store-front ((audio.codecid + audio.rate * 4 + audio.bits * 2 + audio.channels) ∷ []) buf
            (rw e at q),
      )
    ]

pub flv_audio_tag_header_read-bytes :
    (old audio : FlvAudioTagHeader) (rest : List ℕ) (len : ℕ)
    → IsAudioTag audio
    → audio_header_size audio ≤ len
    → flv_audio_tag_header_read old (audio_bytes audio ++ rest) len
      ≡ done (audio_header_size audio, carried_audio old audio)
unfolding flv_audio_tag_header_read
flv_audio_tag_header_read-bytes old audio rest len v p =
    elim (Bool-cases (is_packet_audio audio.codecid)) [
      | inl e ↦
          let (codec, rate, bits, channels) =
            audio_fields audio.codecid 3 1 1 v.codec_bits v.codec_byte (omega arith) (omega arith)
              (omega arith) in
          rw (
            e,
            sum_fifteen audio.codecid,
            lt→ltb 0 len (let h : 2 ≤ len = rw e at p in omega arith),
            codec,
            e,
            rate,
            bits,
            channels,
            le→leb 2 len (rw e at p),
            packet_assert audio.avpacket v.packet,
          )
      | inr e ↦
          let (codec, rate, bits, channels) =
            audio_fields audio.codecid audio.rate audio.bits audio.channels v.codec_bits
              v.codec_byte v.rate_bits v.sample_bit v.channel_bit in
          rw (e, lt→ltb 0 len (rw e at p), codec, e, rate, bits, channels)
    ]

-- An audio tag header is read back from the buffer that it was written into, as `carried_audio`
-- says, whatever the reader's structure held before.
pub flv_audio_tag_header_read-write :
    (old audio : FlvAudioTagHeader) (buf : List ℕ) (len : ℕ)
    → IsAudioTag audio
    → audio_header_size audio ≤ len
    → audio_header_size audio ≤ length buf
    → (flv_audio_tag_header_write audio buf len >>= λ w. flv_audio_tag_header_read old w.1 len)
      ≡ done (audio_header_size audio, carried_audio old audio)
flv_audio_tag_header_read-write old audio buf len v p q =
    rw (flv_audio_tag_header_write-bytes audio buf len v p q)
      (flv_audio_tag_header_read-bytes old audio _ len v p)
