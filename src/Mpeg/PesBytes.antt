-- ===== src/Mpeg/PesBytes.antt =====
-- src/media-server/libmpeg/source/mpeg-pes.c: the bytes that pes_write_header writes.
use stream.Base.{
  ℕ, List, [], ◌∷◌, ◌++◌, ◌+◌, ◌-◌, ◌/◌, ◌^◌, ◌≤◌, ◌<◌, ◌≡◌, ◌⊎◌, ◌==◌, ◌||◌, u32, ltb,
  le→ltb_false, if◌then◌else◌, length, drop, true, arith, done,
}
use stream.Base.Buffer.{store-front, store-behind}
use stream.Mpeg.Timestamp.{pts_no_value, timestamp_bytes}
use stream.Mpeg.Pes.{
  Pes, pes_sid_video, differs, has_pts, has_dts, write_flags, write_len, time_bytes,
  pes_write_header,
}

-- What a header can carry: 33-bit times; a decoding time other than the presentation time only of
-- a video stream that has both.
pub record IsCarriedPes (p : Pes) : Type 0 where
  pub alignment_bit : p.data_alignment_indicator < 2
  pub pts_bits : (p.pts ≡ pts_no_value) ⊎ (p.pts < 2 ^ 33)
  pub dts_bits : (p.dts ≡ pts_no_value) ⊎ (p.dts < 2 ^ 33)
  pub dts_allowed :
      (p.dts ≡ pts_no_value) ⊎ (p.dts ≡ p.pts) ⊎ ((p.sid ≡ pes_sid_video) × (p.pts < 2 ^ 33))

-- The structure after reading: the written fields, the length that the caller put into bytes 4
-- and 5 less the header, and a decoding time equal to the presentation time where only the
-- latter is written. Times that are not written stay as they were.
abbrev pub carried_pes : Pes → Pes → ℕ → Pes
carried_pes old p len = record old {
  sid = p.sid;
  len = if ltb 0 len then u32 (len + 2 ^ 32 - (write_len p + 3)) else len;
  scrambling_control = 0;
  priority = 0;
  data_alignment_indicator = p.data_alignment_indicator;
  copyright = 0;
  original_or_copy = 0;
  pts_dts_flags = write_flags p / 64;
  escr_flag = 0;
  es_rate_flag = 0;
  dsm_trick_mode_flag = 0;
  additional_copy_info_flag = 0;
  pes_crc_flag = 0;
  pes_extension_flag = 0;
  header_data_length = write_len p;
  pts = if has_pts p then p.pts else old.pts;
  dts = if has_dts p then p.dts else if has_pts p then p.pts else old.dts;
}

-- The header that is written, around the two bytes that are left alone.
unfoldable pub header_bytes : Pes → ℕ → ℕ → List ℕ
header_bytes p l0 l1 =
    0x00
    ∷ 0x00
    ∷ 0x01
    ∷ p.sid
    ∷ l0
    ∷ l1
    ∷ (if differs p.data_alignment_indicator 0 then 0x84 else 0x80)
    ∷ write_flags p
    ∷ write_len p
    ∷ []

allowed :
    (p : Pes)
    → IsCarriedPes p
    → (pts_no_value == p.dts || p.pts == p.dts || pes_sid_video == p.sid) ≡ true
allowed p v = ground arith

pub length-time_bytes : (p : Pes) → length (time_bytes p) ≡ write_len p
unfolding timestamp_bytes
length-time_bytes p = ground arith

module _ (p : Pes) (x0 x1 x2 x3 l0 l1 x6 x7 x8 : ℕ) (tail : List ℕ) (bytes : ℕ) where
  pub pes_write_header-bytes :
      IsCarriedPes p
      → write_len p + 9 ≤ bytes
      → write_len p ≤ length tail
      → pes_write_header p (x0 ∷ x1 ∷ x2 ∷ x3 ∷ l0 ∷ l1 ∷ x6 ∷ x7 ∷ x8 ∷ tail) bytes
        ≡ done (9 + write_len p, header_bytes p l0 l1 ++ (time_bytes p ++ drop (write_len p) tail))
  unfolding pes_write_header header_bytes
  pes_write_header-bytes v room fits = rw (
    le→ltb_false 9 bytes (omega arith),
    store-front (0x00 ∷ 0x00 ∷ 0x01 ∷ p.sid ∷ [])
        (x0 ∷ x1 ∷ x2 ∷ x3 ∷ l0 ∷ l1 ∷ x6 ∷ x7 ∷ x8 ∷ tail) (omega arith),
    allowed p v,
    store-behind (0x00 ∷ 0x00 ∷ 0x01 ∷ p.sid ∷ l0 ∷ l1 ∷ [])
        ((if differs p.data_alignment_indicator 0 then 0x84 else 0x80)
          ∷ write_flags p
          ∷ write_len p
          ∷ [])
        (x6 ∷ x7 ∷ x8 ∷ tail) (omega arith),
    le→ltb_false (write_len p + 9) bytes room,
    store-behind (header_bytes p l0 l1) (time_bytes p) tail (rw (length-time_bytes p) fits),
    length-time_bytes p,
  )
