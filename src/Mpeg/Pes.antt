-- ===== src/Mpeg/Pes.antt =====
-- src/media-server/libmpeg/source/mpeg-pes.c: the header of a PES packet.
use stream.Base.{
  ℕ, zero, suc, List, [], ◌∷◌, ◌++◌, ◌+◌, ◌-◌, ◌^◌, ◌==◌, ◌&&◌, ◌||◌, bit_and, bit_or, u32, ◌<<<◌,
  ◌>>>◌, ltb, if◌then◌else◌, length, Outcome, done, ◌>>=◌, ◌>>◌, assert, Bool, true, false,
}
use stream.Base.Buffer.{load, store}
use stream.Mpeg.Timestamp.{pts_no_value, timestamp_bytes, timestamp_at}

-- The fields of struct pes_t that mpeg-pes.c reads or writes. The times are bit patterns of int64_t.
pub record Pes : Type 0 where
  pub sid : ℕ
  pub len : ℕ
  pub scrambling_control : ℕ
  pub priority : ℕ
  pub data_alignment_indicator : ℕ
  pub copyright : ℕ
  pub original_or_copy : ℕ
  pub pts_dts_flags : ℕ
  pub escr_flag : ℕ
  pub es_rate_flag : ℕ
  pub dsm_trick_mode_flag : ℕ
  pub additional_copy_info_flag : ℕ
  pub pes_crc_flag : ℕ
  pub pes_extension_flag : ℕ
  pub header_data_length : ℕ
  pub pts : ℕ
  pub dts : ℕ
  pub escr_base : ℕ
  pub escr_extension : ℕ
  pub es_rate : ℕ

abbrev pub pes_sid_video : ℕ
pes_sid_video = 0xE0

-- `a != b`
abbrev pub differs : ℕ → ℕ → Bool
differs a b = if a == b then false else true

-- `(data[i] >> k) & 1`
abbrev pub bit_at : ℕ → ℕ → ℕ
bit_at k b = bit_and (b >>> k) 0x1

-- The optional fields of `pes_read_header`: each takes the index and the structure, and returns
-- the index behind the field.
unfoldable pub read_pts : List ℕ → ℕ × Pes → Outcome (ℕ × Pes)
read_pts buf (i, pes) =
    if differs (bit_and 0x02 pes.pts_dts_flags) 0
    then (do
      b ← load buf i
      assert (0x20 == bit_and b 0x20)
      pts ← timestamp_at buf i
      done (i + 5, record pes { pts = pts }))
    else done (i, pes)

unfoldable pub read_dts : List ℕ → ℕ × Pes → Outcome (ℕ × Pes)
read_dts buf (i, pes) =
    if differs (bit_and 0x01 pes.pts_dts_flags) 0
    then (do
      b ← load buf i
      assert (0x10 == bit_and b 0x10)
      dts ← timestamp_at buf i
      done (i + 5, record pes { dts = dts }))
    else if differs (bit_and 0x02 pes.pts_dts_flags) 0
    then done (i, record pes { dts = pes.pts })
    else done (i, pes)

unfoldable pub read_escr : List ℕ → ℕ × Pes → Outcome (ℕ × Pes)
read_escr buf (i, pes) =
    if differs pes.escr_flag 0
    then (do
      b0 ← load buf i
      b1 ← load buf (i + 1)
      b2 ← load buf (i + 2)
      b3 ← load buf (i + 3)
      b4 ← load buf (i + 4)
      b5 ← load buf (i + 5)
      let high = bit_or (bit_and (b0 >>> 3) 0x07 <<< 30) (bit_and b0 0x03 <<< 28)
      let middle = bit_or (bit_or high (b1 <<< 20)) (bit_and (b2 >>> 3) 0x1F <<< 15)
      let low = bit_or (bit_or middle (bit_and b2 0x3 <<< 13)) (b3 <<< 5)
      done (
        i + 6,
        record pes {
          escr_base = bit_or low (bit_and (b4 >>> 3) 0x1F);
          escr_extension = bit_or (bit_and b4 0x03 <<< 7) (bit_and (b5 >>> 1) 0x7F);
        },
      ))
    else done (i, pes)

unfoldable pub read_es_rate : List ℕ → ℕ × Pes → Outcome (ℕ × Pes)
read_es_rate buf (i, pes) =
    if differs pes.es_rate_flag 0
    then (do
      b0 ← load buf i
      b1 ← load buf (i + 1)
      b2 ← load buf (i + 2)
      done (
        i + 3,
        record pes {
          es_rate = bit_or (bit_or (bit_and b0 0x7F <<< 15) (b1 <<< 7)) (bit_and (b2 >>> 1) 0x7F);
        },
      ))
    else done (i, pes)

-- The rest of the function only moves the index past the trick mode, the copy information and the
-- CRC, and corrects the length.
unfoldable pub finish_header : ℕ × Pes → ℕ × Pes
finish_header (i, pes) =
    let len' = u32 (pes.len + 2 ^ 32 - (pes.header_data_length + 3)) in
    (pes.header_data_length + 9, (if ltb 0 pes.len then record pes { len = len' } else pes))

-- The returned length is 0 on an error.
unfoldable pub pes_read_header : Pes → List ℕ → ℕ → Outcome (ℕ × Pes)
pes_read_header pes buf bytes = do
  b0 ← load buf 0
  b1 ← load buf 1
  b2 ← load buf 2
  assert (0x00 == b0 && 0x00 == b1 && 0x01 == b2)
  b3 ← load buf 3
  b4 ← load buf 4
  b5 ← load buf 5
  b6 ← load buf 6
  assert (0x02 == bit_and (b6 >>> 6) 0x3)
  b7 ← load buf 7
  b8 ← load buf 8
  let pes' = record pes {
    sid = b3;
    len = bit_or (b4 <<< 8) b5;
    scrambling_control = bit_and (b6 >>> 4) 0x3;
    priority = bit_at 3 b6;
    data_alignment_indicator = bit_at 2 b6;
    copyright = bit_at 1 b6;
    original_or_copy = bit_and b6 0x1;
    pts_dts_flags = bit_and (b7 >>> 6) 0x3;
    escr_flag = bit_at 5 b7;
    es_rate_flag = bit_at 4 b7;
    dsm_trick_mode_flag = bit_at 3 b7;
    additional_copy_info_flag = bit_at 2 b7;
    pes_crc_flag = bit_at 1 b7;
    pes_extension_flag = bit_and b7 0x1;
    header_data_length = b8;
  }
  if ltb bytes (b8 + 9) then done (0, pes') else (do
    x ← read_pts buf (9, pes')
    y ← read_dts buf x
    z ← read_escr buf y
    w ← read_es_rate buf z
    done (finish_header w))

-- The flags and the length of the optional part that `pes_write_header` writes.
abbrev pub has_pts : Pes → Bool
has_pts pes = differs pts_no_value pes.pts

abbrev pub has_dts : Pes → Bool
has_dts pes = differs pts_no_value pes.dts && differs pes.dts pes.pts

abbrev pub write_flags : Pes → ℕ
write_flags pes = bit_or (if has_pts pes then 0x80 else 0) (if has_dts pes then 0x40 else 0)

abbrev pub write_len : Pes → ℕ
write_len pes = (if has_pts pes then 5 else 0) + (if has_dts pes then 5 else 0)

abbrev pub time_bytes : Pes → List ℕ
time_bytes pes =
    (if has_pts pes then timestamp_bytes (bit_and (write_flags pes >>> 2) 0x30) pes.pts else [])
    ++ (if has_dts pes then timestamp_bytes 0x10 pes.dts else [])

-- Bytes 4 and 5 are left to the caller. The returned length is 0 on an error.
unfoldable pub pes_write_header : Pes → List ℕ → ℕ → Outcome (ℕ × List ℕ)
pes_write_header pes buf bytes = if ltb bytes 9 then done (0, buf) else (do
  out ← store 0 (0x00 ∷ 0x00 ∷ 0x01 ∷ pes.sid ∷ []) buf
  assert (pts_no_value == pes.dts || pes.pts == pes.dts || pes_sid_video == pes.sid)
  let b6 = if differs pes.data_alignment_indicator 0 then bit_or 0x80 0x04 else 0x80
  out' ← store 6 (b6 ∷ write_flags pes ∷ write_len pes ∷ []) out
  if ltb bytes (write_len pes + 9)
      then done (0, out')
      else (do out'' ← store 9 (time_bytes pes) out'; done (9 + length (time_bytes pes), out'')))

-- `for (i = 6; data[i] == 0xFF && i < bytes; ) i++`, with `bytes - i + 1` rounds for fuel.
unfoldable pub skip_stuffing : ℕ → List ℕ → ℕ → ℕ → Outcome ℕ
skip_stuffing zero buf bytes i = done i
skip_stuffing (suc fuel) buf bytes i =
    let rest = skip_stuffing fuel buf bytes (i + 1) in
    do b ← load buf i; if b == 0xFF && ltb i bytes then rest else done i

unfoldable pub pes_read_mpeg1_header : Pes → List ℕ → ℕ → Outcome (ℕ × Pes)
pes_read_mpeg1_header pes buf bytes = do
  b0 ← load buf 0
  b1 ← load buf 1
  b2 ← load buf 2
  assert (0x00 == b0 && 0x00 == b1 && 0x01 == b2)
  sid ← load buf 3
  b4 ← load buf 4
  b5 ← load buf 5
  i ← skip_stuffing (bytes + 1) buf bytes 6
  b ← load buf i
  let j = if 0x40 == bit_and 0xC0 b then i + 2 else i
  c ← load buf j
  let pes' = record pes { sid = sid; len = bit_or (b4 <<< 8) b5 }
  let finish = λ (n : ℕ) (p : Pes).
      let q : ℕ × Pes = (n, record p { len = u32 (p.len + 2 ^ 32 - (n - 6)) }) in done q
  if 0x20 == bit_and 0xF0 c
      then (do pts ← timestamp_at buf j; finish (j + 5) (record pes' { pts = pts }))
      else if 0x30 == bit_and 0xF0 c
      then (do
        pts ← timestamp_at buf j
        dts ← timestamp_at buf (j + 5)
        finish (j + 10) (record pes' { pts = pts; dts = dts }))
      else (do assert (0x0F == c); finish (j + 1) pes')
