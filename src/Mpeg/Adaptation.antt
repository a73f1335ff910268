-- ===== src/Mpeg/Adaptation.antt =====
-- src/media-server/libmpeg/source/mpeg-util.c (`pcr_write`) and mpeg-ts-dec.c
-- (`adaptation_filed_read`): the adaptation field of a transport stream packet and its clocks.
use stream.Base.{
  ℕ, List, [], ◌∷◌, ◌+◌, ◌/◌, ◌%◌, bit_and, bit_or, ◌<<<◌, ◌>>>◌, ltb, leb, if◌then◌else◌, Outcome,
  done, ◌>>=◌, ◌>>◌, assert,
}
use stream.Base.Buffer.{load, store}
use stream.Mpeg.Pes.{differs, bit_at}

-- The six bytes that `pcr_write` stores for a clock that is not negative.
unfoldable pub pcr_bytes : ℕ → List ℕ
pcr_bytes pcr =
    let base = pcr / 300 in
    let ext = pcr % 300 in
    bit_and (base >>> 25) 0xFF
    ∷ bit_and (base >>> 17) 0xFF
    ∷ bit_and (base >>> 9) 0xFF
    ∷ bit_and (base >>> 1) 0xFF
    ∷ bit_or (bit_or (bit_and base 0x01 <<< 7) 0x7E) (bit_and (ext >>> 8) 0x01)
    ∷ bit_and ext 0xFF
    ∷ []

-- `ptr` is an index of the buffer.
unfoldable pub pcr_write : ℕ → ℕ → List ℕ → Outcome (List ℕ)
pcr_write ptr pcr buf = store ptr (pcr_bytes pcr) buf

-- The fields of struct ts_adaptation_field_t that `adaptation_filed_read` sets.
pub record TsAdaptationField : Type 0 where
  pub adaptation_field_length : ℕ
  pub discontinuity_indicator : ℕ
  pub random_access_indicator : ℕ
  pub elementary_stream_priority_indicator : ℕ
  pub pcr_flag : ℕ
  pub opcr_flag : ℕ
  pub splicing_point_flag : ℕ
  pub transport_private_data_flag : ℕ
  pub adaptation_field_extension_flag : ℕ
  pub program_clock_reference_base : ℕ
  pub program_clock_reference_extension : ℕ
  pub original_program_clock_reference_base : ℕ
  pub original_program_clock_reference_extension : ℕ
  pub splice_countdown : ℕ
  pub transport_private_data_length : ℕ
  pub adaptation_field_extension_length : ℕ
  pub ltw_flag : ℕ
  pub piecewise_rate_flag : ℕ
  pub seamless_splice_flag : ℕ

-- The 33 bits of either clock.
unfoldable pub clock_base : ℕ → ℕ → ℕ → ℕ → ℕ → ℕ
clock_base b0 b1 b2 b3 b4 =
    bit_or (bit_or (bit_or (bit_or (b0 <<< 25) (b1 <<< 17)) (b2 <<< 9)) (b3 <<< 1)) (bit_at 7 b4)

-- The optional parts: each takes the index and the structure, and returns the index behind it.
unfoldable pub read_pcr : List ℕ → ℕ × TsAdaptationField → Outcome (ℕ × TsAdaptationField)
read_pcr buf (i, adp) =
    if differs adp.pcr_flag 0
    then (do
      b0 ← load buf i
      b1 ← load buf (i + 1)
      b2 ← load buf (i + 2)
      b3 ← load buf (i + 3)
      b4 ← load buf (i + 4)
      b5 ← load buf (i + 5)
      done (
        i + 6,
        record adp {
          program_clock_reference_base = clock_base b0 b1 b2 b3 b4;
          program_clock_reference_extension = bit_or (bit_and b4 0x01 <<< 8) b5;
        },
      ))
    else done (i, adp)

unfoldable pub read_opcr : List ℕ → ℕ × TsAdaptationField → Outcome (ℕ × TsAdaptationField)
read_opcr buf (i, adp) =
    if differs adp.opcr_flag 0
    then (do
      b0 ← load buf i
      b1 ← load buf (i + 1)
      b2 ← load buf (i + 2)
      b3 ← load buf (i + 3)
      b4 ← load buf (i + 4)
      b5 ← load buf (i + 5)
      done (
        i + 6,
        record adp {
          original_program_clock_reference_base = clock_base b0 b1 b2 b3 b4;
          original_program_clock_reference_extension = bit_or (bit_and b4 0x01 <<< 1) b5;
        },
      ))
    else done (i, adp)

unfoldable pub read_splice : List ℕ → ℕ × TsAdaptationField → Outcome (ℕ × TsAdaptationField)
read_splice buf (i, adp) =
    if differs adp.splicing_point_flag 0
    then (do b ← load buf i; done (i + 1, record adp { splice_countdown = b }))
    else done (i, adp)

unfoldable pub read_private : List ℕ → ℕ × TsAdaptationField → Outcome (ℕ × TsAdaptationField)
read_private buf (i, adp) =
    if differs adp.transport_private_data_flag 0
    then (do b ← load buf i; done (i + 1 + b, record adp { transport_private_data_length = b }))
    else done (i, adp)

-- The index is not used behind the extension.
unfoldable pub read_extension : List ℕ → ℕ × TsAdaptationField → Outcome TsAdaptationField
read_extension buf (i, adp) =
    if differs adp.adaptation_field_extension_flag 0
    then (do
      b ← load buf i
      c ← load buf (i + 1)
      done (record adp {
        adaptation_field_extension_length = b;
        ltw_flag = bit_at 7 c;
        piecewise_rate_flag = bit_at 6 c;
        seamless_splice_flag = bit_at 5 c;
      }))
    else done adp

-- Returns the number of bytes with the structure.
unfoldable pub adaptation_filed_read :
    TsAdaptationField → List ℕ → ℕ → Outcome (ℕ × TsAdaptationField)
adaptation_filed_read adp buf bytes = do
  assert (leb bytes 188)
  len ← load buf 0
  let adp' = record adp { adaptation_field_length = len }
  if ltb 0 len
      then (do
        b ← load buf 1
        let flags = record adp' {
          discontinuity_indicator = bit_at 7 b;
          random_access_indicator = bit_at 6 b;
          elementary_stream_priority_indicator = bit_at 5 b;
          pcr_flag = bit_at 4 b;
          opcr_flag = bit_at 3 b;
          splicing_point_flag = bit_at 2 b;
          transport_private_data_flag = bit_at 1 b;
          adaptation_field_extension_flag = bit_and b 0x01;
        }
        x ← read_pcr buf (2, flags)
        y ← read_opcr buf x
        z ← read_splice buf y
        w ← read_private buf z
        v ← read_extension buf w
        let out : ℕ × TsAdaptationField = (len + 1, v)
        done out)
      else done (len + 1, adp')
