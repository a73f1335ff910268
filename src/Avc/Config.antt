-- ===== src/Avc/Config.antt =====
-- src/media-server/libflv/include/mpeg4-avc.h: the parameter sets of an H.264 stream.
use stream.Base.{ℕ, List, ◌++◌, length, drop}

-- struct mpeg4_avc_t, less the bytes of `data`. A parameter set is the list of the bytes that its
-- `data` points at, `bytes` is its length, and `sps` and `pps` are the whole arrays.
pub record Avc : Type 0 where
  pub profile : ℕ
  pub compatibility : ℕ
  pub level : ℕ
  pub nalu : ℕ
  pub nb_sps : ℕ
  pub nb_pps : ℕ
  pub sps : List (List ℕ)
  pub pps : List (List ℕ)
  pub chroma_format_idc : ℕ
  pub bit_depth_luma_minus8 : ℕ
  pub bit_depth_chroma_minus8 : ℕ
  pub off : ℕ

-- The sizes of the arrays.
abbrev pub sps_capacity : ℕ
sps_capacity = 32

abbrev pub pps_capacity : ℕ
pps_capacity = 256

abbrev pub data_capacity : ℕ
data_capacity = 4096

-- An array whose first entries are set.
abbrev pub replace_first {ℓ} : {A : Type ℓ} → List A → List A → List A
replace_first new old = new ++ drop (length new) old
