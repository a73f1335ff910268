-- ===== src/Avc/Nalu.antt =====
-- src/media-server/libflv/source/mpeg4-avc.c and mpeg4-mp4toannexb.c: parameter sets and NAL units
-- with start codes, written into an array. Without DEBUG and H2645_FILTER_AUD, as in the build.
use stream.Base.{
  ℕ, zero, suc, List, [], ◌∷◌, ◌++◌, ◌+◌, ◌-◌, ◌^◌, ◌==◌, ◌&&◌, ◌||◌, ◌<<<◌, bit_and, ltb, leb, u32,
  if◌then◌else◌, Bool, true, false, length, take, drop, Outcome, done, failed, fault, assert, ◌>>=◌,
  ◌>>◌,
}
use stream.Base.Buffer.{load, store, first_bytes}
use stream.Avc.Config.{Avc}

abbrev pub start_code : List ℕ
start_code = 0 ∷ 0 ∷ 0 ∷ 1 ∷ []

-- `bytes >= 4 && H264_STARTCODE(p)`
unfoldable pub has_start_code : List ℕ → Bool
has_start_code (a ∷ b ∷ c ∷ d ∷ s) = a == 0 && (b == 0 && (c == 1 || (c == 0 && d == 1)))
has_start_code _ = false

abbrev pub nalu_of : List ℕ → List ℕ
nalu_of s = if has_start_code s then s else start_code ++ s

-- The loop over the sets of an array, where `n` are left: `room` is what the test wants beside the
-- bytes of a set. Returns the array and `k`.
unfoldable pub nalu_sets : ℕ → ℕ → List (List ℕ) → List ℕ → ℕ → ℕ → Outcome (List ℕ × ℕ)
nalu_sets room zero sets buf k bytes = done (buf, k)
nalu_sets room (suc n) [] buf k bytes = fault
nalu_sets room (suc n) (s ∷ sets) buf k bytes =
    if leb (k + length s + room) bytes
    then (do
      buf' ← store k (nalu_of s) buf
      nalu_sets room n sets buf' (k + length (nalu_of s)) bytes)
    else failed 1

unfoldable pub mpeg4_avc_to_nalu : Avc → List ℕ → ℕ → Outcome (List ℕ × ℕ)
mpeg4_avc_to_nalu avc buf bytes = do
  (buf', k) ← nalu_sets 4 avc.nb_sps avc.sps buf 0 bytes
  (buf'', k') ← nalu_sets 2 avc.nb_pps avc.pps buf' k bytes
  assert (ltb k' 0x7FFF)
  done (buf'', k')

-- The size of `n` sets with start codes.
unfoldable pub sets_size : ℕ → List (List ℕ) → ℕ
sets_size zero sets = 0
sets_size (suc n) [] = 0
sets_size (suc n) (s ∷ sets) = length s + 4 + sets_size n sets

unfoldable pub h264_sps_pps_size : Avc → ℕ
h264_sps_pps_size avc = sets_size avc.nb_sps avc.sps + sets_size avc.nb_pps avc.pps

-- `for (n = 0, i = 0; i < avc->nalu; i++) n = (n << 8) + src[i]`, from the value `n` on.
unfoldable pub nalu_length : ℕ → ℕ → List ℕ → Outcome ℕ
nalu_length n zero src = done n
nalu_length n (suc i) [] = fault
nalu_length n (suc i) (b ∷ src) = nalu_length (u32 ((n <<< 8) + b)) i src

abbrev pub h264_nal_idr : ℕ
h264_nal_idr = 5

abbrev pub h264_nal_sps : ℕ
h264_nal_sps = 7

abbrev pub h264_nal_pps : ℕ
h264_nal_pps = 8

-- `i = mpeg4_avc_to_nalu(avc, out, size); if (i <= 0) return 0; dst += i`
unfoldable pub insert_nalu : ℕ → Outcome (List ℕ × ℕ) → Outcome (Bool × List ℕ × ℕ)
insert_nalu dst (done (out, i)) = if i == 0 then failed 0 else done (true, out, dst + i)
insert_nalu dst (failed n) = failed 0
insert_nalu dst fault = fault

-- The switch on the type of a NAL unit: `sps_pps_flag`, the output and the index of `dst` in it.
unfoldable pub insert_sets : Avc → ℕ → Bool → List ℕ → ℕ → ℕ → Outcome (Bool × List ℕ × ℕ)
insert_sets avc kind true out size dst = done (true, out, dst)
insert_sets avc kind false out size dst =
    if kind == h264_nal_sps || kind == h264_nal_pps
    then done (true, out, dst)
    else if kind == h264_nal_idr
    then (do
      out' ← if dst == 0 then done out else store (h264_sps_pps_size avc) (take dst out) out
      insert_nalu dst (mpeg4_avc_to_nalu avc out' size))
    else done (false, out, dst)

-- The loop over the NAL units, where `left` is `end - src`. An int length that is not below
-- 2 ^ 31 is negative.
unfoldable pub nalu_loop : ℕ → Avc → List ℕ → ℕ → Bool → List ℕ → ℕ → ℕ → Outcome (List ℕ × ℕ)
nalu_loop zero avc src left flag out size dst = do assert (left == 0); done (out, dst)
nalu_loop (suc fuel) avc src left flag out size dst =
    if ltb (avc.nalu + 1) left
    then (do
      n ← nalu_length 0 avc.nalu src
      assert (ltb 0 n && (ltb n (2 ^ 31) && leb (n + avc.nalu) left))
      b ← load src avc.nalu
      (flag', out', dst') ← insert_sets avc (bit_and b 0x1F) flag out size dst
      if leb (dst' + n + 4) size
          then (do
            nalu ← first_bytes n (drop avc.nalu src)
            out'' ← store dst' (start_code ++ nalu) out'
            nalu_loop fuel avc (drop (avc.nalu + n) src) (left - (n + avc.nalu)) flag' out'' size
                (dst' + (4 + n)))
          else failed 0)
    else (do assert (left == 0); done (out, dst))

-- With as many rounds as there are bytes: each takes at least two. Returns the output and the
-- number of bytes in it.
unfoldable pub h264_mp4toannexb : Avc → List ℕ → ℕ → List ℕ → ℕ → Outcome (List ℕ × ℕ)
h264_mp4toannexb avc src bytes out size = nalu_loop bytes avc src bytes false out size 0
