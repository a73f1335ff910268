-- ===== src/Avc/SetNalus.antt =====
-- src/media-server/libflv/source/mpeg4-avc.c: the parameter sets as NAL units.
use stream.Base.{
  ℕ, suc, List, [], ◌∷◌, ◌++◌, ◌+◌, ◌≤◌, ◌<◌, ◌≡◌, refl, sym, ◌∙◌, ap, false, length, drop,
  drop-drop, length-append, length-drop, All, done, fault, arith, le→leb, lt→ltb, lt→leb_false,
}
use stream.Base.Buffer.{store, store-extend}
use mathlib.Core.List.{append_assoc, append-nil}
use stream.Avc.Config.{Avc}
use stream.Avc.Nalu.{
  start_code, has_start_code, nalu_sets, mpeg4_avc_to_nalu, sets_size, h264_sps_pps_size,
}

-- Parameter sets with start codes in front.
unfoldable pub nalu_image : List (List ℕ) → List ℕ
nalu_image [] = []
nalu_image (s ∷ sets) = (start_code ++ s) ++ nalu_image sets

abbrev pub IsBare : List ℕ → Type 0
IsBare s = has_start_code s ≡ false

sets_size-none : (spare : List (List ℕ)) → sets_size 0 spare ≡ 0
unfolding sets_size
sets_size-none spare = refl

pub sets_size-image :
    (used spare : List (List ℕ))
    → sets_size (length used) (used ++ spare) ≡ length (nalu_image used)
unfolding sets_size nalu_image
sets_size-image [] spare = sets_size-none spare
sets_size-image (s ∷ used) spare =
    omega (arith, length-append s (nalu_image used), sets_size-image used spare)

nalu_sets-none :
    (room : ℕ) (spare : List (List ℕ)) (buf : List ℕ) (k bytes : ℕ)
    → nalu_sets room 0 spare buf k bytes ≡ done (buf, k)
unfolding nalu_sets
nalu_sets-none room spare buf k bytes = refl

nalu_set :
    (room n : ℕ) (s : List ℕ) (sets : List (List ℕ)) (pre rest : List ℕ) (k bytes : ℕ)
    → has_start_code s ≡ false
    → k ≡ length pre
    → k + length s + room ≤ bytes
    → length s + 4 ≤ length rest
    → nalu_sets room (suc n) (s ∷ sets) (pre ++ rest) k bytes
      ≡ nalu_sets room n sets
          ((pre ++ (start_code ++ s)) ++ drop (length (start_code ++ s)) rest)
          (k + length (start_code ++ s))
          bytes
unfolding nalu_sets
nalu_set room n s sets pre rest k bytes h e b r = rw (
  le→leb (k + length s + room) bytes b,
  h,
  store-extend k pre (start_code ++ s) rest e (omega (arith, r)),
)

pub nalu_sets-image :
    (room : ℕ) (used spare : List (List ℕ)) (pre rest : List ℕ) (k bytes : ℕ)
    → All IsBare used
    → room ≤ 4
    → k ≡ length pre
    → k + length (nalu_image used) ≤ bytes
    → length (nalu_image used) ≤ length rest
    → nalu_sets room (length used) (used ++ spare) (pre ++ rest) k bytes
      ≡ done (
        (pre ++ nalu_image used) ++ drop (length (nalu_image used)) rest,
        k + length (nalu_image used),
      )
unfolding nalu_image
nalu_sets-image room [] spare pre rest k bytes h q e b r =
    let z : k + 0 ≡ k = omega arith in
    rw (append-nil pre, z) (nalu_sets-none room spare (pre ++ rest) k bytes)
nalu_sets-image room (s ∷ used) spare pre rest k bytes (h, hs) q e b r =
    let nalu = start_code ++ s in
    let more = nalu_image used in
    let l = length-append nalu more in
    let d = length-drop (length nalu) rest in
    let total : length nalu + length more ≡ length (nalu ++ more) = sym l in
    nalu_set room (length used) s (used ++ spare) pre rest k bytes h e (omega (arith, l, b))
      (omega (arith, l, r))
    ∙ nalu_sets-image room used spare (pre ++ nalu) (drop (length nalu) rest) (k + length nalu)
        bytes hs q (omega (arith, e, length-append pre nalu)) (omega (arith, l, b))
        (omega (arith, l, r, d))
    ∙ rw (append_assoc pre nalu more, drop-drop (length more) (length nalu) rest, total)
        (ap (λ n. done ((pre ++ (nalu ++ more)) ++ drop (length (nalu ++ more)) rest, n))
          (omega (arith, l)))

-- The parameter sets in use, none of which starts with a start code, and the other entries.
pub record HasBareSets (avc : Avc) (sps pps : List (List ℕ)) : Type 0 where
  pub spare_sps : List (List ℕ)
  pub spare_pps : List (List ℕ)
  pub sps_array : avc.sps ≡ sps ++ spare_sps
  pub pps_array : avc.pps ≡ pps ++ spare_pps
  pub sps_number : avc.nb_sps ≡ length sps
  pub pps_number : avc.nb_pps ≡ length pps
  pub sps_bare : All IsBare sps
  pub pps_bare : All IsBare pps

abbrev pub sets_image : List (List ℕ) → List (List ℕ) → List ℕ
sets_image sps pps = nalu_image sps ++ nalu_image pps

pub h264_sps_pps_size-image :
    (avc : Avc) (sps pps : List (List ℕ))
    → HasBareSets avc sps pps
    → h264_sps_pps_size avc ≡ length (sets_image sps pps)
unfolding h264_sps_pps_size
h264_sps_pps_size-image avc sps pps h =
    rw (h.sps_array, h.pps_array, h.sps_number, h.pps_number)
      (omega (
        arith,
        sets_size-image sps h.spare_sps,
        sets_size-image pps h.spare_pps,
        length-append (nalu_image sps) (nalu_image pps),
      ))

-- Where there is room for them, the parameter sets (together less than 0x7FFF bytes with their start
-- codes) are stored at the start of the array, each behind a start code, and the rest of the
-- array stays.
pub mpeg4_avc_to_nalu-image :
    (avc : Avc) (sps pps : List (List ℕ)) (buf : List ℕ) (bytes : ℕ)
    → HasBareSets avc sps pps
    → length (sets_image sps pps) < 0x7FFF
    → length (sets_image sps pps) ≤ bytes
    → length (sets_image sps pps) ≤ length buf
    → mpeg4_avc_to_nalu avc buf bytes
      ≡ done (
        sets_image sps pps ++ drop (length (sets_image sps pps)) buf,
        length (sets_image sps pps),
      )
unfolding mpeg4_avc_to_nalu
mpeg4_avc_to_nalu-image avc sps pps buf bytes h m b r =
    let a = nalu_image sps in
    let c = nalu_image pps in
    let l = length-append a c in
    let z : 0 + length a + length c ≡ length (a ++ c) = omega (arith, l) in
    let n : length a + length c ≡ length (a ++ c) = sym l in
    let first =
      nalu_sets-image 4 sps h.spare_sps [] buf 0 bytes h.sps_bare (omega arith) refl
        (omega (arith, l, b)) (omega (arith, l, r)) in
    let second =
      nalu_sets-image 2 pps h.spare_pps a (drop (length a) buf) (0 + length a) bytes h.pps_bare
        (omega arith) (omega arith) (omega (arith, l, b))
        (omega (arith, l, r, length-drop (length a) buf)) in
    rw
      (
        h.sps_array,
        h.pps_array,
        h.sps_number,
        h.pps_number,
        first,
        second,
        z,
        lt→ltb (length (a ++ c)) 0x7FFF m,
        drop-drop (length c) (length a) buf,
        n,
      )
      refl

overrun_set :
    (s spare : List ℕ) (sets : List (List ℕ)) (buf : List ℕ) (k bytes : ℕ)
    → has_start_code s ≡ false
    → k + length s + 2 ≤ bytes
    → length buf < k + length s + 4
    → nalu_sets 2 1 (s ∷ sets) buf k bytes ≡ fault
unfolding nalu_sets store
overrun_set s spare sets buf k bytes h b r = rw (
  le→leb (k + length s + 2) bytes b,
  h,
  lt→leb_false (length buf) (k + suc (suc (suc (suc (length s))))) (omega (arith, r)),
)

-- In an array with room for the sequence parameter sets and, but for one or two bytes, for the one
-- picture parameter set with its start code, the set is stored past the end of the array: the
-- test in front of it asks for two bytes less than are stored.
pub mpeg4_avc_to_nalu-overrun :
    (avc : Avc) (sps : List (List ℕ)) (s buf : List ℕ) (bytes : ℕ)
    → HasBareSets avc sps (s ∷ [])
    → length buf ≡ bytes
    → length (nalu_image sps) + length s + 2 ≤ bytes
    → bytes < length (nalu_image sps) + length s + 4
    → mpeg4_avc_to_nalu avc buf bytes ≡ fault
unfolding mpeg4_avc_to_nalu
mpeg4_avc_to_nalu-overrun avc sps s buf bytes h e b r =
    let a = nalu_image sps in
    let first =
      nalu_sets-image 4 sps h.spare_sps [] buf 0 bytes h.sps_bare (omega arith) refl
        (omega (arith, b)) (omega (arith, b, e)) in
    let d = length-drop (length a) buf in
    let last =
      overrun_set s [] h.spare_pps (a ++ drop (length a) buf) (0 + length a) bytes h.pps_bare.0
        (omega (arith, b)) (omega (arith, length-append a (drop (length a) buf), d, e, r, b)) in
    rw (h.sps_array, h.pps_array, h.sps_number, h.pps_number, first, last)
