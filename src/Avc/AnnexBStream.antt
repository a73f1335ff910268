-- ===== src/Avc/AnnexBStream.antt =====
-- src/media-server/libflv/source/mpeg4-mp4toannexb.c: a whole access unit, with the parameter sets
-- in front where they are wanted.
use stream.Base.{
  ℕ, zero, suc, List, [], ◌∷◌, ◌++◌, ◌+◌, ◌≤◌, ◌<◌, ◌≡◌, refl, sym, ◌∙◌, ap, ◌==◌, ◌||◌, ltb,
  if◌then◌else◌, Bool, true, false, length, take, drop, drop-drop, take-append, drop-append,
  length-append, length-drop, length-take, take-drop, All, done, arith, le→ltb_false,
}
use stream.Base.Buffer.{store, store-extend}
use mathlib.Core.List.{append_assoc, append-nil}
use stream.Avc.Config.{Avc}
use stream.Avc.Nalu.{
  start_code, h264_nal_idr, h264_nal_sps, h264_nal_pps, insert_nalu, insert_sets, nalu_loop,
}
use stream.Avc.SetNalus.{
  nalu_image, HasBareSets, sets_image, h264_sps_pps_size-image, mpeg4_avc_to_nalu-image,
}
use stream.Avc.AnnexB.{length_bytes, frames, nal_kind, IsNal, length-length_bytes, nalu_round}

-- Whether an IDR picture comes before any parameter set.
unfoldable pub wants_sets : List (List ℕ) → Bool
wants_sets [] = false
wants_sets (nal ∷ nals) =
    let later = wants_sets nals in
    if nal_kind nal == h264_nal_sps || nal_kind nal == h264_nal_pps
    then false
    else if nal_kind nal == h264_nal_idr
    then true
    else later

-- What `insert_sets` leaves where it inserts the sets in front of what is written.
pub insert_idr :
    (avc : Avc) (sps pps : List (List ℕ)) (written spare : List ℕ) (size kind : ℕ)
    → HasBareSets avc sps pps
    → (kind == h264_nal_sps || kind == h264_nal_pps) ≡ false
    → (kind == h264_nal_idr) ≡ true
    → 0 < length (sets_image sps pps)
    → length (sets_image sps pps) < 0x7FFF
    → length (sets_image sps pps) ≤ size
    → length (sets_image sps pps) ≤ length spare
    → insert_sets avc kind false (written ++ spare) size (length written)
      ≡ done (
        true,
        (sets_image sps pps ++ written)
            ++ drop (length written) (drop (length (sets_image sps pps)) (written ++ spare)),
        length written + length (sets_image sps pps),
      )
unfolding insert_sets insert_nalu
insert_idr avc sps pps [] spare size kind h s i p m b r =
    let params = sets_image sps pps in
    let z : (length params == 0) ≡ false = ground (arith, p) in
    rw (s, i, mpeg4_avc_to_nalu-image avc sps pps spare size h m b r, z, append-nil params)
insert_idr avc sps pps (w ∷ ws) spare size kind h s i p m b r =
    let params = sets_image sps pps in
    let written = w ∷ ws in
    let out = written ++ spare in
    let n = length params in
    let l = length-append written spare in
    let front = take n out in
    let behind = drop n out in
    let fl : length front ≡ n = length-take n out (omega (arith, l, r)) in
    let bl = length-drop n out in
    let moved : store n written out ≡ done ((front ++ written) ++ drop (length written) behind) =
      ap (store n written) (sym (take-drop n out))
      ∙ store-extend n front written behind (sym fl) (omega (arith, l, bl, r)) in
    let kept : drop n ((front ++ written) ++ drop (length written) behind)
        ≡ written ++ drop (length written) behind =
      ap (drop n) (append_assoc front written (drop (length written) behind))
      ∙ ap (λ i. drop i (front ++ (written ++ drop (length written) behind))) (sym fl)
      ∙ drop-append front (written ++ drop (length written) behind) in
    let room : n ≤ length ((front ++ written) ++ drop (length written) behind) = omega (
      arith,
      length-append (front ++ written) (drop (length written) behind),
      length-append front written,
      fl,
    ) in
    let z : (n == 0) ≡ false = ground (arith, p) in
    let t : (length written == 0) ≡ false = ground arith in
    rw (s, i, t, h264_sps_pps_size-image avc sps pps h, take-append written spare, moved)
      (rw
        (
          mpeg4_avc_to_nalu-image avc sps pps ((front ++ written) ++ drop (length written) behind)
              size h m b room,
          kept,
          z,
          append_assoc params written (drop (length written) behind),
        )
        refl)

kept_flag :
    (avc : Avc) (kind : ℕ) (out : List ℕ) (size dst : ℕ)
    → insert_sets avc kind true out size dst ≡ done (true, out, dst)
unfolding insert_sets
kept_flag avc kind out size dst = refl

pub own_sets :
    (avc : Avc) (kind : ℕ) (out : List ℕ) (size dst : ℕ)
    → (kind == h264_nal_sps || kind == h264_nal_pps) ≡ true
    → insert_sets avc kind false out size dst ≡ done (true, out, dst)
unfolding insert_sets
own_sets avc kind out size dst e = rw e

pub other_kind :
    (avc : Avc) (kind : ℕ) (out : List ℕ) (size dst : ℕ)
    → (kind == h264_nal_sps || kind == h264_nal_pps) ≡ false
    → (kind == h264_nal_idr) ≡ false
    → insert_sets avc kind false out size dst ≡ done (false, out, dst)
unfolding insert_sets
other_kind avc kind out size dst e i = rw (e, i)

pub at_end :
    (fuel : ℕ) (avc : Avc) (flag : Bool) (out : List ℕ) (size dst : ℕ)
    → nalu_loop fuel avc [] 0 flag out size dst ≡ done (out, dst)
unfolding nalu_loop
at_end zero avc flag out size dst = refl
at_end (suc fuel) avc flag out size dst =
    let e : ltb (avc.nalu + 1) 0 ≡ false = le→ltb_false 0 (avc.nalu + 1) (omega arith) in rw e

pub length-frame :
    (k : ℕ) (nal more : List ℕ)
    → length (length_bytes k (length nal) ++ (nal ++ more)) ≡ length nal + k + length more
length-frame k nal more = omega (
  arith,
  length-append (length_bytes k (length nal)) (nal ++ more),
  length-append nal more,
  length-length_bytes k (length nal),
)

-- Once a parameter set was met or inserted, the NAL units are copied.
pub copied :
    (nals : List (List ℕ)) (fuel : ℕ) (avc : Avc) (written spare : List ℕ) (size dst : ℕ)
    → length nals ≤ fuel
    → avc.nalu ≤ 4
    → All (IsNal avc.nalu) nals
    → dst ≡ length written
    → dst + length (nalu_image nals) ≤ size
    → length (nalu_image nals) ≤ length spare
    → nalu_loop fuel avc
        (frames avc.nalu nals)
        (length (frames avc.nalu nals))
        true
        (written ++ spare)
        size
        dst
      ≡ done (
        (written ++ nalu_image nals) ++ drop (length (nalu_image nals)) spare,
        dst + length (nalu_image nals),
      )
unfolding frames nalu_image
copied [] fuel avc written spare size dst f k h d r s =
    let z : dst + 0 ≡ dst = omega arith in
    rw (append-nil written, z) (at_end fuel avc true (written ++ spare) size dst)
copied (nal ∷ nals) zero avc written spare size dst f k h d r s = absurd (omega arith)
copied ([] ∷ nals) (suc fuel) avc written spare size dst f k (h, hs) d r s =
    absurd (omega (arith, h.0))
copied ((b ∷ body) ∷ nals) (suc fuel) avc written spare size dst f k (h, hs) d r s =
    let nal = b ∷ body in
    let nalu = start_code ++ nal in
    let more = nalu_image nals in
    let l = length-append nalu more in
    nalu_round fuel avc b body (frames avc.nalu nals) written spare _ true true (written ++ spare)
      size dst dst k h (length-frame avc.nalu nal (frames avc.nalu nals))
      (kept_flag avc (nal_kind nal) (written ++ spare) size dst) d (omega (arith, l, r))
      (omega (arith, l, s))
    ∙ copied nals fuel avc (written ++ nalu) (drop (length nalu) spare) size (dst + length nalu)
        (omega arith) k hs (omega (arith, d, length-append written nalu)) (omega (arith, l, r))
        (omega (arith, l, s, length-drop (length nalu) spare))
    ∙ rw (append_assoc written nalu more, drop-drop (length more) (length nalu) spare, sym l)
        (ap (λ n. done ((written ++ (nalu ++ more)) ++ drop (length (nalu ++ more)) spare, n))
          (omega (arith, l)))
