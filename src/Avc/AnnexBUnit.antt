-- ===== src/Avc/AnnexBUnit.antt =====
-- src/media-server/libflv/source/mpeg4-mp4toannexb.c: what the conversion of an access unit returns.
use stream.Base.{
  ℕ, zero, suc, List, [], ◌∷◌, ◌++◌, ◌+◌, ◌-◌, ◌≤◌, ◌<◌, ◌≡◌, refl, sym, ◌∙◌, ap, ◌==◌, ◌||◌,
  if◌then◌else◌, Bool, true, false, Bool-cases, inl, inr, length, drop, length-append, length-drop,
  All, done, arith,
}
use mathlib.Core.List.{append_assoc, append-nil}
use stream.Avc.Config.{Avc}
use stream.Avc.Nalu.{
  start_code, h264_nal_idr, h264_nal_sps, h264_nal_pps, nalu_loop, h264_mp4toannexb,
}
use stream.Avc.SetNalus.{nalu_image, HasBareSets, sets_image}
use stream.Avc.AnnexB.{frames, nal_kind, IsNal, nalu_round}
use stream.Avc.AnnexBStream.{
  wants_sets, insert_idr, own_sets, other_kind, at_end, length-frame, copied,
}

-- What comes in front of the NAL units.
abbrev pub front_sets : List (List ℕ) → List (List ℕ) → List (List ℕ) → List ℕ
front_sets sps pps nals = if wants_sets nals then sets_image sps pps else []

module _ (avc : Avc) (sps pps : List (List ℕ)) (config : HasBareSets avc sps pps)
    (positive : 0 < length (sets_image sps pps)) (bounded : length (sets_image sps pps) < 0x7FFF)
    (length_size : avc.nalu ≤ 4) (size : ℕ) where
  -- The output of the loop: the sets, if they are wanted, what was written before, and the NAL units.
  abbrev Converts : List (List ℕ) → ℕ → List ℕ → List ℕ → Bool → Type 0
  Converts nals fuel written spare wanted =
      (rest : List ℕ) × (nalu_loop fuel avc (frames avc.nalu nals) (length (frames avc.nalu nals))
          false (written ++ spare) size (length written)
        ≡ done (
          (((if wanted then sets_image sps pps else []) ++ written) ++ nalu_image nals) ++ rest,
          length (((if wanted then sets_image sps pps else []) ++ written) ++ nalu_image nals),
        ))

  round_own :
      (nal : List ℕ) (nals : List (List ℕ)) (fuel : ℕ) (written spare : List ℕ)
      → length nals ≤ fuel
      → IsNal avc.nalu nal
      → All (IsNal avc.nalu) nals
      → (nal_kind nal == h264_nal_sps || nal_kind nal == h264_nal_pps) ≡ true
      → length written + length (nalu_image (nal ∷ nals)) ≤ size
      → length (nalu_image (nal ∷ nals)) ≤ length spare
      → Converts (nal ∷ nals) (suc fuel) written spare false
  unfolding frames nalu_image
  round_own [] nals fuel written spare f h hs e r s = absurd (omega (arith, h.0))
  round_own (b ∷ body) nals fuel written spare f h hs e r s =
      let nal = b ∷ body in
      let nalu = start_code ++ nal in
      let more = nalu_image nals in
      let l = length-append nalu more in
      let w = length-append written nalu in
      (
        drop (length more) (drop (length nalu) spare),
        nalu_round fuel avc b body (frames avc.nalu nals) written spare _ false true
              (written ++ spare) size (length written) (length written) length_size h
              (length-frame avc.nalu nal (frames avc.nalu nals))
              (own_sets avc (nal_kind nal) (written ++ spare) size (length written) e) refl
              (omega (arith, l, r)) (omega (arith, l, s))
            ∙ copied nals fuel avc (written ++ nalu) (drop (length nalu) spare) size
                (length written + length nalu) f length_size hs (sym w) (omega (arith, l, r))
                (omega (arith, l, s, length-drop (length nalu) spare))
            ∙ rw (append_assoc written nalu more) (
                ap
                  (λ n. done (
                    (written ++ (nalu ++ more)) ++ drop (length more) (drop (length nalu) spare),
                    n,
                  ))
                  (omega (arith, l, length-append written (nalu ++ more)))),
      )

  round_idr :
      (nal : List ℕ) (nals : List (List ℕ)) (fuel : ℕ) (written spare : List ℕ)
      → length nals ≤ fuel
      → IsNal avc.nalu nal
      → All (IsNal avc.nalu) nals
      → (nal_kind nal == h264_nal_sps || nal_kind nal == h264_nal_pps) ≡ false
      → (nal_kind nal == h264_nal_idr) ≡ true
      → length (sets_image sps pps) + length written + length (nalu_image (nal ∷ nals)) ≤ size
      → length (sets_image sps pps) + length (nalu_image (nal ∷ nals)) ≤ length spare
      → Converts (nal ∷ nals) (suc fuel) written spare true
  unfolding frames nalu_image
  round_idr [] nals fuel written spare f h hs e i r s = absurd (omega (arith, h.0))
  round_idr (b ∷ body) nals fuel written spare f h hs e i r s =
      let nal = b ∷ body in
      let nalu = start_code ++ nal in
      let more = nalu_image nals in
      let params = sets_image sps pps in
      let kept = drop (length written) (drop (length params) (written ++ spare)) in
      let l = length-append nalu more in
      let p = length-append params written in
      let w = length-append (params ++ written) nalu in
      let room : length kept ≡ length spare - length params = omega (
        arith,
        length-drop (length written) (drop (length params) (written ++ spare)),
        length-drop (length params) (written ++ spare),
        length-append written spare,
      ) in
      (
        drop (length more) (drop (length nalu) kept),
        nalu_round fuel avc b body (frames avc.nalu nals) (params ++ written) kept _ false true
              (written ++ spare) size (length written) (length written + length params) length_size
              h (length-frame avc.nalu nal (frames avc.nalu nals))
              (insert_idr avc sps pps written spare size (nal_kind nal) config e i positive bounded
                (omega (arith, r)) (omega (arith, s)))
              (omega (arith, p)) (omega (arith, l, r)) (omega (arith, l, s, room))
            ∙ copied nals fuel avc ((params ++ written) ++ nalu) (drop (length nalu) kept) size
                (length written + length params + length nalu) f length_size hs
                (omega (arith, w, p)) (omega (arith, l, r))
                (omega (arith, l, s, room, length-drop (length nalu) kept))
            ∙ rw (append_assoc (params ++ written) nalu more) (
                ap
                  (λ n. done (
                    ((params ++ written) ++ (nalu ++ more))
                        ++ drop (length more) (drop (length nalu) kept),
                    n,
                  ))
                  (omega (arith, l, p, length-append (params ++ written) (nalu ++ more)))),
      )

  round_other :
      (nal : List ℕ) (nals : List (List ℕ)) (fuel : ℕ) (written spare : List ℕ) (wanted : Bool)
      → IsNal avc.nalu nal
      → (nal_kind nal == h264_nal_sps || nal_kind nal == h264_nal_pps) ≡ false
      → (nal_kind nal == h264_nal_idr) ≡ false
      → length written + length (nalu_image (nal ∷ nals)) ≤ size
      → length (nalu_image (nal ∷ nals)) ≤ length spare
      → Converts nals fuel
          (written ++ (start_code ++ nal))
          (drop (length (start_code ++ nal)) spare)
          wanted
      → Converts (nal ∷ nals) (suc fuel) written spare wanted
  unfolding frames nalu_image
  round_other [] nals fuel written spare wanted h e i r s c = absurd (omega (arith, h.0))
  round_other (b ∷ body) nals fuel written spare wanted h e i r s (rest, c) =
      let nal = b ∷ body in
      let nalu = start_code ++ nal in
      let more = nalu_image nals in
      let pre = if wanted then sets_image sps pps else [] in
      let l = length-append nalu more in
      let w = length-append written nalu in
      let join : (pre ++ (written ++ nalu)) ++ more ≡ (pre ++ written) ++ (nalu ++ more) =
        rw (sym (append_assoc pre written nalu), append_assoc (pre ++ written) nalu more) refl in
      (
        rest,
        nalu_round fuel avc b body (frames avc.nalu nals) written spare _ false false
              (written ++ spare) size (length written) (length written) length_size h
              (length-frame avc.nalu nal (frames avc.nalu nals))
              (other_kind avc (nal_kind nal) (written ++ spare) size (length written) e i) refl
              (omega (arith, l, r)) (omega (arith, l, s))
            ∙ ap
                (nalu_loop fuel avc (frames avc.nalu nals) (length (frames avc.nalu nals)) false
                  ((written ++ nalu) ++ drop (length nalu) spare) size)
                (sym w)
            ∙ c
            ∙ ap (λ x. done (x ++ rest, length x)) join,
      )

  converted_none : (fuel : ℕ) (written spare : List ℕ) → Converts [] fuel written spare false
  unfolding frames nalu_image
  converted_none fuel written spare = (
    spare,
    at_end fuel avc false (written ++ spare) size (length written) ∙ rw (append-nil written) refl,
  )

  image-cons :
      (nal : List ℕ) (nals : List (List ℕ))
      → length (nalu_image (nal ∷ nals)) ≡ length (start_code ++ nal) + length (nalu_image nals)
  unfolding nalu_image
  image-cons nal nals = length-append (start_code ++ nal) (nalu_image nals)

  -- Before any parameter set was met.
  converted :
      (nals : List (List ℕ)) (fuel : ℕ) (written spare : List ℕ)
      → length nals ≤ fuel
      → All (IsNal avc.nalu) nals
      → length (sets_image sps pps) + length written + length (nalu_image nals) ≤ size
      → length (sets_image sps pps) + length (nalu_image nals) ≤ length spare
      → Converts nals fuel written spare (wants_sets nals)
  unfolding wants_sets
  converted [] fuel written spare f h r s = converted_none fuel written spare
  converted (nal ∷ nals) zero written spare f h r s = absurd (omega arith)
  converted (nal ∷ nals) (suc fuel) written spare f (h, hs) r s =
      let nalu = start_code ++ nal in
      let l = image-cons nal nals in
      elim (Bool-cases (nal_kind nal == h264_nal_sps || nal_kind nal == h264_nal_pps)) [
        | inl e ↦ rw e (
            round_own nal nals fuel written spare (omega arith) h hs e (omega (arith, r))
              (omega (arith, s)))
        | inr e ↦ elim (Bool-cases (nal_kind nal == h264_nal_idr)) [
          | inl i ↦ rw (e, i) (round_idr nal nals fuel written spare (omega arith) h hs e i r s)
          | inr i ↦
              rw (e, i)
                (round_other nal nals fuel written spare (wants_sets nals) h e i (omega (arith, r))
                  (omega (arith, s))
                  (converted nals fuel (written ++ nalu) (drop (length nalu) spare) (omega arith) hs
                    (omega (arith, r, l, length-append written nalu))
                    (omega (arith, s, l, length-drop (length nalu) spare))))
        ]
      ]

length-frames :
    (k : ℕ) (nals : List (List ℕ)) → All (IsNal k) nals → length nals ≤ length (frames k nals)
unfolding frames
length-frames k [] h = omega arith
length-frames k (nal ∷ nals) (h, hs) =
    omega (arith, length-frame k nal (frames k nals), length-frames k nals hs, h.0)

-- An access unit of NAL units (two bytes at least, with lengths that fit the length field, of at
-- most four bytes, and an int), each with its length in front, is converted into an array with
-- room for the units and the parameter sets of the configuration (at least one byte, less than
-- 0x7FFF with their start codes, none with a start code of its own). The result is each unit behind a
-- start code, in order, and in front of all of them the parameter sets if an IDR picture comes
-- before any parameter set of the unit itself; the number returned is its length.
pub h264_mp4toannexb-frames :
    (avc : Avc) (sps pps nals : List (List ℕ)) (out : List ℕ) (size : ℕ)
    → HasBareSets avc sps pps
    → 0 < length (sets_image sps pps)
    → length (sets_image sps pps) < 0x7FFF
    → avc.nalu ≤ 4
    → All (IsNal avc.nalu) nals
    → length (sets_image sps pps) + length (nalu_image nals) ≤ size
    → length out ≡ size
    → (rest : List ℕ) × (h264_mp4toannexb avc
          (frames avc.nalu nals)
          (length (frames avc.nalu nals))
          out
          size
        ≡ done (
          (front_sets sps pps nals ++ nalu_image nals) ++ rest,
          length (front_sets sps pps nals ++ nalu_image nals),
        ))
unfolding h264_mp4toannexb
h264_mp4toannexb-frames avc sps pps nals out size c p b k h r o =
    let (rest, e) =
      converted avc sps pps c p b k size nals (length (frames avc.nalu nals)) [] out
        (length-frames avc.nalu nals h) h (omega (arith, r)) (omega (arith, r, o)) in
    (
      rest,
      e
          ∙ ap (λ x. done ((x ++ nalu_image nals) ++ rest, length (x ++ nalu_image nals)))
              (append-nil (front_sets sps pps nals)),
    )
