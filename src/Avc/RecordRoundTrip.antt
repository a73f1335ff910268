-- ===== src/Avc/RecordRoundTrip.antt =====
-- src/media-server/libflv/source/mpeg4-avc.c: a decoder configuration record that is written and
-- read back.
use stream.Base.{
  ℕ, List, ◌∷◌, ◌++◌, ◌+◌, ◌-◌, ◌≤◌, ◌<◌, ◌≡◌, Bool, Outcome, refl, ◌∙◌, ap, bit_and, bit_or, ltb,
  leb, u8, true, ◌&&◌, length, length-append, All, done, ◌>>=◌, arith, lt→ltb, le→leb, le→ltb_false,
}
use stream.Base.Bits.{mask_low, or_low}
use stream.Avc.Config.{Avc, data_capacity, replace_first}
use stream.Avc.Load.{load_sets, mpeg4_avc_decoder_configuration_record_load}
use stream.Avc.Save.{extension_bytes, save_pps, mpeg4_avc_decoder_configuration_record_save}
use stream.Avc.ParameterSets.{
  sets_bytes, sets_length, IsParameterSet, save_sets-front, load_sets-image,
}

-- The parameter sets in use, and the other entries of the arrays.
pub record HasSets (avc : Avc) (sps pps : List (List ℕ)) : Type 0 where
  pub spare_sps : List (List ℕ)
  pub spare_pps : List (List ℕ)
  pub nalu_size : (0 < avc.nalu) × (avc.nalu ≤ 4)
  pub sps_array : avc.sps ≡ sps ++ spare_sps
  pub pps_array : avc.pps ≡ pps ++ spare_pps
  pub sps_number : (avc.nb_sps ≡ length sps) × (avc.nb_sps < 32)
  pub pps_number : (avc.nb_pps ≡ length pps) × (avc.nb_pps < 256)
  pub sps_sets : All IsParameterSet sps
  pub pps_sets : All IsParameterSet pps
  pub fits : sets_length sps + sets_length pps ≤ data_capacity

-- The length of the record, less the fields of the high profiles.
abbrev pub record_length : List (List ℕ) → List (List ℕ) → ℕ
record_length sps pps = 7 + length (sets_bytes sps) + length (sets_bytes pps)

-- What is read of the record of `avc` into `old`.
abbrev pub loaded : Avc → Avc → List (List ℕ) → List (List ℕ) → Avc
loaded old avc sps pps = record old {
  profile = avc.profile;
  compatibility = avc.compatibility;
  level = avc.level;
  nalu = avc.nalu;
  nb_sps = avc.nb_sps;
  nb_pps = avc.nb_pps;
  sps = replace_first sps old.sps;
  pps = replace_first pps old.pps;
  off = sets_length sps + sets_length pps;
}

-- The record is written into an array of `bytes` bytes, and what was stored is read into `old`:
-- whether all was written, and what the reader returns.
abbrev pub save_load : Avc → ℕ → Avc → Outcome (Bool × ℕ × Avc)
save_load avc bytes old = do
  (saved, out) ← mpeg4_avc_decoder_configuration_record_save avc bytes
  (n, read) ← mpeg4_avc_decoder_configuration_record_load out (length out) old
  done (saved, n, read)

image : Avc → List (List ℕ) → List (List ℕ) → List ℕ → List ℕ
image avc sps pps more =
    1
    ∷ (avc.profile
        ∷ (avc.compatibility
            ∷ (avc.level
                ∷ ((0xFC + (avc.nalu - 1))
                    ∷ ((0xE0 + avc.nb_sps)
                        ∷ (sets_bytes sps ++ (avc.nb_pps ∷ (sets_bytes pps ++ more))))))))

join_nalu : (n : ℕ) → 0 < n → n ≤ 4 → u8 (bit_or 0xFC (n - 1)) ≡ 0xFC + (n - 1)
join_nalu n h k = ap u8 (or_low 2 0xFC (n - 1) refl (omega arith)) ∙ omega arith

split_nalu : (n : ℕ) → 0 < n → n ≤ 4 → bit_and (0xFC + (n - 1)) 0x03 + 1 ≡ n
split_nalu n h k = ap (λ (m : ℕ). m + 1) (mask_low 2 (0xFC + (n - 1))) ∙ omega arith

join_number : (n : ℕ) → n < 32 → u8 (bit_or 0xE0 n) ≡ 0xE0 + n
join_number n h = ap u8 (or_low 5 0xE0 n refl h) ∙ omega arith

split_number : (n : ℕ) → n < 32 → bit_and (0xE0 + n) 0x1F ≡ n
split_number n h = mask_low 5 (0xE0 + n) ∙ omega arith

tests : (n bytes : ℕ) → 0 < n → n ≤ 4 → 7 ≤ bytes → (ltb 0 n && leb n 4) ≡ true
tests n bytes h k b = ground arith

save-image :
    (avc : Avc) (sps pps : List (List ℕ)) (bytes : ℕ)
    → HasSets avc sps pps
    → record_length sps pps ≤ bytes
    → mpeg4_avc_decoder_configuration_record_save avc bytes
      ≡ done (true, image avc sps pps (extension_bytes avc (bytes - record_length sps pps)))
unfolding mpeg4_avc_decoder_configuration_record_save save_pps image
save-image avc sps pps bytes h b =
    let left : bytes - 7 - length (sets_bytes sps) - length (sets_bytes pps)
        ≡ bytes - record_length sps pps =
      omega (arith, b) in
    rw
      (
        tests avc.nalu bytes h.nalu_size.0 h.nalu_size.1 (omega (arith, b)),
        le→ltb_false 7 bytes (omega (arith, b)),
        le→ltb_false avc.nb_sps 32 (omega (arith, h.sps_number.1)),
        h.sps_array,
        h.pps_array,
        h.pps_number.0,
        join_number avc.nb_sps h.sps_number.1,
        join_nalu avc.nalu h.nalu_size.0 h.nalu_size.1,
        h.sps_number.0,
        save_sets-front sps h.spare_sps (bytes - 7) h.sps_sets (omega (arith, b)),
        save_sets-front pps h.spare_pps (bytes - 7 - length (sets_bytes sps)) h.pps_sets
            (omega (arith, b)),
        left,
      )
      refl

load-image :
    (old avc : Avc) (sps pps : List (List ℕ)) (more : List ℕ) (bytes : ℕ)
    → HasSets avc sps pps
    → record_length sps pps ≤ bytes
    → mpeg4_avc_decoder_configuration_record_load (image avc sps pps more) bytes old
      ≡ done (record_length sps pps, loaded old avc sps pps)
unfolding mpeg4_avc_decoder_configuration_record_load image
load-image old avc sps pps more bytes h b =
    let (p, q) = h.sps_number in
    let (p', q') = h.pps_number in
    let f = h.fits in
    let first =
      load_sets-image (λ k. ltb k bytes) sps (avc.nb_pps ∷ (sets_bytes pps ++ more)) bytes 6 0
        h.sps_sets (omega (arith, b)) (λ k r. lt→ltb k bytes (omega (arith, r, b)))
        (omega (arith, f)) in
    let second =
      load_sets-image (λ k. leb k bytes) pps more bytes (6 + length (sets_bytes sps) + 1)
        (0 + sets_length sps) h.pps_sets (omega (arith, b))
        (λ k r. le→leb k bytes (omega (arith, r, b))) (omega (arith, f)) in
    let end : 6 + length (sets_bytes sps) + 1 + length (sets_bytes pps) ≡ record_length sps pps =
      omega arith in
    let used : 0 + sets_length sps + sets_length pps ≡ sets_length sps + sets_length pps =
      omega arith in
    rw
      (
        le→ltb_false 7 bytes (omega (arith, b)),
        split_number avc.nb_sps q,
        le→leb avc.nb_sps 32 (omega (arith, q)),
        ap
            (λ n.
              load_sets (λ k. ltb k bytes) n
                (sets_bytes sps ++ (avc.nb_pps ∷ (sets_bytes pps ++ more))) bytes 6 0)
            p,
        first,
        lt→ltb (6 + length (sets_bytes sps)) bytes (omega (arith, b)),
        le→leb avc.nb_pps 256 (omega (arith, q')),
        ap
            (λ n.
              load_sets (λ k. leb k bytes) n (sets_bytes pps ++ more) bytes
                (6 + length (sets_bytes sps) + 1) (0 + sets_length sps))
            p',
        second,
        end,
        used,
        split_nalu avc.nalu h.nalu_size.0 h.nalu_size.1,
      )
      refl

image-length :
    (avc : Avc) (sps pps : List (List ℕ)) (more : List ℕ)
    → record_length sps pps ≤ length (image avc sps pps more)
unfolding image
image-length avc sps pps more = omega (
  arith,
  length-append (sets_bytes sps) (avc.nb_pps ∷ (sets_bytes pps ++ more)),
  length-append (sets_bytes pps) more,
)

-- A configuration whose arrays have `nb_sps` (at most 31) and `nb_pps` parameter sets that are not
-- empty and of less than 2^16 bytes, together of at most 4096 bytes, is written where there is
-- room for the record without the fields of the high profiles. Of what is written, whether those
-- fields are there or not, the reader takes the record, and its sets, numbers, profile, level and
-- length size are the ones written; the chroma format and the bit depths stay.
pub mpeg4_avc_decoder_configuration_record_load-save :
    (old avc : Avc) (sps pps : List (List ℕ)) (bytes : ℕ)
    → HasSets avc sps pps
    → record_length sps pps ≤ bytes
    → save_load avc bytes old ≡ done (true, record_length sps pps, loaded old avc sps pps)
mpeg4_avc_decoder_configuration_record_load-save old avc sps pps bytes h b =
    let more = extension_bytes avc (bytes - record_length sps pps) in
    rw (
      save-image avc sps pps bytes h b,
      load-image old avc sps pps more (length (image avc sps pps more)) h
          (image-length avc sps pps more),
    )
