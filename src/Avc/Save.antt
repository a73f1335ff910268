-- ===== src/Avc/Save.antt =====
-- src/media-server/libflv/source/mpeg4-avc.c: writing a decoder configuration record, and the
-- parameter sets as NAL units. The result is whether all is written, and the list of the bytes that
-- are stored from `data` on: its length is what the C function returns, or -1 where not all is.
use stream.Base.{
  ℕ, zero, suc, List, [], ◌∷◌, ◌++◌, ◌+◌, ◌-◌, ◌==◌, ◌&&◌, ◌||◌, ◌>>>◌, bit_and, bit_or, ltb, leb,
  u8, if◌then◌else◌, Bool, true, false, length, Outcome, done, fault, assert, ◌>>=◌, ◌>>◌,
}
use stream.Avc.Config.{Avc}

-- The loop over the parameter sets of an array, where `n` are left and there is room for `bytes`
-- bytes. Returns whether all sets are stored, the bytes stored, and the room that is left.
unfoldable pub save_sets : ℕ → List (List ℕ) → ℕ → Outcome (Bool × List ℕ × ℕ)
save_sets zero sets bytes = done (true, [], bytes)
save_sets (suc n) [] bytes = fault
save_sets (suc n) (s ∷ sets) bytes =
    if leb (length s + 2) bytes
    then (do
      (fits, out, bytes') ← save_sets n sets (bytes - (length s + 2))
      done (fits, bit_and (length s >>> 8) 0xFF ∷ (bit_and (length s) 0xFF ∷ (s ++ out)), bytes'))
    else done (false, [], bytes)

-- The profiles whose record has fields for chroma format and bit depths.
unfoldable pub is_high_profile : ℕ → Bool
is_high_profile profile =
    profile == 100
    || (profile == 110
        || (profile == 122
            || (profile == 244
                || (profile == 44
                    || (profile == 83
                        || (profile == 86
                            || (profile == 118
                                || (profile == 128
                                    || (profile == 138
                                        || (profile == 139 || profile == 134))))))))))

unfoldable pub extension_bytes : Avc → ℕ → List ℕ
extension_bytes avc bytes =
    if leb 4 bytes && is_high_profile avc.profile
    then u8 (bit_or 0xFC avc.chroma_format_idc)
      ∷ (u8 (bit_or 0xF8 avc.bit_depth_luma_minus8)
          ∷ (u8 (bit_or 0xF8 avc.bit_depth_chroma_minus8) ∷ (0 ∷ [])))
    else []

-- The first bytes, in front of the sequence parameter sets.
abbrev pub record_start : Avc → List ℕ → List ℕ
record_start avc more =
    1
    ∷ (avc.profile
        ∷ (avc.compatibility
            ∷ (avc.level
                ∷ (u8 (bit_or 0xFC (avc.nalu - 1)) ∷ (u8 (bit_or 0xE0 avc.nb_sps) ∷ more)))))

-- From the number of picture parameter sets on, behind the bytes `sps`.
unfoldable pub save_pps : Avc → List ℕ → ℕ → Outcome (Bool × List ℕ)
save_pps avc sps bytes = do
  (fits, pps, bytes') ← save_sets avc.nb_pps avc.pps bytes
  let more = if fits then extension_bytes avc bytes' else []
  done (fits, record_start avc (sps ++ (avc.nb_pps ∷ (pps ++ more))))

unfoldable pub mpeg4_avc_decoder_configuration_record_save : Avc → ℕ → Outcome (Bool × List ℕ)
mpeg4_avc_decoder_configuration_record_save avc bytes = do
  assert (ltb 0 avc.nalu && leb avc.nalu 4)
  if ltb bytes 7 || ltb 32 avc.nb_sps then done (false, []) else (do
    (fits, sps, bytes') ← save_sets avc.nb_sps avc.sps (bytes - 7)
    if fits then save_pps avc sps bytes' else done (false, record_start avc sps))
