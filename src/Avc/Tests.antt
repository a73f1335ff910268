-- ===== src/Avc/Tests.antt =====
-- Runs of the functions for parameter sets and NAL units on concrete inputs, and the theorems there.
use stream.Base.{
  ℕ, List, [], ◌∷◌, ◌++◌, ◌≡◌, refl, arith, length, replicate, drop, ◌≤◌, done, fault, true,
}
use stream.Avc.Config.{Avc}
use stream.Avc.Save.{mpeg4_avc_decoder_configuration_record_save}
use stream.Avc.Nalu.{mpeg4_avc_to_nalu, h264_mp4toannexb, has_start_code}
use stream.Avc.RecordRoundTrip.{
  HasSets, loaded, save_load, record_length, mpeg4_avc_decoder_configuration_record_load-save,
}
use stream.Avc.ParameterSets.{sets_length, sets_bytes, set_bytes}
use stream.Avc.SetNalus.{
  HasBareSets, sets_image, nalu_image, mpeg4_avc_to_nalu-image, mpeg4_avc_to_nalu-overrun,
}
use stream.Avc.SaveBounds.{IsWithin, mpeg4_avc_decoder_configuration_record_save-IsWithin}
use stream.Avc.AnnexB.{frames}
use stream.Avc.AnnexBUnit.{front_sets, h264_mp4toannexb-frames}

abbrev sps_0 : List ℕ
sps_0 = 0x67 ∷ 0x42 ∷ 0xE0 ∷ 0x1E ∷ 0xAB ∷ []

abbrev pps_0 : List ℕ
pps_0 = 0x68 ∷ 0xCE ∷ 0x3C ∷ 0x80 ∷ []

abbrev config : Avc
config = record {
  profile = 0x42;
  compatibility = 0xE0;
  level = 0x1E;
  nalu = 4;
  nb_sps = 1;
  nb_pps = 1;
  sps = sps_0 ∷ replicate 31 [];
  pps = pps_0 ∷ replicate 255 [];
  chroma_format_idc = 0;
  bit_depth_luma_minus8 = 0;
  bit_depth_chroma_minus8 = 0;
  off = 9;
}

config-HasSets : HasSets config (sps_0 ∷ []) (pps_0 ∷ [])
unfolding sets_length
config-HasSets = record {
  spare_sps = replicate 31 [];
  spare_pps = replicate 255 [];
  nalu_size = omega arith;
  sps_array = refl;
  pps_array = refl;
  sps_number = (refl, omega arith);
  pps_number = (refl, omega arith);
  sps_sets = omega arith;
  pps_sets = omega arith;
  fits = omega arith;
}

config-room : record_length (sps_0 ∷ []) (pps_0 ∷ []) ≤ 30
unfolding sets_bytes set_bytes
config-room = omega arith

mpeg4_avc_decoder_configuration_record_load-save_example :
    save_load config 30 config
    ≡ done (
      true,
      record_length (sps_0 ∷ []) (pps_0 ∷ []),
      loaded config config (sps_0 ∷ []) (pps_0 ∷ []),
    )
mpeg4_avc_decoder_configuration_record_load-save_example =
    mpeg4_avc_decoder_configuration_record_load-save config config (sps_0 ∷ []) (pps_0 ∷ []) 30
      config-HasSets config-room

mpeg4_avc_decoder_configuration_record_save-IsWithin_example :
    IsWithin 15 (mpeg4_avc_decoder_configuration_record_save config 15)
mpeg4_avc_decoder_configuration_record_save-IsWithin_example =
    mpeg4_avc_decoder_configuration_record_save-IsWithin config 15 (omega arith) (omega arith)
      (omega arith) (omega arith)

config-HasBareSets : HasBareSets config (sps_0 ∷ []) (pps_0 ∷ [])
unfolding has_start_code
config-HasBareSets = record {
  spare_sps = replicate 31 [];
  spare_pps = replicate 255 [];
  sps_array = refl;
  pps_array = refl;
  sps_number = refl;
  pps_number = refl;
  sps_bare = (refl, tt);
  pps_bare = (refl, tt);
}

config-image : length (sets_image (sps_0 ∷ []) (pps_0 ∷ [])) ≡ 17
unfolding nalu_image
config-image = refl

mpeg4_avc_to_nalu-image_example :
    mpeg4_avc_to_nalu config (replicate 20 7) 20
    ≡ done (
      sets_image (sps_0 ∷ []) (pps_0 ∷ [])
          ++ drop (length (sets_image (sps_0 ∷ []) (pps_0 ∷ []))) (replicate 20 7),
      length (sets_image (sps_0 ∷ []) (pps_0 ∷ [])),
    )
mpeg4_avc_to_nalu-image_example =
    mpeg4_avc_to_nalu-image config (sps_0 ∷ []) (pps_0 ∷ []) (replicate 20 7) 20 config-HasBareSets
      (omega (arith, config-image)) (omega (arith, config-image)) (omega (arith, config-image))

config-first_image : length (nalu_image (sps_0 ∷ [])) ≡ 9
unfolding nalu_image
config-first_image = refl

mpeg4_avc_to_nalu-overrun_example : mpeg4_avc_to_nalu config (replicate 15 0) 15 ≡ fault
mpeg4_avc_to_nalu-overrun_example =
    mpeg4_avc_to_nalu-overrun config (sps_0 ∷ []) pps_0 (replicate 15 0) 15 config-HasBareSets refl
      (omega (arith, config-first_image)) (omega (arith, config-first_image))

-- An access unit delimiter and an IDR picture.
abbrev picture : List (List ℕ)
picture = (0x09 ∷ 0xF0 ∷ []) ∷ (0x65 ∷ 0x88 ∷ 0x80 ∷ []) ∷ []

picture-image : length (nalu_image picture) ≡ 13
unfolding nalu_image
picture-image = refl

h264_mp4toannexb-frames_example :
    (rest : List ℕ) × (h264_mp4toannexb config
        (frames 4 picture)
        (length (frames 4 picture))
        (replicate 40 0)
        40
      ≡ done (
        (front_sets (sps_0 ∷ []) (pps_0 ∷ []) picture ++ nalu_image picture) ++ rest,
        length (front_sets (sps_0 ∷ []) (pps_0 ∷ []) picture ++ nalu_image picture),
      ))
h264_mp4toannexb-frames_example =
    h264_mp4toannexb-frames config (sps_0 ∷ []) (pps_0 ∷ []) picture (replicate 40 0) 40
      config-HasBareSets (omega (arith, config-image)) (omega (arith, config-image)) (omega arith)
      (omega arith) (omega (arith, config-image, picture-image)) refl
