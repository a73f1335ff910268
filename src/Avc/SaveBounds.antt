-- ===== src/Avc/SaveBounds.antt =====
-- src/media-server/libflv/source/mpeg4-avc.c: the writer of the decoder configuration record stays
-- inside of its array.
use stream.Base.{
  ℕ, zero, suc, List, [], ◌∷◌, ◌++◌, ◌+◌, ◌-◌, ◌≤◌, ◌<◌, ◌≡◌, ◌&&◌, ◌||◌, ltb, leb, Bool-cases,
  Bool, true, false, if◌then◌else◌, inl, inr, length, length-append, Outcome, done, failed, fault,
  ◌>>=◌, arith, leb→le,
}
use mathlib.Core.Path.{subst}
use stream.Avc.Config.{Avc}
use stream.Avc.Save.{
  save_sets, save_pps, record_start, is_high_profile, extension_bytes,
  mpeg4_avc_decoder_configuration_record_save,
}

-- A call that comes to its end and has stored at most `bytes` bytes, whether all was written or not.
abbrev pub IsWithin : ℕ → Outcome (Bool × List ℕ) → Type 0
IsWithin bytes (done (fits, out)) = length out ≤ bytes
IsWithin bytes (failed n) = ⊥
IsWithin bytes fault = ⊥

-- What is stored and the room that is left are the room that was there.
abbrev Uses : ℕ → Outcome (Bool × List ℕ × ℕ) → Type 0
Uses bytes (done (fits, out, left)) = length out + left ≡ bytes
Uses bytes (failed n) = ⊥
Uses bytes fault = ⊥

extend-Uses :
    (hi lo bytes : ℕ) (s : List ℕ) (r : Outcome (Bool × List ℕ × ℕ))
    → length s + 2 ≤ bytes
    → Uses (bytes - (length s + 2)) r
    → Uses bytes (r >>= λ (fits, out, left). done (fits, hi ∷ (lo ∷ (s ++ out)), left))
extend-Uses hi lo bytes s (done (fits, out, left)) h u = omega (arith, h, u, length-append s out)
extend-Uses hi lo bytes s (failed n) h u = u
extend-Uses hi lo bytes s fault h u = u

save_sets-Uses :
    (n : ℕ) (sets : List (List ℕ)) (bytes : ℕ)
    → n ≤ length sets
    → Uses bytes (save_sets n sets bytes)
unfolding save_sets
save_sets-Uses zero sets bytes k = omega arith
save_sets-Uses (suc n) [] bytes k = absurd (omega (arith, k))
save_sets-Uses (suc n) (s ∷ sets) bytes k = elim (Bool-cases (leb (length s + 2) bytes)) [
  | inl e ↦ rw e (
      extend-Uses _ _ bytes s (save_sets n sets (bytes - (length s + 2)))
        (leb→le (length s + 2) bytes e)
        (save_sets-Uses n sets (bytes - (length s + 2)) (omega (arith, k))))
  | inr e ↦ rw e (omega arith)
]

extension_bytes-fits : (avc : Avc) (bytes : ℕ) → length (extension_bytes avc bytes) ≤ bytes
unfolding extension_bytes
extension_bytes-fits avc bytes = elim (Bool-cases (leb 4 bytes)) [
  | inl e ↦ elim (Bool-cases (is_high_profile avc.profile)) [
    | inl i ↦ rw (e, i) (leb→le 4 bytes e)
    | inr i ↦ rw (e, i) (omega arith)
  ]
  | inr e ↦ rw e (omega arith)
]

more_bytes-fits :
    (avc : Avc) (fits : Bool) (bytes : ℕ)
    → length (if fits then extension_bytes avc bytes else []) ≤ bytes
more_bytes-fits avc true bytes = extension_bytes-fits avc bytes
more_bytes-fits avc false bytes = omega arith

-- Behind the sequence parameter sets.
after_pps :
    (avc : Avc) (bytes left : ℕ) (sps : List ℕ) (r : Outcome (Bool × List ℕ × ℕ))
    → length sps + left ≡ bytes
    → Uses left r
    → IsWithin (bytes + 7) (
        r >>= λ (fits, pps, left'). done (
          fits,
          record_start avc
              (sps ++ (avc.nb_pps ∷ (pps ++ (if fits then extension_bytes avc left' else [])))),
        ))
after_pps avc bytes left sps (done (fits, pps, left')) p u =
    let more = if fits then extension_bytes avc left' else [] in
    omega (
      arith,
      p,
      u,
      length-append sps (avc.nb_pps ∷ (pps ++ more)),
      length-append pps more,
      more_bytes-fits avc fits left',
    )
after_pps avc bytes left sps (failed n) p u = u
after_pps avc bytes left sps fault p u = u

after_sps :
    (avc : Avc) (bytes : ℕ) (r : Outcome (Bool × List ℕ × ℕ))
    → avc.nb_pps ≤ length avc.pps
    → Uses bytes r
    → IsWithin (bytes + 7) (
        r >>= λ (fits, sps, left).
        if fits then save_pps avc sps left else done (false, record_start avc sps))
unfolding save_pps
after_sps avc bytes (done (true, sps, left)) k u =
    after_pps avc bytes left sps (save_sets avc.nb_pps avc.pps left) u
      (save_sets-Uses avc.nb_pps avc.pps left k)
after_sps avc bytes (done (false, sps, left)) k u = omega (arith, u)
after_sps avc bytes (failed n) k u = u
after_sps avc bytes fault k u = u

nalu_test : (n : ℕ) → 0 < n → n ≤ 4 → (ltb 0 n && leb n 4) ≡ true
nalu_test n h k = ground arith

-- Where the length size is of 1 to 4 bytes and the arrays have the sets that `nb_sps` and `nb_pps`
-- count, the writer of the record comes to its end and stores at most `bytes` bytes, also where
-- it returns -1 behind the first stores.
pub mpeg4_avc_decoder_configuration_record_save-IsWithin :
    (avc : Avc) (bytes : ℕ)
    → 0 < avc.nalu
    → avc.nalu ≤ 4
    → avc.nb_sps ≤ length avc.sps
    → avc.nb_pps ≤ length avc.pps
    → IsWithin bytes (mpeg4_avc_decoder_configuration_record_save avc bytes)
unfolding mpeg4_avc_decoder_configuration_record_save
mpeg4_avc_decoder_configuration_record_save-IsWithin avc bytes p q h k =
    elim (Bool-cases (ltb bytes 7 || ltb 32 avc.nb_sps)) [
      | inl e ↦ rw (nalu_test avc.nalu p q, e) (omega arith)
      | inr e ↦
          let enough : bytes - 7 + 7 ≡ bytes = ground (arith, e) in
          rw (nalu_test avc.nalu p q, e)
            (subst
              (λ n. IsWithin n (
                save_sets avc.nb_sps avc.sps (bytes - 7) >>= λ (fits, sps, left).
                if fits then save_pps avc sps left else done (false, record_start avc sps)))
              enough
              (after_sps avc (bytes - 7) (save_sets avc.nb_sps avc.sps (bytes - 7)) k
                (save_sets-Uses avc.nb_sps avc.sps (bytes - 7) h)))
    ]
