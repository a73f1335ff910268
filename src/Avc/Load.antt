-- ===== src/Avc/Load.antt =====
-- src/media-server/libflv/source/mpeg4-avc.c: reading a decoder configuration record.
use stream.Base.{
  ℕ, zero, suc, List, [], ◌∷◌, ◌+◌, ◌==◌, ◌<<<◌, bit_and, bit_or, ltb, leb, if◌then◌else◌, Bool,
  drop, Outcome, done, assert, fail_if, ◌>>=◌, ◌>>◌,
}
use stream.Base.Buffer.{load, first_bytes}
use stream.Avc.Config.{Avc, sps_capacity, pps_capacity, data_capacity, replace_first}

-- The loop over the sequence or picture parameter sets, where `n` are left. `rest` is `data + j`, `used`
-- is `p - avc->data`, and `within` is the test that fails the assertion on the end of a set.
-- Returns the sets and what `data + j`, `j` and `p` are then.
unfoldable pub load_sets :
    (ℕ → Bool) → ℕ → List ℕ → ℕ → ℕ → ℕ → Outcome (List (List ℕ) × List ℕ × ℕ × ℕ)
load_sets within zero rest bytes j used = done ([], rest, j, used)
load_sets within (suc n) rest bytes j used =
    if ltb (j + 2) bytes
    then (do
      hi ← load rest 0
      lo ← load rest 1
      let len = bit_or (hi <<< 8) lo
      assert (within (j + 2 + len))
      assert (leb (used + len) data_capacity)
      set ← first_bytes len (drop 2 rest)
      (sets, rest', j', used') ←
          load_sets within n (drop len (drop 2 rest)) bytes (j + len + 2) (used + len)
      done (set ∷ sets, rest', j', used'))
    else done ([], rest, j, used)

unfoldable pub mpeg4_avc_decoder_configuration_record_load : List ℕ → ℕ → Avc → Outcome (ℕ × Avc)
mpeg4_avc_decoder_configuration_record_load buf bytes avc = do
  fail_if (ltb bytes 7) 1
  b0 ← load buf 0
  assert (1 == b0)
  b1 ← load buf 1
  b2 ← load buf 2
  b3 ← load buf 3
  b4 ← load buf 4
  b5 ← load buf 5
  let nb_sps = bit_and b5 0x1F
  assert (leb nb_sps sps_capacity)
  (sps, rest, j, used) ← load_sets (λ k. ltb k bytes) nb_sps (drop 6 buf) bytes 6 0
  assert (ltb j bytes)
  nb_pps ← load rest 0
  assert (leb nb_pps pps_capacity)
  (pps, _, j', used') ← load_sets (λ k. leb k bytes) nb_pps (drop 1 rest) bytes (j + 1) used
  let avc' = record avc {
    profile = b1;
    compatibility = b2;
    level = b3;
    nalu = bit_and b4 0x03 + 1;
    nb_sps = nb_sps;
    nb_pps = nb_pps;
    sps = replace_first sps avc.sps;
    pps = replace_first pps avc.pps;
    off = used';
  }
  done (j', avc')
