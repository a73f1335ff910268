-- ===== src/Avc/ParameterSets.antt =====
-- src/media-server/libflv/source/mpeg4-avc.c: the parameter sets of a decoder configuration
-- record, written and read back.
use stream.Base.{
  ℕ, suc, List, [], ◌∷◌, ◌++◌, ◌+◌, ◌-◌, ◌*◌, ◌/◌, ◌%◌, ◌^◌, ◌≤◌, ◌<◌, ◌≡◌, refl, ◌∙◌, ap, ◌>>>◌,
  ◌<<<◌, bit_and, bit_or, Bool, true, length, length-append, take-append, drop-append, All, done,
  arith, lt→ltb, le→leb,
}
use stream.Base.Bytes.{byte_mask, join16}
use mathlib.Core.List.{append_assoc}
use stream.Avc.Config.{data_capacity}
use stream.Avc.Load.{load_sets}
use stream.Avc.Save.{save_sets}

-- A parameter set with its length in front, in 16 bits.
unfoldable pub set_bytes : List ℕ → List ℕ
set_bytes s = (length s / 256) ∷ (length s % 256 ∷ s)

unfoldable pub sets_bytes : List (List ℕ) → List ℕ
sets_bytes [] = []
sets_bytes (s ∷ sets) = set_bytes s ++ sets_bytes sets

unfoldable pub sets_length : List (List ℕ) → ℕ
sets_length [] = 0
sets_length (s ∷ sets) = length s + sets_length sets

abbrev pub IsParameterSet : List ℕ → Type 0
IsParameterSet s = (0 < length s) × (length s < 2 ^ 16)

set_bytes-length :
    (s rest : List ℕ) → length (set_bytes s) + length rest ≡ length s + 2 + length rest
unfolding set_bytes
set_bytes-length s rest = omega arith

pub length-sets_bytes :
    (sets : List (List ℕ)) → length (sets_bytes sets) ≡ sets_length sets + 2 * length sets
unfolding sets_bytes set_bytes sets_length
length-sets_bytes [] = refl
length-sets_bytes (s ∷ sets) = omega (
  arith,
  length-append (set_bytes s) (sets_bytes sets),
  length-append s (sets_bytes sets),
  length-sets_bytes sets,
)

save_set :
    (n : ℕ) (s : List ℕ) (sets : List (List ℕ)) (bytes left : ℕ) (out : List ℕ)
    → length s + 2 ≤ bytes
    → length s < 2 ^ 16
    → save_sets n sets (bytes - (length s + 2)) ≡ done (true, out, left)
    → save_sets (suc n) (s ∷ sets) bytes ≡ done (true, set_bytes s ++ out, left)
unfolding save_sets set_bytes
save_set n s sets bytes left out p q h =
    let hi : bit_and (length s >>> 8) 0xFF ≡ length s / 256 =
      byte_mask (length s / 256) ∙ omega arith in
    rw (le→leb (length s + 2) bytes p, h, hi, byte_mask (length s))

pub save_sets-front :
    (used spare : List (List ℕ)) (bytes : ℕ)
    → All IsParameterSet used
    → length (sets_bytes used) ≤ bytes
    → save_sets (length used) (used ++ spare) bytes
      ≡ done (true, sets_bytes used, bytes - length (sets_bytes used))
unfolding sets_bytes save_sets
save_sets-front [] spare bytes h p = let e : bytes - 0 ≡ bytes = omega arith in rw e
save_sets-front (s ∷ used) spare bytes ((h, k), hs) p =
    let l : length (set_bytes s ++ sets_bytes used) ≡ length s + 2 + length (sets_bytes used) =
      length-append (set_bytes s) (sets_bytes used) ∙ set_bytes-length s (sets_bytes used) in
    let left : bytes - (length s + 2) - length (sets_bytes used)
        ≡ bytes - length (set_bytes s ++ sets_bytes used) =
      omega (arith, l) in
    save_set (length used) s (used ++ spare) bytes _ (sets_bytes used) (omega (arith, l, p)) k
      (save_sets-front used spare (bytes - (length s + 2)) hs (omega (arith, l, p)))
    ∙ ap (λ n. done (true, set_bytes s ++ sets_bytes used, n)) left

load_set :
    (within : ℕ → Bool) (n : ℕ) (s more : List ℕ) (bytes j used : ℕ) (sets : List (List ℕ))
    (rest : List ℕ) (j' used' : ℕ)
    → length s < 2 ^ 16
    → j + 2 < bytes
    → within (j + 2 + length s) ≡ true
    → used + length s ≤ data_capacity
    → load_sets within n more bytes (j + length s + 2) (used + length s)
      ≡ done (sets, rest, j', used')
    → load_sets within (suc n) (set_bytes s ++ more) bytes j used ≡ done (s ∷ sets, rest, j', used')
unfolding load_sets set_bytes
load_set within n s more bytes j used sets rest j' used' k b w u h =
    let len : bit_or ((length s / 256) <<< 8) (length s % 256) ≡ length s =
      join16 (length s / 256) (length s % 256) (omega arith) ∙ omega arith in
    rw (
      lt→ltb (j + 2) bytes b,
      len,
      w,
      le→leb (used + length s) data_capacity u,
      le→leb (length s) (length (s ++ more)) (omega (arith, length-append s more)),
      take-append s more,
      drop-append s more,
      h,
    )

pub load_sets-image :
    (within : ℕ → Bool) (sets : List (List ℕ)) (more : List ℕ) (bytes j used : ℕ)
    → All IsParameterSet sets
    → j + length (sets_bytes sets) ≤ bytes
    → ((k : ℕ) → k ≤ j + length (sets_bytes sets) → within k ≡ true)
    → used + sets_length sets ≤ data_capacity
    → load_sets within (length sets) (sets_bytes sets ++ more) bytes j used
      ≡ done (sets, more, j + length (sets_bytes sets), used + sets_length sets)
unfolding sets_bytes sets_length load_sets
load_sets-image within [] more bytes j used h b w u =
    let e : j + 0 ≡ j = omega arith in let e' : used + 0 ≡ used = omega arith in rw (e, e')
load_sets-image within (s ∷ sets) more bytes j used ((h, k), hs) b w u =
    let l : length (set_bytes s ++ sets_bytes sets) ≡ length s + 2 + length (sets_bytes sets) =
      length-append (set_bytes s) (sets_bytes sets) ∙ set_bytes-length s (sets_bytes sets) in
    let ends : j + length s + 2 + length (sets_bytes sets)
        ≡ j + length (set_bytes s ++ sets_bytes sets) =
      omega (arith, l) in
    let taken : used + length s + sets_length sets ≡ used + (length s + sets_length sets) =
      omega arith in
    ap (λ l. load_sets within (suc (length sets)) l bytes j used)
      (append_assoc (set_bytes s) (sets_bytes sets) more)
    ∙ load_set within (length sets) s (sets_bytes sets ++ more) bytes j used sets more _ _ k
        (omega (arith, l, b)) (w (j + 2 + length s) (omega (arith, l))) (omega (arith, u))
        (load_sets-image within sets more bytes (j + length s + 2) (used + length s) hs
          (omega (arith, l, b)) (λ i p. w i (omega (arith, l, p))) (omega (arith, u)))
    ∙ rw (ends, taken) refl
