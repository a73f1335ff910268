-- ===== src/Mpeg/PesMpeg1.antt =====
-- src/media-server/libmpeg/source/mpeg-pes.c: the stuffing bytes of an MPEG-1 header.
use stream.Base.{
  ℕ, zero, suc, List, ◌∷◌, ◌+◌, ◌≤◌, ◌<◌, ◌≡◌, refl, ◌∙◌, lt→ltb, replicate, fault, none, some,
  get_elem?, arith,
}
use native.Mathlib.Numerals.{add-one}
use native.Mathlib.Decide.{dec_lt}
use stream.Mpeg.Pes.{Pes, skip_stuffing, pes_read_mpeg1_header}

-- `get_elem?` in a run of equal values, and behind it.
get_elem?-replicate : (n i : ℕ) (a : ℕ) → i < n → get_elem? (replicate n a) i ≡ some a
get_elem?-replicate zero i a h = absurd (omega arith)
get_elem?-replicate (suc n) zero a h = refl
get_elem?-replicate (suc n) (suc i) a h = get_elem?-replicate n i a (omega arith)

get_elem?-end : (n : ℕ) (a : ℕ) → get_elem? (replicate n a) n ≡ none
get_elem?-end zero a = refl
get_elem?-end (suc n) a = get_elem?-end n a

module _ (b0 b1 b2 b3 b4 b5 n : ℕ) where
  abbrev stuffed : List ℕ
  stuffed = b0 ∷ b1 ∷ b2 ∷ b3 ∷ b4 ∷ b5 ∷ replicate n 0xFF

  abbrev behind_header : ℕ → ℕ
  behind_header i = suc (suc (suc (suc (suc (suc i)))))

  skip_round :
      (fuel i : ℕ)
      → i < n
      → skip_stuffing (suc fuel) stuffed (n + 6) (behind_header i)
        ≡ skip_stuffing fuel stuffed (n + 6) (behind_header (suc i))
  unfolding skip_stuffing
  skip_round fuel i h =
      rw (get_elem?-replicate n i 0xFF h, lt→ltb (behind_header i) (n + 6) (omega arith), add-one)

  skip_end : (fuel : ℕ) → skip_stuffing (suc fuel) stuffed (n + 6) (behind_header n) ≡ fault
  unfolding skip_stuffing
  skip_end fuel = rw (get_elem?-end n 0xFF)

  skip_overrun :
      (fuel i : ℕ)
      → n ≤ fuel + i
      → i ≤ n
      → skip_stuffing (suc fuel) stuffed (n + 6) (behind_header i) ≡ fault
  skip_overrun zero i p q = let e : i ≡ n = omega arith in rw e (skip_end zero)
  skip_overrun (suc fuel) i p q = elim (dec_lt i n) [
    | yes h ↦ skip_round (suc fuel) i h ∙ skip_overrun fuel (suc i) (omega arith) h
    | no h ↦ let e : i ≡ n = omega arith in rw e (skip_end (suc fuel))
  ]

-- An MPEG-1 packet whose bytes from the sixth on are all stuffing is read past its end.
pub pes_read_mpeg1_header-overrun :
    (pes : Pes) (sid l0 l1 n : ℕ)
    → pes_read_mpeg1_header pes (0 ∷ 0 ∷ 1 ∷ sid ∷ l0 ∷ l1 ∷ replicate n 0xFF) (n + 6) ≡ fault
unfolding pes_read_mpeg1_header
pes_read_mpeg1_header-overrun pes sid l0 l1 n =
    rw (add-one, skip_overrun 0 0 1 sid l0 l1 n (n + 6) 0 (omega arith) (omega arith))
