-- ===== src/Mpeg/TsField.antt =====
-- src/media-server/libmpeg/source/mpeg-ts-enc.c and mpeg-ts-dec.c: the four bytes and the adaptation
-- field in front of a packet, as they are written and read.
use stream.Base.{
  ℕ, zero, suc, ◌%◌, ◌<◌, ◌≡◌, refl, ap, ◌∙◌, ◌==◌, ◌&&◌, ◌>>>◌, bit_and, bit_or, Bool, true, arith,
}
use native.Mathlib.Decide.{dec_lt}
use stream.Base.Bits.{mask_low}

-- A test that holds of all numbers below `n`.
all_below : ℕ → (ℕ → Bool) → Bool
all_below zero p = true
all_below (suc n) p = p n && all_below n p

and_first : (a b : Bool) → a && b ≡ true → a ≡ true
and_first a b h = ground arith

and_second : (a b : Bool) → a && b ≡ true → b ≡ true
and_second a b h = ground arith

all_below-lt : (n : ℕ) (p : ℕ → Bool) (r : ℕ) → all_below n p ≡ true → r < n → p r ≡ true
unfolding all_below
all_below-lt zero p r h b = absurd (omega (arith, b))
all_below-lt (suc n) p r h b = elim (dec_lt r n) [
  | yes d ↦ all_below-lt n p r (and_second (p n) (all_below n p) h) d
  | no d ↦ let e : r ≡ n = omega (arith, b, d) in ap p e ∙ and_first (p n) (all_below n p) h
]

-- The fourth byte without and with an adaptation field, by the continuity counter.
abbrev pub plain_byte : ℕ → ℕ
plain_byte k = bit_or 0x10 (bit_and k 0x0F)

abbrev pub field_byte : ℕ → ℕ
field_byte k = bit_or (plain_byte k) 0x20

abbrev byte_test : ℕ → Bool
byte_test r =
    let b = bit_or 0x10 r in
    let c = bit_or b 0x20 in
    (bit_and b 0x20 == 0)
    && ((bit_and c 0x20 == 0x20)
        && ((bit_or c 0x20 == c)
            && ((bit_and (b >>> 4) 0x03 == 1)
                && ((bit_and (c >>> 4) 0x03 == 3)
                    && ((bit_and b 0x0F == r) && (bit_and c 0x0F == r))))))

test : all_below 16 byte_test ≡ true
unfolding all_below
test = refl

test→eq : (a b : ℕ) → (a == b) ≡ true → a ≡ b
test→eq a b h = ground arith

-- What the fourth byte says, read bit by bit.
abbrev pub ByteFacts : ℕ → Type 0
ByteFacts k =
    (bit_and (plain_byte k) 0x20 ≡ 0)
    × (bit_and (field_byte k) 0x20 ≡ 0x20)
    × (bit_or (field_byte k) 0x20 ≡ field_byte k)
    × (bit_and (plain_byte k >>> 4) 0x03 ≡ 1)
    × (bit_and (field_byte k >>> 4) 0x03 ≡ 3)
    × (bit_and (plain_byte k) 0x0F ≡ k % 16)
    × (bit_and (field_byte k) 0x0F ≡ k % 16)

pub byte_facts : (k : ℕ) → ByteFacts k
byte_facts k =
    let r = bit_and k 0x0F in
    let m : r ≡ k % 16 = mask_low 4 k in
    let b = bit_or 0x10 r in
    let c = bit_or b 0x20 in
    let t = all_below-lt 16 byte_test r test (omega (arith, m)) in
    let t1 = and_second (bit_and b 0x20 == 0) _ t in
    let t2 = and_second (bit_and c 0x20 == 0x20) _ t1 in
    let t3 = and_second (bit_or c 0x20 == c) _ t2 in
    let t4 = and_second (bit_and (b >>> 4) 0x03 == 1) _ t3 in
    let t5 = and_second (bit_and (c >>> 4) 0x03 == 3) _ t4 in
    let t6 = and_second (bit_and b 0x0F == r) _ t5 in
    (
      test→eq (bit_and b 0x20) 0 (and_first _ _ t),
      test→eq (bit_and c 0x20) 0x20 (and_first _ _ t1),
      test→eq (bit_or c 0x20) c (and_first _ _ t2),
      test→eq (bit_and (b >>> 4) 0x03) 1 (and_first _ _ t3),
      test→eq (bit_and (c >>> 4) 0x03) 3 (and_first _ _ t4),
      test→eq (bit_and b 0x0F) r (and_first _ _ t5) ∙ m,
      test→eq (bit_and c 0x0F) r t6 ∙ m,
    )
