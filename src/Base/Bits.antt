-- ===== src/Base/Bits.antt =====
-- The bit operations of C as arithmetic: masks are remainders, `|` of disjoint fields is a sum.
use Prim.Native.Nat.{ℕ, zero, suc, ◌+◌, ◌-◌, ◌*◌, ◌/◌, ◌%◌, ◌^◌, ◌≤◌, ◌<◌, min, max}
use Prim.Native.Nat.{bit_and, bit_or, bit_xor, digits, differ}
use Prim.Native.Nat.{bit_and-bitwise, bit_or-bitwise, bit_xor-bitwise}
use mathlib.Core.Path.{◌≡◌, refl, ap, ◌∙◌}
use native.Mathlib.Nat.{pow-suc, one-le-pow, div-div-eq-div-mul, div-add-mod}
use native.Mathlib.Omega.{arith}

-- The digit recursion behind the native operations does not depend on its fuel.
module _ (low : ℕ → ℕ) (op : ℕ → ℕ → ℕ) where
  digits-enough : (f g x y : ℕ) → x ≤ f → x ≤ g → digits low op f x y ≡ digits low op g x y
  digits-enough zero zero x y p q = refl
  digits-enough zero (suc g) zero y p q = refl
  digits-enough (suc f) zero zero y p q = refl
  digits-enough (suc f) (suc g) zero y p q = refl
  digits-enough zero g (suc x) y p q = absurd (omega arith)
  digits-enough (suc f) zero (suc x) y p q = absurd (omega arith)
  digits-enough (suc f) (suc g) (suc x) y p q =
      ap (λ (t : ℕ). t * 2 + op (suc x % 2) (y % 2))
        (digits-enough f g (suc x / 2) (y / 2) (omega arith) (omega arith))

pub bit_and-halve : (x y : ℕ) → bit_and x y ≡ bit_and (x / 2) (y / 2) * 2 + min (x % 2) (y % 2)
bit_and-halve zero y = omega (arith, bit_and-bitwise 0 y, bit_and-bitwise 0 (y / 2))
bit_and-halve (suc x) y = omega (
  arith,
  bit_and-bitwise (suc x) y,
  bit_and-bitwise (suc x / 2) (y / 2),
  digits-enough (λ _. zero) min x (suc x / 2) (suc x / 2) (y / 2) (omega arith) (omega arith),
)

pub bit_or-halve : (x y : ℕ) → bit_or x y ≡ bit_or (x / 2) (y / 2) * 2 + max (x % 2) (y % 2)
bit_or-halve zero y = omega (arith, bit_or-bitwise 0 y, bit_or-bitwise 0 (y / 2))
bit_or-halve (suc x) y = omega (
  arith,
  bit_or-bitwise (suc x) y,
  bit_or-bitwise (suc x / 2) (y / 2),
  digits-enough (λ b. b) max x (suc x / 2) (suc x / 2) (y / 2) (omega arith) (omega arith),
)

bit_and-zero_below : (n x : ℕ) → x ≤ n → bit_and x 0 ≡ 0
bit_and-zero_below n zero h = refl
bit_and-zero_below zero (suc x) h = absurd (omega arith)
bit_and-zero_below (suc n) (suc x) h =
    omega (arith, bit_and-halve (suc x) 0, bit_and-zero_below n (suc x / 2) (omega arith))

bit_or-zero_below : (n x : ℕ) → x ≤ n → bit_or x 0 ≡ x
bit_or-zero_below n zero h = refl
bit_or-zero_below zero (suc x) h = absurd (omega arith)
bit_or-zero_below (suc n) (suc x) h =
    omega (arith, bit_or-halve (suc x) 0, bit_or-zero_below n (suc x / 2) (omega arith))

zero-bit_or : (y : ℕ) → bit_or 0 y ≡ y
zero-bit_or y = bit_or-bitwise 0 y

double : (q k : ℕ) → q * 2 ^ suc k ≡ 2 * (q * 2 ^ k)
double q k = omega (arith, ap (λ (t : ℕ). q * t) (pow-suc 2 k))

and_parts : (k q r : ℕ) → r < 2 ^ k → bit_and (q * 2 ^ k + r) (2 ^ k - 1) ≡ r
and_parts zero q r h = omega (arith, bit_and-zero_below (q * 1 + r) (q * 1 + r))
and_parts (suc k) q r h = ground (
  arith,
  pow-suc 2 k,
  double q k,
  one-le-pow k 2,
  bit_and-halve (q * 2 ^ suc k + r) (2 ^ suc k - 1),
  and_parts k q (r / 2),
)

or_parts : (k q r : ℕ) → r < 2 ^ k → bit_or (q * 2 ^ k) r ≡ q * 2 ^ k + r
or_parts zero q r h = ground (arith, bit_or-zero_below q q)
or_parts (suc k) q r h =
    ground (arith, pow-suc 2 k, double q k, bit_or-halve (q * 2 ^ suc k) r, or_parts k q (r / 2))

or_parts_rev : (k q r : ℕ) → r < 2 ^ k → bit_or r (q * 2 ^ k) ≡ q * 2 ^ k + r
or_parts_rev zero q r h = ground (arith, zero-bit_or q)
or_parts_rev (suc k) q r h =
    ground
      (arith, pow-suc 2 k, double q k, bit_or-halve r (q * 2 ^ suc k), or_parts_rev k q (r / 2))

and_shifted : (k x m : ℕ) → bit_and x (m * 2 ^ k) ≡ bit_and (x / 2 ^ k) m * 2 ^ k
and_shifted zero x m = ground arith
and_shifted (suc k) x m = ground (
  arith,
  pow-suc 2 k,
  double m k,
  double (bit_and (x / 2 / 2 ^ k) m) k,
  bit_and-halve x (m * 2 ^ suc k),
  div-div-eq-div-mul x 2 (2 ^ k),
  and_shifted k (x / 2) m,
)

-- `x & (2 ^ k - 1)`
pub mask_low : (k x : ℕ) → bit_and x (2 ^ k - 1) ≡ x % 2 ^ k
mask_low k x = ground (arith, one-le-pow k 2, and_parts k (x / 2 ^ k) (x % 2 ^ k))

-- `x | y` where `y` fits the low bits that `x` leaves free.
pub or_low : (k x y : ℕ) → x % 2 ^ k ≡ 0 → y < 2 ^ k → bit_or x y ≡ x + y
or_low k x y p q = ground (arith, one-le-pow k 2, div-add-mod x (2 ^ k), or_parts k (x / 2 ^ k) y)

pub or_high : (k x y : ℕ) → x < 2 ^ k → y % 2 ^ k ≡ 0 → bit_or x y ≡ x + y
or_high k x y p q =
    ground (arith, one-le-pow k 2, div-add-mod y (2 ^ k), or_parts_rev k (y / 2 ^ k) x)

-- A mask of `w` bits from bit `k` on.
pub mask_field : (k w x : ℕ) → bit_and x ((2 ^ w - 1) * 2 ^ k) ≡ x / 2 ^ k % 2 ^ w * 2 ^ k
mask_field k w x = and_shifted k x (2 ^ w - 1) ∙ ap (λ (t : ℕ). t * 2 ^ k) (mask_low w (x / 2 ^ k))

differ-zero : (x : ℕ) → differ x 0 ≡ x
differ-zero zero = refl
differ-zero (suc x) = refl

pub bit_xor-halve : (x y : ℕ) → bit_xor x y ≡ bit_xor (x / 2) (y / 2) * 2 + differ (x % 2) (y % 2)
bit_xor-halve zero y = ground (arith, bit_xor-bitwise 0 y, bit_xor-bitwise 0 (y / 2))
bit_xor-halve (suc x) y = omega (
  arith,
  bit_xor-bitwise (suc x) y,
  bit_xor-bitwise (suc x / 2) (y / 2),
  digits-enough (λ b. b) differ x (suc x / 2) (suc x / 2) (y / 2) (omega arith) (omega arith),
)

bit_xor-zero_below : (n x : ℕ) → x ≤ n → bit_xor x 0 ≡ x
bit_xor-zero_below n zero h = refl
bit_xor-zero_below zero (suc x) h = absurd (omega arith)
bit_xor-zero_below (suc n) (suc x) h = omega (
  arith,
  bit_xor-halve (suc x) 0,
  differ-zero (suc x % 2),
  bit_xor-zero_below n (suc x / 2) (omega arith),
)

bit_xor_zero : (x : ℕ) → bit_xor x 0 ≡ x
bit_xor_zero x = bit_xor-zero_below x x (omega arith)

pub zero-bit_xor : (y : ℕ) → bit_xor 0 y ≡ y
zero-bit_xor y = bit_xor-bitwise 0 y

differ_self : (b : ℕ) → differ b b ≡ 0
differ_self zero = refl
differ_self (suc b) = differ_self b

differ_bit : (a b : ℕ) → a < 2 → b < 2 → differ a b < 2
differ_bit zero b p q = q
differ_bit (suc a) zero p q = p
differ_bit (suc a) (suc b) p q = differ_bit a b (omega arith) (omega arith)

-- `x ^ y` where `y` has no bits below bit `k`: those of `x` stay.
pub xor_parts :
    (k q r m : ℕ) → r < 2 ^ k → bit_xor (q * 2 ^ k + r) (m * 2 ^ k) ≡ bit_xor q m * 2 ^ k + r
xor_parts zero q r m h = ground arith
xor_parts (suc k) q r m h = ground (
  arith,
  pow-suc 2 k,
  double q k,
  double m k,
  double (bit_xor q m) k,
  differ-zero (r % 2),
  bit_xor-halve (q * 2 ^ suc k + r) (m * 2 ^ suc k),
  xor_parts k q (r / 2) m,
)

-- `x ^ y` where `y` is what `x` has below bit `k`: those bits become zero.
pub xor_cancel : (k q r : ℕ) → r < 2 ^ k → bit_xor (q * 2 ^ k + r) r ≡ q * 2 ^ k
xor_cancel zero q r h = ground (arith, bit_xor_zero (q * 1 + r))
xor_cancel (suc k) q r h = ground (
  arith,
  pow-suc 2 k,
  double q k,
  bit_xor-halve (q * 2 ^ suc k + r) r,
  differ_self (r % 2),
  xor_cancel k q (r / 2),
)

-- The result has no more bits than the operands.
pub xor_bound : (k x y : ℕ) → x < 2 ^ k → y < 2 ^ k → bit_xor x y < 2 ^ k
xor_bound zero x y p q = ground (arith, bit_xor_zero x)
xor_bound (suc k) x y p q =
    ground (
      arith,
      pow-suc 2 k,
      bit_xor-halve x y,
      differ_bit (x % 2) (y % 2),
      xor_bound k (x / 2) (y / 2),
    )
