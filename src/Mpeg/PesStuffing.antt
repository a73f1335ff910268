-- ===== src/Mpeg/PesStuffing.antt =====
-- src/media-server/libmpeg/source/mpeg-pes.c: the loop over the stuffing bytes of an MPEG-1 packet
-- ends.
use stream.Base.{
  ℕ, zero, suc, List, [], ◌∷◌, ◌+◌, ◌<◌, ◌≤◌, ◌≡◌, refl, ◌==◌, ◌&&◌, ltb, length, true, false, Bool,
  Bool-cases, inl, inr, arith, done, ltb→lt,
}
use stream.Base.Buffer.{load}
use stream.Mpeg.Pes.{skip_stuffing}

load-inside : (i : ℕ) (buf : List ℕ) → i < length buf → (b : ℕ) × (load buf i ≡ done b)
load-inside i [] h = absurd (omega arith)
load-inside zero (b ∷ buf) h = (b, refl)
load-inside (suc i) (b ∷ buf) h = load-inside i buf (omega arith)

right_true : (a b : Bool) → (a && b) ≡ true → b ≡ true
right_true true b h = h
right_true false b h = absurd (ground (arith, h))

-- With more rounds for fuel than there are bytes from `i` on, and an array with a byte behind them, the
-- loop over stuffing bytes ends without a fault at an index from `i` to `bytes` whose byte is in the
-- array and where the condition of the loop is false.
pub skip_stuffing-stops :
    (fuel : ℕ) (buf : List ℕ) (bytes i : ℕ)
    → bytes < length buf
    → i ≤ bytes
    → bytes < i + fuel
    → (j b : ℕ) × (skip_stuffing fuel buf bytes i ≡ done j)
      × (i ≤ j)
      × (j ≤ bytes)
      × (load buf j ≡ done b)
      × ((b == 0xFF && ltb j bytes) ≡ false)
unfolding skip_stuffing
skip_stuffing-stops zero buf bytes i h k f = absurd (omega arith)
skip_stuffing-stops (suc fuel) buf bytes i h k f =
    let (b, e) = load-inside i buf (omega arith) in
    elim (Bool-cases (b == 0xFF && ltb i bytes)) [
      | inl t ↦
          let below : i < bytes = ltb→lt i bytes (right_true (b == 0xFF) (ltb i bytes) t) in
          let (j, c, x, l, r, v, w) =
            skip_stuffing-stops fuel buf bytes (i + 1) h (omega arith) (omega arith) in
          (j, c, rw (e, t) x, omega arith, r, v, w)
      | inr t ↦ (i, b, rw (e, t) refl, omega arith, k, e, t)
    ]
