-- ===== src/Flv/SkipLoop.antt =====
-- src/media-server/libflv/source/flv-reader.c: the loop that skips to the first tag ends.
use stream.Base.{
  ℕ, zero, suc, ◌-◌, ◌≤◌, ◌≡◌, refl, ltb, leb, ◌&&◌, arith, Bool-cases, inl, inr, false,
  if◌then◌else◌,
}
use stream.Flv.Proto.{flv_header_size}
use stream.Flv.Reader.{ReadResult, skip_loop}

none_left : (n : ℕ) → n ≤ 0 → ltb 0 n ≡ false
none_left n h = ground arith

module _ {S : Type 0} (read : S → ℕ → S × ReadResult) where
  rounds : (a b n : ℕ) (s : S) → n ≤ a → n ≤ b → skip_loop read a n s ≡ skip_loop read b n s
  unfolding skip_loop
  rounds zero zero n s p q = refl
  rounds zero (suc b) n s p q = rw (none_left n p)
  rounds (suc a) zero n s p q = rw (none_left n q)
  rounds (suc a) (suc b) n s p q = elim (Bool-cases (ltb 0 n && ltb n 4096)) [
    | inl e ↦ rw e (
        rounds a b (n - flv_header_size)
          (read s (if leb flv_header_size n then flv_header_size else n)).0 (omega arith)
          (omega arith))
    | inr e ↦ rw e
  ]

  -- The loop over the bytes in front of the first tag is left after at most as many rounds as there
  -- are bytes: with more rounds for fuel the source ends in the same state.
  pub skip_loop-ends :
      (fuel n : ℕ) (s : S) → n ≤ fuel → skip_loop read fuel n s ≡ skip_loop read n n s
  skip_loop-ends fuel n s h = rounds fuel n n s h (omega arith)
