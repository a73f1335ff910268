-- ===== src/Avc/AnnexBLast.antt =====
-- src/media-server/libflv/source/mpeg4-mp4toannexb.c: the loop over the NAL units does not reach a
-- last one of one byte.
use stream.Base.{ℕ, List, [], ◌∷◌, ◌++◌, ◌≤◌, ◌≡◌, Bool, length, Outcome, done, failed, fault}
use stream.Avc.Config.{Avc}
use stream.Avc.Nalu.{nalu_loop}
use stream.Avc.AnnexB.{frames}

-- An error or a failed assertion.
abbrev IsRefused : Outcome (List ℕ × ℕ) → Type 0
IsRefused (done x) = ⊥
IsRefused (failed n) = Unit {0}
IsRefused fault = Unit {0}

module _ (avc : Avc) (b size : ℕ) (length_size : avc.nalu ≤ 4) where
  abbrev last : List (List ℕ)
  last = (b ∷ []) ∷ []

  -- What is left for the loop ends with the unit of one byte.
  IsUnreached : List (List ℕ) → ℕ → Type 0
  IsUnreached nals fuel =
      (src : List ℕ) (left : ℕ) (flag : Bool) (out : List ℕ) (dst : ℕ)
      → src ≡ frames avc.nalu (nals ++ last)
      → left ≡ length src
      → IsRefused (nalu_loop fuel avc src left flag out size dst)
