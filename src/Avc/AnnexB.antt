-- ===== src/Avc/AnnexB.antt =====
-- src/media-server/libflv/source/mpeg4-mp4toannexb.c: one round of the loop over the NAL units.
use stream.Base.{
  ℕ, zero, suc, List, [], ◌∷◌, ◌++◌, ◌+◌, ◌-◌, ◌/◌, ◌%◌, ◌^◌, ◌≤◌, ◌<◌, ◌≡◌, refl, sym, ◌∙◌, ap,
  ◌&&◌, bit_and, ltb, leb, Bool, true, length, drop, drop-drop, take-append, drop-append,
  length-append, done, arith, le→leb, lt→ltb,
}
use stream.Base.Buffer.{load, store-extend, load-behind}
use stream.Avc.Config.{Avc}
use stream.Avc.Nalu.{start_code, nalu_length, insert_sets, nalu_loop}

-- A length in `k` bytes, the most significant one first.
unfoldable pub length_bytes : ℕ → ℕ → List ℕ
length_bytes zero n = []
length_bytes (suc k) n = (n / 256 ^ k % 256) ∷ length_bytes k n

-- NAL units with their lengths in `k` bytes in front.
unfoldable pub frames : ℕ → List (List ℕ) → List ℕ
frames k [] = []
frames k (nal ∷ nals) = length_bytes k (length nal) ++ (nal ++ frames k nals)

-- The type of a NAL unit.
unfoldable pub nal_kind : List ℕ → ℕ
nal_kind [] = 0
nal_kind (b ∷ nal) = bit_and b 0x1F

-- Of two bytes at least, with a length that fits its field and an int.
abbrev pub IsNal : ℕ → List ℕ → Type 0
IsNal k nal = (2 ≤ length nal) × (length nal < 256 ^ k) × (length nal < 2 ^ 31)

pub length-length_bytes : (k n : ℕ) → length (length_bytes k n) ≡ k
unfolding length_bytes
length-length_bytes zero n = refl
length-length_bytes (suc k) n = ap suc (length-length_bytes k n)

pub read_length :
    (k n : ℕ) (more : List ℕ)
    → k ≤ 4
    → n < 256 ^ k
    → nalu_length 0 k (length_bytes k n ++ more) ≡ done n
unfolding nalu_length length_bytes
read_length zero n more h p = ap (λ (m : ℕ). done m) (omega arith)
read_length (suc zero) n more h p = ap (λ (m : ℕ). done m) (omega arith)
read_length (suc (suc zero)) n more h p = ap (λ (m : ℕ). done m) (omega arith)
read_length (suc (suc (suc zero))) n more h p = ap (λ (m : ℕ). done m) (omega arith)
read_length (suc (suc (suc (suc zero)))) n more h p = ap (λ (m : ℕ). done m) (omega arith)
read_length (suc (suc (suc (suc (suc k))))) n more h p = absurd (omega arith)

load_first : (k n b : ℕ) (more : List ℕ) → load (length_bytes k n ++ (b ∷ more)) k ≡ done b
load_first k n b more =
    load-behind (length_bytes k n) (b ∷ more) k 0 (omega (arith, length-length_bytes k n))

pub drop_frame : (k n : ℕ) (more : List ℕ) → drop k (length_bytes k n ++ more) ≡ more
drop_frame k n more =
    ap (λ i. drop i (length_bytes k n ++ more)) (sym (length-length_bytes k n))
    ∙ drop-append (length_bytes k n) more

pub in_range :
    (n left k : ℕ)
    → 0 < n
    → n < 2 ^ 31
    → n + k ≤ left
    → (ltb 0 n && (ltb n (2 ^ 31) && leb (n + k) left)) ≡ true
in_range n left k p q r = rw (lt→ltb 0 n p, lt→ltb n (2 ^ 31) q, le→leb (n + k) left r)

-- A round of the loop over a NAL unit for which `insert_sets` leaves `written` in the output.
pub nalu_round :
    (fuel : ℕ) (avc : Avc) (b : ℕ) (body more written spare : List ℕ) (left : ℕ) (flag flag' : Bool)
    (out : List ℕ) (size dst dst' : ℕ)
    → avc.nalu ≤ 4
    → IsNal avc.nalu (b ∷ body)
    → left ≡ length (b ∷ body) + avc.nalu + length more
    → insert_sets avc (nal_kind (b ∷ body)) flag out size dst ≡ done (flag', written ++ spare, dst')
    → dst' ≡ length written
    → dst' + length (b ∷ body) + 4 ≤ size
    → length (b ∷ body) + 4 ≤ length spare
    → nalu_loop
        (suc fuel)
        avc
        (length_bytes avc.nalu (length (b ∷ body)) ++ ((b ∷ body) ++ more))
        left
        flag
        out
        size
        dst
      ≡ nalu_loop fuel avc more
          (length more)
          flag'
          ((written ++ (start_code ++ (b ∷ body)))
            ++ drop (length (start_code ++ (b ∷ body))) spare)
          size
          (dst' + length (start_code ++ (b ∷ body)))
unfolding nalu_loop nal_kind
nalu_round fuel avc b body more written spare left flag flag' out size dst dst' k4 (two, field, int)
      l ins d room space =
    let k = avc.nalu in
    let nal = b ∷ body in
    let n = length nal in
    let src = length_bytes k n ++ (nal ++ more) in
    let rest : drop (k + n) src ≡ more =
      sym (drop-drop n k src)
      ∙ ap (λ l. drop n l) (drop_frame k n (nal ++ more))
      ∙ drop-append nal more in
    let four : 4 + n ≡ length (start_code ++ nal) = omega arith in
    let left' : left - (n + k) ≡ length more = omega (arith, l) in
    rw
      (
        lt→ltb (k + 1) left (omega (arith, l, two)),
        read_length k n (nal ++ more) k4 field,
        in_range n left k (omega arith) int (omega (arith, l)),
        load_first k n b (body ++ more),
      )
      (rw
        (
          ins,
          le→leb (dst' + n + 4) size room,
          drop_frame k n (nal ++ more),
          le→leb n (length (nal ++ more)) (omega (arith, length-append nal more)),
          take-append nal more,
          store-extend dst' written (start_code ++ nal) spare d (omega (arith, space)),
          rest,
          left',
        )
        (ap
          (λ (i : ℕ).
            nalu_loop fuel avc more (length more) flag'
              ((written ++ (start_code ++ nal)) ++ drop (length (start_code ++ nal)) spare) size
              (dst' + i))
          four))
