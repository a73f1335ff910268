-- ===== src/Mpeg/TsStuffing.antt =====
-- src/media-server/libmpeg/source/mpeg-ts-enc.c: the stuffing of a packet that is not full.
use stream.Base.{
  ℕ, zero, suc, List, [], ◌∷◌, ◌++◌, ◌+◌, ◌-◌, ◌≤◌, ◌<◌, ◌≡◌, refl, sym, ap, ◌∙◌, ◌⊎◌, ◌==◌,
  bit_and, bit_or, u8, leb, lt→ltb, le→leb, Bool, inl, inr, true, false, length, length-append,
  length-drop, length-take, take, drop, take-drop, drop-drop, drop-past, take-append, drop-append,
  replicate, arith, done,
}
use mathlib.Core.List.{append_assoc}
use stream.Base.Buffer.{load, store, store-behind, store-extend}
use stream.Mpeg.Pes.{differs}
use stream.Mpeg.TsHeader.{set_bits}
use stream.Mpeg.TsPacket.{move_headers, extend_adaptation, add_adaptation, stuff_packet}

pub length-replicate : (n b : ℕ) → length (replicate n b) ≡ n
length-replicate zero b = refl
length-replicate (suc n) b = ap suc (length-replicate n b)

-- An adaptation field that is `k` bytes long, with its length, and has no flags.
unfoldable pub stuffing : ℕ → List ℕ
stuffing zero = []
stuffing (suc zero) = 0 ∷ []
stuffing (suc (suc k)) = suc k ∷ (0 ∷ replicate k 0xFF)

pub length-stuffing : (k : ℕ) → length (stuffing k) ≡ k
unfolding stuffing
length-stuffing zero = refl
length-stuffing (suc zero) = refl
length-stuffing (suc (suc k)) = ap (λ n. suc (suc n)) (length-replicate k 0xFF)

-- Bytes in front of `tail` that are moved by `k` places.
pub store-moved :
    (front h tail : List ℕ) (i k : ℕ)
    → i ≡ length front + k
    → k ≤ length tail
    → store i h (front ++ (h ++ tail)) ≡ done (front ++ (take k (h ++ tail) ++ (h ++ drop k tail)))
store-moved front h tail i k e b =
    let all = h ++ tail in
    let l = length-take k all (omega (arith, b, length-append h tail)) in
    let whole : (front ++ take k all) ++ drop k all ≡ front ++ all =
      append_assoc front (take k all) (drop k all) ∙ ap (λ xs. front ++ xs) (take-drop k all) in
    let moved =
      store-extend i (front ++ take k all) h (drop k all)
        (omega (arith, e, l, length-append front (take k all)))
        (omega (arith, b, length-drop k all, length-append h tail)) in
    let comm : k + length h ≡ length h + k = omega arith in
    let behind : drop (length h) (drop k all) ≡ drop k tail =
      drop-drop (length h) k all ∙ ap (λ n. drop n all) comm ∙ drop-past h tail k in
    ap (λ xs. store i h xs) (sym whole)
    ∙ moved
    ∙ ap (λ xs. done xs)
        (ap (λ xs. ((front ++ take k all) ++ h) ++ xs) behind
          ∙ append_assoc (front ++ take k all) h (drop k tail)
          ∙ append_assoc front (take k all) (h ++ drop k tail))

pub set_bits-third :
    (a0 a1 a2 b3 bits : ℕ) (ys : List ℕ)
    → set_bits 3 bits (a0 ∷ a1 ∷ a2 ∷ b3 ∷ ys) ≡ done (a0 ∷ a1 ∷ a2 ∷ bit_or b3 bits ∷ ys)
unfolding set_bits
set_bits-third a0 a1 a2 b3 bits ys =
    store-behind (a0 ∷ a1 ∷ a2 ∷ []) (bit_or b3 bits ∷ []) (b3 ∷ ys) (omega arith)

pub add_adaptation-image :
    (a0 a1 a2 b3 : ℕ) (ys : List ℕ) (k : ℕ)
    → 0 < k
    → k ≤ 184
    → k ≤ length ys
    → add_adaptation k (a0 ∷ a1 ∷ a2 ∷ b3 ∷ ys)
      ≡ done (a0 ∷ a1 ∷ a2 ∷ bit_or b3 0x20 ∷ (stuffing k ++ drop k ys))
unfolding add_adaptation stuffing
add_adaptation-image a0 a1 a2 b3 ys zero p q r = absurd (omega (arith, p))
add_adaptation-image a0 a1 a2 b3 ys (suc zero) p q r = rw (
  set_bits-third a0 a1 a2 b3 0x20 ys,
  store-behind (a0 ∷ a1 ∷ a2 ∷ bit_or b3 0x20 ∷ []) (0 ∷ []) ys r,
)
add_adaptation-image a0 a1 a2 b3 [] (suc (suc k)) p q r = absurd (omega (arith, r))
add_adaptation-image a0 a1 a2 b3 (y ∷ []) (suc (suc k)) p q r = absurd (omega (arith, r))
add_adaptation-image a0 a1 a2 b3 (y ∷ (z ∷ ys)) (suc (suc zero)) p q r = rw (
  set_bits-third a0 a1 a2 b3 0x20 (y ∷ (z ∷ ys)),
  store-behind (a0 ∷ a1 ∷ a2 ∷ bit_or b3 0x20 ∷ []) (1 ∷ []) (y ∷ (z ∷ ys)) (omega (arith, r)),
  store-behind (a0 ∷ a1 ∷ a2 ∷ bit_or b3 0x20 ∷ 1 ∷ []) (0 ∷ []) (z ∷ ys) (omega (arith, r)),
)
add_adaptation-image a0 a1 a2 b3 (y ∷ (z ∷ ys)) (suc (suc (suc k))) p q r =
    let len : u8 (suc (suc (suc k)) - 1) ≡ suc (suc k) = omega (arith, q) in
    let rest : suc (suc (suc k)) - 2 ≡ suc k = omega arith in
    rw
      (
        set_bits-third a0 a1 a2 b3 0x20 (y ∷ (z ∷ ys)),
        len,
        rest,
        store-behind (a0 ∷ a1 ∷ a2 ∷ bit_or b3 0x20 ∷ []) (suc (suc k) ∷ []) (y ∷ (z ∷ ys))
            (omega (arith, r)),
        lt→ltb 0 (suc (suc k)) (omega arith),
        lt→ltb 1 (suc (suc k)) (omega arith),
        store-behind (a0 ∷ a1 ∷ a2 ∷ bit_or b3 0x20 ∷ suc (suc k) ∷ []) (0 ∷ []) (z ∷ ys)
            (omega (arith, r)),
        store-behind (a0 ∷ a1 ∷ a2 ∷ bit_or b3 0x20 ∷ suc (suc k) ∷ 0 ∷ []) (replicate (suc k) 0xFF)
            ys (omega (arith, r, length-replicate (suc k) 0xFF)),
      )
      (ap
        (λ n.
          done (
            a0
            ∷ a1
            ∷ a2
            ∷ bit_or b3 0x20
            ∷ suc (suc k)
            ∷ 0
            ∷ (replicate (suc k) 0xFF ++ drop n ys)))
        (length-replicate (suc k) 0xFF))

pub extend_adaptation-image :
    (a0 a1 a2 b3 n b5 : ℕ) (f ys : List ℕ) (k : ℕ)
    → differs 0 b5 ≡ true
    → n ≡ 1 + length f
    → n + k < 256
    → k ≤ length ys
    → extend_adaptation k (a0 ∷ a1 ∷ a2 ∷ b3 ∷ n ∷ b5 ∷ (f ++ ys))
      ≡ done (a0 ∷ a1 ∷ a2 ∷ b3 ∷ (n + k) ∷ b5 ∷ (f ++ (replicate k 0xFF ++ drop k ys)))
unfolding extend_adaptation
extend_adaptation-image a0 a1 a2 b3 n b5 f ys k c e b r =
    let front = a0 ∷ a1 ∷ a2 ∷ b3 ∷ n ∷ b5 ∷ f in
    let at : 4 + 1 + n ≡ length front = omega (arith, e) in
    let sum : u8 (n + u8 k) ≡ n + k = omega (arith, b) in
    let len = length-replicate k 0xFF in
    let stuffed = store-behind front (replicate k 0xFF) ys (omega (arith, r, len)) in
    rw (
      c,
      lt→ltb 0 n (omega (arith, e)),
      at,
      stuffed,
      sum,
      len,
      store-behind (a0 ∷ a1 ∷ a2 ∷ b3 ∷ []) ((n + k) ∷ [])
          (n ∷ b5 ∷ (f ++ (replicate k 0xFF ++ drop k ys))) (omega arith),
    )

-- Behind `front`, the headers `h` move by the `k` places that the payload leaves free.
pub move_headers-image :
    (start : Bool) (header : ℕ) (front h tail : List ℕ) (bytes k : ℕ)
    → (start ≡ true) ⊎ (h ≡ [])
    → header ≡ length front
    → header + length h + length tail ≡ 188
    → bytes + k ≡ length tail
    → move_headers start header (length h) (front ++ (h ++ tail)) bytes
      ≡ done (front ++ (take k (h ++ tail) ++ (h ++ drop k tail)))
unfolding move_headers
move_headers-image start header front [] tail bytes k g a r e =
    ap (λ xs. done (front ++ xs)) (sym (take-drop k tail))
move_headers-image start header front (x ∷ h) tail bytes k (inr g) a r e =
    let l : suc (length h) ≡ 0 = ap length g in absurd (omega (arith, l))
move_headers-image start header front (x ∷ h) tail bytes k (inl g) a r e =
    let at : 188 - bytes - suc (length h) ≡ length front + k = omega (arith, a, r, e) in
    let room : leb (suc (length h)) (length (x ∷ (h ++ tail))) ≡ true =
      le→leb (suc (length h)) (length (x ∷ (h ++ tail))) (omega (arith, length-append h tail)) in
    rw (lt→ltb 0 (suc (length h)) (omega arith), g, a)
      (rw (drop-append front (x ∷ (h ++ tail)), room, take-append (x ∷ h) tail)
        (store-moved front (x ∷ h) tail (188 - bytes - suc (length h)) k at (omega (arith, e))))

load-stuffing :
    (a0 a1 a2 b3 : ℕ) (ys : List ℕ) (k : ℕ)
    → 0 < k
    → load (a0 ∷ a1 ∷ a2 ∷ b3 ∷ (stuffing k ++ ys)) 4 ≡ done (k - 1)
unfolding stuffing
load-stuffing a0 a1 a2 b3 ys zero p = absurd (omega (arith, p))
load-stuffing a0 a1 a2 b3 ys (suc zero) p = refl
load-stuffing a0 a1 a2 b3 ys (suc (suc k)) p = ap (λ n. done n) (omega arith)

pub drop_first : (k : ℕ) (xs ys : List ℕ) → length xs ≡ k → drop k (xs ++ ys) ≡ ys
drop_first k xs ys e = ap (λ n. drop n (xs ++ ys)) (sym e) ∙ drop-append xs ys

-- A packet of headers `h` without adaptation field gets one that fills it.
pub stuff_packet-added :
    (start : Bool) (a0 a1 a2 b3 : ℕ) (h tail : List ℕ) (bytes k : ℕ)
    → differs (bit_and b3 0x20) 0 ≡ false
    → (start ≡ true) ⊎ (h ≡ [])
    → 4 + length h + length tail ≡ 188
    → bytes + k ≡ length tail
    → 0 < k
    → stuff_packet start 4 (length h) (a0 ∷ a1 ∷ a2 ∷ b3 ∷ (h ++ tail)) bytes
      ≡ done (a0 ∷ a1 ∷ a2 ∷ bit_or b3 0x20 ∷ (stuffing k ++ (h ++ drop k tail)), 4 + k + length h)
unfolding stuff_packet
stuff_packet-added start a0 a1 a2 b3 h tail bytes k c g r e p =
    let first = take k (h ++ tail) in
    let l = length-take k (h ++ tail) (omega (arith, e, length-append h tail)) in
    let rest = h ++ drop k tail in
    let missing : 188 - (4 + length h + bytes) ≡ k = omega (arith, r, e) in
    let moved = move_headers-image start 4 (a0 ∷ a1 ∷ a2 ∷ b3 ∷ []) h tail bytes k g refl r e in
    let added =
      add_adaptation-image a0 a1 a2 b3 (first ++ rest) k p (omega (arith, r, e))
        (omega (arith, l, length-append first rest)) in
    let at : 5 + (k - 1) + length h ≡ 4 + k + length h = omega (arith, p) in
    let same : (4 + length h == length h + 4) ≡ true = ground arith in
    rw (moved, c, same, missing, added, drop_first k first rest l)
      (rw (load-stuffing a0 a1 a2 (bit_or b3 0x20) rest k p)
        (ap (λ n. done (a0 ∷ a1 ∷ a2 ∷ bit_or b3 0x20 ∷ (stuffing k ++ rest), n)) at))

-- A packet of headers `h` with an adaptation field of `n` bytes gets a longer one that fills it.
pub stuff_packet-extended :
    (start : Bool) (a0 a1 a2 b3 n b5 : ℕ) (f h tail : List ℕ) (bytes k : ℕ)
    → differs (bit_and b3 0x20) 0 ≡ true
    → differs 0 b5 ≡ true
    → n ≡ 1 + length f
    → (start ≡ true) ⊎ (h ≡ [])
    → 5 + n + length h + length tail ≡ 188
    → bytes + k ≡ length tail
    → stuff_packet start (5 + n) (length h) (a0 ∷ a1 ∷ a2 ∷ b3 ∷ n ∷ b5 ∷ (f ++ (h ++ tail))) bytes
      ≡ done (
        a0 ∷ a1 ∷ a2 ∷ b3 ∷ (n + k) ∷ b5 ∷ (f ++ (replicate k 0xFF ++ (h ++ drop k tail))),
        5 + n + k + length h,
      )
unfolding stuff_packet
stuff_packet-extended start a0 a1 a2 b3 n b5 f h tail bytes k c d m g r e =
    let first = take k (h ++ tail) in
    let l = length-take k (h ++ tail) (omega (arith, e, length-append h tail)) in
    let rest = h ++ drop k tail in
    let missing : 188 - (5 + n + length h + bytes) ≡ k = omega (arith, r, e) in
    let moved =
      move_headers-image start (5 + n) (a0 ∷ a1 ∷ a2 ∷ b3 ∷ n ∷ b5 ∷ f) h tail bytes k g
        (omega (arith, m)) r e in
    let added =
      extend_adaptation-image a0 a1 a2 b3 n b5 f (first ++ rest) k d m (omega (arith, r, e))
        (omega (arith, l, length-append first rest)) in
    let at : 5 + (n + k) + length h ≡ 5 + n + k + length h = omega arith in
    rw (moved, c, missing, added, drop_first k first rest l, at)
