-- ===== src/Mpeg/TsPayload.antt =====
-- src/media-server/libmpeg/source/mpeg-ts-enc.c: the payload behind the headers of a packet.
use stream.Base.{
  ℕ, zero, suc, List, [], ◌∷◌, ◌++◌, ◌+◌, ◌-◌, ◌≤◌, ◌<◌, ◌≡◌, refl, sym, ap, ◌∙◌, ◌⊎◌, lt→ltb,
  le→leb, if◌then◌else◌, Bool, true, false, length, length-append, length-drop, length-take, take,
  drop, arith, done,
}
use mathlib.Core.List.{append_assoc}
use stream.Base.Buffer.{store-extend}
use stream.Mpeg.Adaptation.{
  TsAdaptationField, adaptation_filed_read, read_pcr, read_opcr, read_splice, read_private,
  read_extension,
}
use stream.Mpeg.TsPacket.{write_payload, finish_packet}
use stream.Mpeg.TsInput.{no_adaptation}
use stream.Mpeg.TsField.{plain_byte, field_byte}
use stream.Mpeg.TsStuffing.{stuffing}

-- What is sent: the payload, behind a start code where it lacks one.
abbrev pub sent_payload : Bool → List ℕ → List ℕ
sent_payload no_prefix payload = if no_prefix then 0 ∷ 0 ∷ 0 ∷ 1 ∷ payload else payload

pub drop_all : (n : ℕ) (xs : List ℕ) → length xs ≤ n → drop n xs ≡ []
drop_all zero [] h = refl
drop_all (suc n) [] h = refl
drop_all zero (x ∷ xs) h = absurd (omega (arith, h))
drop_all (suc n) (x ∷ xs) h = drop_all n xs (omega (arith, h))

pub append_nil : (xs ys : List ℕ) → ys ≡ [] → xs ++ ys ≡ xs
append_nil [] ys e = e
append_nil (x ∷ xs) ys e = ap (λ l. x ∷ l) (append_nil xs ys e)

-- The payload fills the room behind `front`.
write_payload-full :
    (no_prefix : Bool) (front room payload : List ℕ) (p n : ℕ)
    → p ≡ length front
    → n ≡ length room
    → n ≤ length (sent_payload no_prefix payload)
    → (no_prefix ≡ false) ⊎ (4 ≤ n)
    → write_payload no_prefix (front ++ room) p payload n
      ≡ done (
        front ++ take n (sent_payload no_prefix payload),
        drop n (sent_payload no_prefix payload),
      )
unfolding write_payload
write_payload-full false front room payload p n e m b g =
    let l = length-take n payload b in
    let gone = drop_all (length (take n payload)) room (omega (arith, l, m)) in
    rw (le→leb n (length payload) b) (
      rw (store-extend p front (take n payload) room e (omega (arith, l, m)))
        (ap (λ xs. done (xs, drop n payload)) (append_nil (front ++ take n payload) _ gone)))
write_payload-full true front room payload p zero e m b g = absurd (ground (arith, g))
write_payload-full true front room payload p (suc zero) e m b g = absurd (ground (arith, g))
write_payload-full true front room payload p (suc (suc zero)) e m b g = absurd (ground (arith, g))
write_payload-full true front room payload p (suc (suc (suc zero))) e m b g =
    absurd (ground (arith, g))
write_payload-full true front room payload p (suc (suc (suc (suc n)))) e m b g =
    let code : List ℕ = 0 ∷ 0 ∷ 0 ∷ 1 ∷ [] in
    let four : suc (suc (suc (suc n))) - 4 ≡ n = omega arith in
    let fits : n ≤ length payload = omega (arith, b) in
    let l = length-take n payload fits in
    let d = length-drop 4 room in
    let xs = take n payload in
    let gone = drop_all (length xs) (drop 4 room) (omega (arith, l, m, d)) in
    let first = store-extend p front code room e (omega (arith, m)) in
    let second =
      store-extend (p + 4) (front ++ code) xs (drop 4 room)
        (omega (arith, e, length-append front code)) (omega (arith, l, m, d)) in
    rw
      (
        le→leb 4 (suc (suc (suc (suc n)))) (omega arith),
        first,
        four,
        le→leb n (length payload) fits,
      )
      (rw second (
        ap (λ ys. done (ys, drop n payload))
          (append_nil ((front ++ code) ++ xs) _ gone ∙ append_assoc front code xs)))

-- The bytes of a packet behind its first three: `more` is the adaptation field, which the reader takes,
-- `headers` and `chunk` follow up to the end of the packet.
pub record IsBody (c : ℕ) (headers chunk body : List ℕ) : Type 0 where
  pub byte : ℕ
  pub more : List ℕ
  pub adp : TsAdaptationField
  pub image : body ≡ byte ∷ (more ++ (headers ++ chunk))
  pub size : 4 + length more + (length headers + length chunk) ≡ 188
  pub field :
      ((byte ≡ plain_byte c) × (more ≡ []))
      ⊎ ((byte ≡ field_byte c)
          × (adaptation_filed_read no_adaptation (more ++ (headers ++ chunk)) 184
              ≡ done (length more, adp)))

-- Stuffing alone is an adaptation field without flags.
pub read_stuffing :
    (k : ℕ) (rest : List ℕ)
    → 0 < k
    → adaptation_filed_read no_adaptation (stuffing k ++ rest) 184
      ≡ done (k, record no_adaptation { adaptation_field_length = k - 1 })
unfolding adaptation_filed_read read_pcr read_opcr read_splice read_private read_extension stuffing
read_stuffing zero rest p = absurd (omega (arith, p))
read_stuffing (suc zero) rest p = refl
read_stuffing (suc (suc k)) rest p =
    let len : suc k + 1 ≡ suc (suc k) = omega arith in
    let less : suc k ≡ suc (suc k) - 1 = omega arith in
    rw (lt→ltb 0 (suc k) (omega arith), len)
      (ap (λ n. done (suc (suc k), record no_adaptation { adaptation_field_length = n })) less)

-- How a round ends: a packet of `n` bytes of payload, at least one.
pub record Finished (start no_prefix : Bool) (a0 a1 a2 c : ℕ) (headers : List ℕ) (buf : List ℕ)
    (header p : ℕ) (payload : List ℕ) (bytes : ℕ) : Type 0 where
  pub body : List ℕ
  pub n : ℕ
  pub image :
      finish_packet start no_prefix header buf p payload bytes
      ≡ done (a0 ∷ a1 ∷ a2 ∷ body, drop n (sent_payload no_prefix payload), n)
  pub positive : 0 < n
  pub bound : n ≤ bytes
  pub is_body : IsBody c headers (take n (sent_payload no_prefix payload)) body

module _ (start no_prefix : Bool) (a0 a1 a2 c : ℕ) (h tail payload : List ℕ) (bytes : ℕ)
    (g : (start ≡ true) ⊎ (h ≡ [])) (e : bytes ≡ length (sent_payload no_prefix payload))
    (some_bytes : 0 < bytes) (prefix : (no_prefix ≡ false) ⊎ ((4 ≤ bytes) × (4 ≤ length tail)))
    (some_room : 0 < length tail) where
  pub prefix_fits : (n : ℕ) → (n ≡ bytes) ⊎ (n ≡ length tail) → (no_prefix ≡ false) ⊎ (4 ≤ n)
  prefix_fits n k = ground (arith, prefix, k)

  -- A packet whose first part `a0 … b ∷ more ++ h` is followed by room for `n` bytes.
  pub write_rest :
      (b : ℕ) (more room : List ℕ) (p n : ℕ)
      → p ≡ 4 + length more + length h
      → n ≡ length room
      → n ≤ bytes
      → (no_prefix ≡ false) ⊎ (4 ≤ n)
      → write_payload no_prefix (a0 ∷ a1 ∷ a2 ∷ b ∷ (more ++ (h ++ room))) p payload n
        ≡ done (
          a0 ∷ a1 ∷ a2 ∷ b ∷ (more ++ (h ++ take n (sent_payload no_prefix payload))),
          drop n (sent_payload no_prefix payload),
        )
  write_rest b more room p n at m s k =
      let front = a0 ∷ a1 ∷ a2 ∷ b ∷ (more ++ h) in
      let xs = take n (sent_payload no_prefix payload) in
      rw (sym (append_assoc more h room), sym (append_assoc more h xs))
        (write_payload-full no_prefix front room payload p n
          (omega (arith, at, length-append more h)) m (omega (arith, s, e)) k)
