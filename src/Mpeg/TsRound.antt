-- ===== src/Mpeg/TsRound.antt =====
-- src/media-server/libmpeg/source/mpeg-ts-enc.c: one round of the loop that cuts a PES packet.
use stream.Base.{
  ℕ, List, [], ◌∷◌, ◌++◌, ◌+◌, ◌*◌, ◌^◌, ◌≤◌, ◌<◌, ◌≡◌, refl, sym, ap, ◌∙◌, ◌⊎◌, inl, inr, bit_and,
  bit_or, ◌>>>◌, if◌then◌else◌, Bool, true, false, length, length-drop, take, drop, arith, done,
}
use stream.Base.Buffer.{store-front}
use stream.Mpeg.PesBytes.{IsCarriedPes}
use stream.Mpeg.TsHeader.{TsProgram, TsStream, delimiter, stream_pcr, write_adaptation, write_start}
use stream.Mpeg.TsPacket.{ts_packet}
use stream.Mpeg.TsField.{plain_byte, field_byte, byte_facts}
use stream.Mpeg.TsStart.{start_headers, length-start_headers, write_start-image}
use stream.Mpeg.TsClock.{write_adaptation-image}
use stream.Mpeg.TsPayload.{sent_payload, IsBody}
use stream.Mpeg.TsFinish.{finish_plain, finish_field}

-- The two bytes of the PID, with the flag of a first packet.
abbrev pub pid_byte : Bool → ℕ → ℕ
pid_byte start pid =
    if start then bit_or (bit_and (pid >>> 8) 0x1F) 0x40 else bit_and (pid >>> 8) 0x1F

-- A round that sends a packet with some of the payload behind `headers`.
pub record Round (program : TsProgram) (s : TsStream) (start no_prefix : Bool)
    (headers buf payload : List ℕ) (bytes : ℕ) : Type 0 where
  pub body : List ℕ
  pub n : ℕ
  pub image :
      ts_packet program s start no_prefix buf payload bytes
      ≡ done (
        0x47 ∷ pid_byte start s.pid ∷ bit_and s.pid 0xFF ∷ body,
        drop n (sent_payload no_prefix payload),
        n,
      )
  pub positive : 0 < n
  pub bound : n ≤ bytes
  pub is_body : IsBody s.cc headers (take n (sent_payload no_prefix payload)) body

-- A packet behind the first one.
pub ts_packet-next :
    (program : TsProgram) (s : TsStream) (buf payload : List ℕ) (bytes : ℕ)
    → length buf ≡ 188
    → bytes ≡ length payload
    → 0 < bytes
    → Round program s false false [] buf payload bytes
unfolding ts_packet write_adaptation
ts_packet-next program s buf payload bytes l e p =
    let (plain, _, _, _, _, _, _) = byte_facts s.cc in
    let a1 = bit_and (s.pid >>> 8) 0x1F in
    let a2 = bit_and s.pid 0xFF in
    let tail : List ℕ = 0 ∷ 0 ∷ drop 6 buf in
    let d = length-drop 6 buf in
    let head = store-front (0x47 ∷ a1 ∷ a2 ∷ plain_byte s.cc ∷ 0 ∷ 0 ∷ []) buf (omega (arith, l)) in
    let end =
      finish_plain false false 0x47 a1 a2 s.cc [] tail payload bytes (inr refl) e p (inl refl)
        (omega (arith, l, d)) (omega (arith, l, d)) in
    record {
      body = end.body;
      n = end.n;
      image = rw (head, plain) (end.image);
      positive = end.positive;
      bound = end.bound;
      is_body = end.is_body;
    }

delimiter-size : (program : TsProgram) (s : TsStream) → length (delimiter program s) ≤ 7
unfolding delimiter
delimiter-size program s = ground arith

pub headers-size :
    (program : TsProgram) (s : TsStream) (bytes : ℕ) → length (start_headers program s bytes) ≤ 26
headers-size program s bytes =
    ground (arith, length-start_headers program s bytes, delimiter-size program s)

has_prefix :
    (no_prefix : Bool) (payload : List ℕ) (bytes room : ℕ)
    → bytes ≡ length (sent_payload no_prefix payload)
    → 4 ≤ room
    → (no_prefix ≡ false) ⊎ ((4 ≤ bytes) × (4 ≤ room))
has_prefix false payload bytes room e r = inl refl
has_prefix true payload bytes room e r = inr (omega (arith, e), r)

-- The first packet.
pub ts_packet-first :
    (program : TsProgram) (s : TsStream) (no_prefix : Bool) (buf payload : List ℕ) (bytes : ℕ)
    → length buf ≡ 188
    → IsCarriedPes s.pes
    → stream_pcr s.pes < 300 * 2 ^ 33
    → bytes ≡ length (sent_payload no_prefix payload)
    → 0 < bytes
    → Round program s true no_prefix (start_headers program s bytes) buf payload bytes
unfolding ts_packet
ts_packet-first program s no_prefix buf payload bytes l v c e p =
    let h = start_headers program s bytes in
    let size = headers-size program s bytes in
    let a1 = bit_and (s.pid >>> 8) 0x1F in
    let b1 = bit_or a1 0x40 in
    let a2 = bit_and s.pid 0xFF in
    let z = drop 6 buf in
    let d = length-drop 6 buf in
    let head = store-front (0x47 ∷ a1 ∷ a2 ∷ plain_byte s.cc ∷ 0 ∷ 0 ∷ []) buf (omega (arith, l)) in
    elim (write_adaptation-image program s 0x47 a1 a2 z (omega (arith, l, d)) c) [
      | inl w ↦
          let room : List ℕ = 0 ∷ 0 ∷ z in
          let tail = drop (length h) room in
          let t = length-drop (length h) room in
          let first =
            write_start-image program s 0x47 a1 (a2 ∷ plain_byte s.cc ∷ []) room bytes v
              (omega (arith, size, l, d)) (omega (arith, l, d)) in
          let end =
            finish_plain true no_prefix 0x47 b1 a2 s.cc h tail payload bytes (inl refl) e p
              (has_prefix no_prefix payload bytes (length tail) e (omega (arith, t, l, d, size)))
              (omega (arith, t, l, d, size)) (omega (arith, t, l, d, size)) in
          record {
            body = end.body;
            n = end.n;
            image = rw (head, w, first) (end.image);
            positive = end.positive;
            bound = end.bound;
            is_body = end.is_body;
          }
      | inr w ↦
          let front : List ℕ = a2 ∷ field_byte s.cc ∷ w.n ∷ w.b5 ∷ w.f in
          let at : 4 + 1 + w.n ≡ length (0x47 ∷ a1 ∷ front) = omega (arith, w.number) in
          let tail = drop (length h) w.room in
          let t = length-drop (length h) w.room in
          let m = w.sizes in
          let first =
            ap (λ i. write_start program s i (0x47 ∷ a1 ∷ (front ++ w.room)) bytes) at
            ∙ write_start-image program s 0x47 a1 front w.room bytes v
                (omega (arith, size, l, d, m, w.number, w.small)) (omega (arith, l, d, m))
            ∙ ap (λ i. done (0x47 ∷ b1 ∷ (front ++ (h ++ tail)), i + length h)) (sym at) in
          let end =
            finish_field true no_prefix 0x47 b1 a2 s.cc h tail payload bytes (inl refl) e p
              (has_prefix no_prefix payload bytes (length tail) e
                (omega (arith, t, l, d, size, m, w.number, w.small)))
              (omega (arith, t, l, d, size, m, w.number, w.small)) w.n w.b5 w.f w.adp w.flags
              w.number (omega (arith, t, l, d, size, m, w.number, w.small)) w.read in
          record {
            body = end.body;
            n = end.n;
            image = rw (head, w.image, first) (end.image);
            positive = end.positive;
            bound = end.bound;
            is_body = end.is_body;
          }
    ]
