-- ===== src/Mpeg/TsStart.antt =====
-- src/media-server/libmpeg/source/mpeg-ts-enc.c: the PES header in the first packet.
use stream.Base.{
  ℕ, suc, List, [], ◌∷◌, ◌++◌, ◌+◌, ◌-◌, ◌≤◌, ◌≡◌, refl, sym, ap, ◌∙◌, ◌>>>◌, bit_or, u8, length,
  length-append, length-drop, drop, drop-drop, take-append, drop-append, arith, done,
}
use mathlib.Core.List.{append_assoc}
use stream.Base.Buffer.{store, store-behind}
use stream.Mpeg.Pes.{Pes, write_len, time_bytes, pes_write_header}
use stream.Mpeg.PesBytes.{IsCarriedPes, header_bytes, length-time_bytes, pes_write_header-bytes}
use stream.Mpeg.TsHeader.{
  TsProgram, TsStream, set_bits, delimiter, write_header_at, pes_packet_length, write_start,
}

-- A store behind two parts.
store-inside :
    (front mid xs room : List ℕ) (i : ℕ)
    → i ≡ length front + length mid
    → length xs ≤ length room
    → store i xs (front ++ (mid ++ room)) ≡ done (front ++ (mid ++ (xs ++ drop (length xs) room)))
store-inside front mid xs room i e b =
    let at : i ≡ length (front ++ mid) = omega (arith, e, length-append front mid) in
    rw (at, sym (append_assoc front mid room))
      (store-behind (front ++ mid) xs room b
        ∙ ap (λ l. done l) (append_assoc front mid (xs ++ drop (length xs) room)))

-- The PES header in an array with room for it, around two bytes that are left alone.
pes_write_header-room :
    (p : Pes) (room : List ℕ) (bytes : ℕ)
    → IsCarriedPes p
    → write_len p + 9 ≤ bytes
    → write_len p + 9 ≤ length room
    → (l0 : ℕ) × (l1 : ℕ) × (pes_write_header p room bytes
        ≡ done (
          9 + write_len p,
          header_bytes p l0 l1 ++ (time_bytes p ++ drop (9 + write_len p) room),
        ))
pes_write_header-room p [] bytes v b r = absurd (omega (arith, r))
pes_write_header-room p (x0 ∷ []) bytes v b r = absurd (omega (arith, r))
pes_write_header-room p (x0 ∷ (x1 ∷ [])) bytes v b r = absurd (omega (arith, r))
pes_write_header-room p (x0 ∷ (x1 ∷ (x2 ∷ []))) bytes v b r = absurd (omega (arith, r))
pes_write_header-room p (x0 ∷ (x1 ∷ (x2 ∷ (x3 ∷ [])))) bytes v b r = absurd (omega (arith, r))
pes_write_header-room p (x0 ∷ (x1 ∷ (x2 ∷ (x3 ∷ (x4 ∷ []))))) bytes v b r =
    absurd (omega (arith, r))
pes_write_header-room p (x0 ∷ (x1 ∷ (x2 ∷ (x3 ∷ (x4 ∷ (x5 ∷ [])))))) bytes v b r =
    absurd (omega (arith, r))
pes_write_header-room p (x0 ∷ (x1 ∷ (x2 ∷ (x3 ∷ (x4 ∷ (x5 ∷ (x6 ∷ []))))))) bytes v b r =
    absurd (omega (arith, r))
pes_write_header-room p (x0 ∷ (x1 ∷ (x2 ∷ (x3 ∷ (x4 ∷ (x5 ∷ (x6 ∷ (x7 ∷ [])))))))) bytes v b r =
    absurd (omega (arith, r))
pes_write_header-room p (x0 ∷ (x1 ∷ (x2 ∷ (x3 ∷ (x4 ∷ (x5 ∷ (x6 ∷ (x7 ∷ (x8 ∷ tail))))))))) bytes v
      b r =
    let nine : 9 + write_len p ≡ suc (suc (suc (suc (suc (suc (suc (suc (suc (write_len p))))))))) =
      omega arith in
    let all = x0 ∷ x1 ∷ x2 ∷ x3 ∷ x4 ∷ x5 ∷ x6 ∷ x7 ∷ x8 ∷ tail in
    let same : drop (write_len p) tail ≡ drop (9 + write_len p) all =
      ap (λ n. drop n all) (sym nine) in
    (
      x4,
      x5,
      pes_write_header-bytes p x0 x1 x2 x3 x4 x5 x6 x7 x8 tail bytes v b (omega (arith, r))
          ∙ ap (λ l. done (9 + write_len p, header_bytes p x4 x5 ++ (time_bytes p ++ l))) same,
    )

-- The PES header of a packet with `bytes` bytes of payload, and the access unit delimiter.
unfoldable pub start_headers : TsProgram → TsStream → ℕ → List ℕ
start_headers program s bytes =
    let len = pes_packet_length (9 + write_len s.pes + length (delimiter program s)) bytes in
    header_bytes s.pes (u8 (len >>> 8)) (u8 len) ++ (time_bytes s.pes ++ delimiter program s)

pub length-start_headers :
    (program : TsProgram) (s : TsStream) (bytes : ℕ)
    → length (start_headers program s bytes) ≡ 9 + write_len s.pes + length (delimiter program s)
unfolding start_headers header_bytes
length-start_headers program s bytes =
    omega (arith, length-append (time_bytes s.pes) (delimiter program s), length-time_bytes s.pes)

write_header_at-image :
    (p : Pes) (front room : List ℕ)
    → IsCarriedPes p
    → write_len p + 9 ≤ length room
    → length front + length room ≡ 188
    → (l0 : ℕ) × (l1 : ℕ) × (write_header_at (length front) p (front ++ room)
        ≡ done (
          9 + write_len p,
          front ++ (header_bytes p l0 l1 ++ (time_bytes p ++ drop (9 + write_len p) room)),
        ))
unfolding write_header_at
write_header_at-image p front room v b r =
    let (l0, l1, e) = pes_write_header-room p room (188 - length front) v (omega (arith, b, r)) b in
    (l0, l1, rw (drop-append front room, take-append front room) (rw e))

-- The two bytes of the length, and the bytes behind them.
write_length-image :
    (p : Pes) (front rest : List ℕ) (l0 l1 hi lo : ℕ)
    → store (length front + 4) (hi ∷ lo ∷ []) (front ++ (header_bytes p l0 l1 ++ rest))
      ≡ done (front ++ (header_bytes p hi lo ++ rest))
unfolding header_bytes
write_length-image p front rest l0 l1 hi lo =
    store-inside front (0 ∷ 0 ∷ 1 ∷ p.sid ∷ []) (hi ∷ lo ∷ []) _ (length front + 4) refl
      (omega arith)

length-header_bytes : (p : Pes) (l0 l1 : ℕ) → length (header_bytes p l0 l1) ≡ 9
unfolding header_bytes
length-header_bytes p l0 l1 = refl

write_delimiter-image :
    (p : Pes) (front more room : List ℕ) (l0 l1 : ℕ)
    → length more ≤ length room
    → store
        (length front + (9 + write_len p))
        more
        (front ++ (header_bytes p l0 l1 ++ (time_bytes p ++ room)))
      ≡ done
          (front ++ (header_bytes p l0 l1 ++ (time_bytes p ++ (more ++ drop (length more) room))))
write_delimiter-image p front more room l0 l1 b =
    let hb = header_bytes p l0 l1 in
    let mid = hb ++ time_bytes p in
    let l : length mid ≡ 9 + write_len p =
      omega (
        arith,
        length-append hb (time_bytes p),
        length-time_bytes p,
        length-header_bytes p l0 l1,
      ) in
    ap (λ xs. store (length front + (9 + write_len p)) more (front ++ xs))
      (sym (append_assoc hb (time_bytes p) room))
    ∙ store-inside front mid more room (length front + (9 + write_len p)) (omega (arith, l)) b
    ∙ ap (λ xs. done (front ++ xs))
        (append_assoc hb (time_bytes p) (more ++ drop (length more) room))

pub headers-append :
    (program : TsProgram) (s : TsStream) (bytes : ℕ) (rest : List ℕ)
    → (let len = pes_packet_length (9 + write_len s.pes + length (delimiter program s)) bytes in
        header_bytes s.pes (u8 (len >>> 8)) (u8 len)
        ++ (time_bytes s.pes ++ (delimiter program s ++ rest)))
      ≡ start_headers program s bytes ++ rest
unfolding start_headers
headers-append program s bytes rest =
    let len = pes_packet_length (9 + write_len s.pes + length (delimiter program s)) bytes in
    let hb = header_bytes s.pes (u8 (len >>> 8)) (u8 len) in
    sym (
      append_assoc hb (time_bytes s.pes ++ delimiter program s) rest
      ∙ ap (λ xs. hb ++ xs) (append_assoc (time_bytes s.pes) (delimiter program s) rest))

pub write_start-image :
    (program : TsProgram) (s : TsStream) (a0 a1 : ℕ) (front room : List ℕ) (bytes : ℕ)
    → IsCarriedPes s.pes
    → length (start_headers program s bytes) ≤ length room
    → length (a0 ∷ a1 ∷ front) + length room ≡ 188
    → write_start program s (length (a0 ∷ a1 ∷ front)) (a0 ∷ a1 ∷ (front ++ room)) bytes
      ≡ done (
        a0
            ∷ bit_or a1 0x40
            ∷ (front
                ++ (start_headers program s bytes
                    ++ drop (length (start_headers program s bytes)) room)),
        length (a0 ∷ a1 ∷ front) + length (start_headers program s bytes),
      )
unfolding write_start set_bits
write_start-image program s a0 a1 front room bytes v b r =
    let p = s.pes in
    let all = a0 ∷ bit_or a1 0x40 ∷ front in
    let more = delimiter program s in
    let l = length-start_headers program s bytes in
    let (l0, l1, e) = write_header_at-image p all room v (omega (arith, b, l)) r in
    let room' = drop (9 + write_len p) room in
    let d =
      write_delimiter-image p all more room' l0 l1
        (omega (arith, b, l, length-drop (9 + write_len p) room)) in
    let len = pes_packet_length (9 + write_len p + length more) bytes in
    let w =
      write_length-image p all (time_bytes p ++ (more ++ drop (length more) room')) l0 l1
        (u8 (len >>> 8)) (u8 len) in
    let behind : drop (length more) room' ≡ drop (length (start_headers program s bytes)) room =
      drop-drop (length more) (9 + write_len p) room ∙ ap (λ n. drop n room) (sym l) in
    let joined =
      headers-append program s bytes (drop (length (start_headers program s bytes)) room) in
    rw (store-behind (a0 ∷ []) (bit_or a1 0x40 ∷ []) (a1 ∷ (front ++ room)) (omega arith))
      (rw e (rw d (rw (w, behind, joined, l))))
