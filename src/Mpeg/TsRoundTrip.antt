-- ===== src/Mpeg/TsRoundTrip.antt =====
-- src/media-server/libmpeg/source/mpeg-ts-enc.c and mpeg-ts-dec.c: a PES packet that is cut into
-- transport stream packets and put together again.
use stream.Base.{
  ℕ, List, ◌∷◌, ◌++◌, ◌+◌, ◌-◌, ◌^◌, ◌≤◌, ◌<◌, ◌≡◌, refl, sym, ap, ◌∙◌, ◌==◌, ◌<<<◌, ◌>>>◌, bit_and,
  bit_or, u8, u16, u64, ltb, lt→ltb, if◌then◌else◌, true, some, length, length-append, drop,
  drop-drop, arith, done,
}
use mathlib.Core.List.{append_assoc}
use stream.Base.Bytes.{join16}
use stream.Mpeg.Pes.{Pes, write_len, time_bytes, pes_read_header}
use stream.Mpeg.PesBytes.{IsCarriedPes, carried_pes, header_bytes, length-time_bytes}
use stream.Mpeg.PesRoundTrip.{pes_read_header-bytes}
use stream.Mpeg.TsHeader.{TsProgram, TsStream, delimiter, pes_packet_length}
use stream.Mpeg.TsInput.{stream_input}
use stream.Mpeg.TsStuffing.{drop_first}
use stream.Mpeg.TsStart.{start_headers, length-start_headers, headers-append}
use stream.Mpeg.TsPayload.{IsBody}
use stream.Mpeg.TsRound.{pid_byte}
use stream.Mpeg.TsDelivery.{IsBody-IsRead, payload_at, first_bytes-all}

length_bytes :
    (n bytes : ℕ)
    → bit_or (u8 (pes_packet_length n bytes >>> 8) <<< 8) (u8 (pes_packet_length n bytes))
      ≡ pes_packet_length n bytes
unfolding pes_packet_length
length_bytes n bytes =
    let l =
      if ltb 0xFFFF (u64 (n + 2 ^ 64 - 6 + bytes)) then 0 else u16 (u64 (n + 2 ^ 64 - 6 + bytes)) in
    let small : l < 2 ^ 16 = ground arith in
    rw (join16 (u8 (l >>> 8)) (u8 l) (omega arith)) (omega (arith, small))

-- The length that the PES header of a payload of `bytes` bytes holds.
abbrev pub header_length : TsProgram → TsStream → ℕ → ℕ
header_length program s bytes =
    pes_packet_length (9 + write_len s.pes + length (delimiter program s)) bytes

-- The PES header, read where it stands in front of `rest`.
pes_read_header-start :
    (program : TsProgram) (s : TsStream) (bytes : ℕ) (old : Pes) (rest : List ℕ) (room : ℕ)
    → IsCarriedPes s.pes
    → write_len s.pes + 9 ≤ room
    → pes_read_header old (start_headers program s bytes ++ rest) room
      ≡ done (9 + write_len s.pes, carried_pes old s.pes (header_length program s bytes))
pes_read_header-start program s bytes old rest room v b =
    let len = header_length program s bytes in
    let more = delimiter program s ++ rest in
    ap (λ xs. pes_read_header old xs room) (sym (headers-append program s bytes rest))
    ∙ pes_read_header-bytes old s.pes (u8 (len >>> 8)) (u8 len) more room v b
    ∙ ap (λ n. done (9 + write_len s.pes, carried_pes old s.pes n))
        (length_bytes (9 + write_len s.pes + length (delimiter program s)) bytes)

drop-start_headers :
    (program : TsProgram) (s : TsStream) (bytes : ℕ) (rest : List ℕ)
    → drop (9 + write_len s.pes) (start_headers program s bytes ++ rest)
      ≡ delimiter program s ++ rest
unfolding header_bytes
drop-start_headers program s bytes rest =
    let len = header_length program s bytes in
    let hb = header_bytes s.pes (u8 (len >>> 8)) (u8 len) in
    let more = delimiter program s ++ rest in
    let size : length (hb ++ time_bytes s.pes) ≡ 9 + write_len s.pes =
      omega (arith, length-time_bytes s.pes) in
    ap (λ xs. drop (9 + write_len s.pes) xs) (sym (headers-append program s bytes rest))
    ∙ ap (λ xs. drop (9 + write_len s.pes) xs) (sym (append_assoc hb (time_bytes s.pes) more))
    ∙ drop_first (9 + write_len s.pes) (hb ++ time_bytes s.pes) more size

-- The first packet: the PES header is read, and what stands behind it is delivered.
pub stream_input-first :
    (program : TsProgram) (s : TsStream) (bytes : ℕ) (old : Pes) (chunk body : List ℕ)
    → s.pid < 2 ^ 13
    → IsCarriedPes s.pes
    → IsBody s.cc (start_headers program s bytes) chunk body
    → stream_input s.pid old (0x47 ∷ pid_byte true s.pid ∷ bit_and s.pid 0xFF ∷ body) 188
      ≡ done (
        carried_pes old s.pes (header_length program s bytes),
        some (1, delimiter program s ++ chunk),
      )
unfolding stream_input
stream_input-first program s bytes old chunk body small v b =
    let h = start_headers program s bytes in
    let packet : List ℕ = 0x47 ∷ pid_byte true s.pid ∷ bit_and s.pid 0xFF ∷ body in
    let i = 4 + length b.more in
    let n = 9 + write_len s.pes in
    let l = length-start_headers program s bytes in
    let (pkhd, r, start, control, _) = IsBody-IsRead true s.pid s.cc small h chunk body b in
    let here : (s.pid == s.pid) ≡ true = ground arith in
    let room : u64 (188 + 2 ^ 64 - i) ≡ length h + length chunk = omega (arith, b.size) in
    let header =
      pes_read_header-start program s bytes old chunk (length h + length chunk) v
        (omega (arith, l)) in
    let left : u64 (188 + 2 ^ 64 - (i + n)) ≡ length (delimiter program s ++ chunk) =
      omega (arith, b.size, l, length-append (delimiter program s) chunk) in
    let at = payload_at true s.pid s.cc small h chunk body b in
    let rest : drop (i + n) packet ≡ delimiter program s ++ chunk =
      sym (drop-drop n i packet)
      ∙ ap (λ xs. drop n xs) at
      ∙ drop-start_headers program s bytes chunk in
    rw (
      r,
      start,
      control,
      here,
      room,
      at,
      header,
      rest,
      left,
      lt→ltb 0 n (omega arith),
      first_bytes-all (length (delimiter program s ++ chunk)) (delimiter program s ++ chunk) refl,
    )
