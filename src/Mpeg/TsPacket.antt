-- ===== src/Mpeg/TsPacket.antt =====
-- src/media-server/libmpeg/source/mpeg-ts-enc.c: a PES packet cut into transport stream packets.
use stream.Base.{
  ℕ, zero, suc, List, [], ◌∷◌, ◌+◌, ◌-◌, ◌%◌, ◌==◌, ◌&&◌, ◌||◌, ◌>>>◌, bit_and, bit_or, u8, ltb,
  leb, if◌then◌else◌, Bool, true, false, drop, replicate, Outcome, done, fault, assert, ◌>>=◌, ◌>>◌,
}
use stream.Base.Buffer.{load, store, first_bytes}
use stream.Mpeg.Pes.{differs}
use stream.Mpeg.TsHeader.{
  ts_packet_size, psi_stream_h264, psi_stream_h265, TsFunc, TsStream, TsProgram, set_bits,
  write_adaptation, write_start,
}

-- The stuffing of `k` bytes behind an adaptation field that is there.
unfoldable pub extend_adaptation : ℕ → List ℕ → Outcome (List ℕ)
extend_adaptation k buf = do
  b5 ← load buf 5
  b4 ← load buf 4
  assert (differs 0 b5 && ltb 0 b4)
  out ← store (4 + 1 + b4) (replicate k 0xFF) buf
  store 4 (u8 (b4 + u8 k) ∷ []) out

-- An adaptation field of `k` bytes, its length included, where there is none.
unfoldable pub add_adaptation : ℕ → List ℕ → Outcome (List ℕ)
add_adaptation k buf = do
  buf1 ← set_bits 3 0x20 buf
  buf2 ← store 4 (u8 (k - 1) ∷ []) buf1
  buf3 ← if ltb 0 (u8 (k - 1)) then store 5 (0 ∷ []) buf2 else done buf2
  if ltb 1 (u8 (k - 1)) then store 6 (replicate (k - 2) 0xFF) buf3 else done buf3

-- The `n` bytes of headers move to where they end in front of the payload.
unfoldable pub move_headers : Bool → ℕ → ℕ → List ℕ → ℕ → Outcome (List ℕ)
move_headers start header n buf bytes =
    if ltb 0 n
    then (do
      assert start
      headers ← first_bytes n (drop header buf)
      store (ts_packet_size - bytes - n) headers buf)
    else done buf

-- A packet that is not full: the `n` bytes of headers move to the end, and stuffing makes up for the
-- bytes that are missing. The array and `p - data`.
unfoldable pub stuff_packet : Bool → ℕ → ℕ → List ℕ → ℕ → Outcome (List ℕ × ℕ)
stuff_packet start header n buf bytes = do
  let k = ts_packet_size - (header + n + bytes)
  buf1 ← move_headers start header n buf bytes
  b3 ← load buf1 3
  buf2 ←
      if differs (bit_and b3 0x20) 0
      then extend_adaptation k buf1
      else (do assert (header + n == n + 4); add_adaptation k buf1)
  b4 ← load buf2 4
  done (buf2, 5 + b4 + n)

-- The copy of `len` bytes of the payload to `data + p`. Where `no_prefix` is set, `payload` in the
-- code points four bytes before the list here, and they become a start code.
unfoldable pub write_payload : Bool → List ℕ → ℕ → List ℕ → ℕ → Outcome (List ℕ × List ℕ)
write_payload true buf p payload len =
    if leb 4 len
    then (do
      out ← store p (0 ∷ 0 ∷ 0 ∷ 1 ∷ []) buf
      xs ← first_bytes (len - 4) payload
      out' ← store (p + 4) xs out
      done (out', drop (len - 4) payload))
    else fault
write_payload false buf p payload len = do
  xs ← first_bytes len payload
  out ← store p xs buf
  done (out, drop len payload)

-- The packet with its payload, from the array and `p - data`: the packet, the payload that is left and
-- how many bytes were taken.
unfoldable pub finish_packet :
    Bool → Bool → ℕ → List ℕ → ℕ → List ℕ → ℕ → Outcome (List ℕ × List ℕ × ℕ)
finish_packet start no_prefix header buf p payload bytes =
    if ltb (p + bytes) ts_packet_size
    then (do
      (buf', q) ← stuff_packet start header (p - header) buf bytes
      (buf'', rest) ← write_payload no_prefix buf' q payload bytes
      done (buf'', rest, bytes))
    else (do
      (buf', rest) ← write_payload no_prefix buf p payload (ts_packet_size - p)
      done (buf', rest, ts_packet_size - p))

-- One round of the loop: the packet, the payload that is left and how many bytes were taken.
unfoldable pub ts_packet :
    TsProgram → TsStream → Bool → Bool → List ℕ → List ℕ → ℕ → Outcome (List ℕ × List ℕ × ℕ)
ts_packet program s start no_prefix buf payload bytes = do
  buf1 ←
      store 0
        (0x47
          ∷ bit_and (s.pid >>> 8) 0x1F
          ∷ bit_and s.pid 0xFF
          ∷ bit_or 0x10 (bit_and s.cc 0x0F)
          ∷ 0
          ∷ 0
          ∷ [])
        buf
  (buf2, header) ← write_adaptation program s start buf1
  (buf3, p) ← if start then write_start program s header buf2 bytes else done (buf2, header)
  finish_packet start no_prefix header buf3 p payload bytes

-- The loop, after `sent` packets, with rounds for fuel: the value that `write` returned last, the
-- packets and the stream.
unfoldable pub pes_loop :
    ℕ
    → TsFunc
    → TsProgram
    → TsStream
    → Bool
    → Bool
    → List ℕ
    → ℕ
    → ℕ
    → Outcome (ℕ × List (List ℕ) × TsStream)
pes_loop zero func program s start no_prefix payload bytes sent = fault
pes_loop (suc fuel) func program s start no_prefix payload bytes sent =
    if ltb 0 bytes
    then (do
      (packet, rest, len) ← ts_packet program s start no_prefix (func.alloc bytes) payload bytes
      let s' = record s { cc = (s.cc + 1) % 16 }
      if func.write sent packet == 0
          then (do
            (r, packets, s'') ←
                pes_loop fuel func program s' false false rest (bytes - len) (sent + 1)
            done (r, packet ∷ packets, s''))
          else done (func.write sent packet, packet ∷ [], s'))
    else done (0, [], s)

-- `memcmp("\x00\x00\x00\x01", payload, 4) != 0 && memcmp("\x00\x00\x01", payload, 3) != 0`
unfoldable pub lacks_prefix : List ℕ → Outcome Bool
lacks_prefix payload = do
  b0 ← load payload 0
  b1 ← load payload 1
  b2 ← load payload 2
  b3 ← load payload 3
  let four = b0 == 0 && b1 == 0 && b2 == 0 && b3 == 1
  let three = b0 == 0 && b1 == 0 && b2 == 1
  done (if four || three then false else true)

-- `no_prefix`
unfoldable pub checks_prefix : ℕ → List ℕ → Outcome Bool
checks_prefix codecid payload =
    if codecid == psi_stream_h264 || codecid == psi_stream_h265
    then lacks_prefix payload
    else done false

-- With one round more than there are bytes.
unfoldable pub ts_write_pes :
    TsFunc → TsProgram → TsStream → List ℕ → ℕ → Outcome (ℕ × List (List ℕ) × TsStream)
ts_write_pes func program s payload bytes = do
  no_prefix ← checks_prefix s.codecid payload
  let bytes' = if no_prefix then bytes + 4 else bytes
  pes_loop (bytes' + 1) func program s true no_prefix payload bytes' 0
