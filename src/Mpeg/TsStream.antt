-- ===== src/Mpeg/TsStream.antt =====
-- src/media-server/libmpeg/source/mpeg-ts-enc.c and mpeg-ts-dec.c: the packets of a PES packet, from
-- the writer and through the reader.
use stream.Base.{
  ℕ, List, [], ◌∷◌, ◌++◌, ◌+◌, ◌*◌, ◌^◌, ◌%◌, ◌≤◌, ◌<◌, ◌≡◌, refl, ap, ◌∙◌, if◌then◌else◌, Bool,
  true, false, none, some, length, length-append, take, drop, take-drop, arith, Outcome, done,
  ◌>>=◌,
}
use mathlib.Core.List.{append_assoc}
use stream.Mpeg.Pes.{Pes}
use stream.Mpeg.PesBytes.{IsCarriedPes, carried_pes}
use stream.Mpeg.TsHeader.{TsFunc, TsProgram, TsStream, delimiter, stream_pcr}
use stream.Mpeg.TsPacket.{ts_write_pes}
use stream.Mpeg.TsInput.{TsPacketHeader, read_ts_header, stream_input}
use stream.Mpeg.TsStart.{start_headers}
use stream.Mpeg.TsPayload.{sent_payload}
use stream.Mpeg.TsChain.{lacks_code, Chain, IsOpen, ts_write_pes-Sent}
use stream.Mpeg.TsDelivery.{IsBody-IsRead, stream_input-next}
use stream.Mpeg.TsRoundTrip.{header_length, stream_input-first}

-- The reader gets the packets one after the other: the state of the stream, and all that was delivered.
unfoldable pub demux : ℕ → Pes → List (List ℕ) → Outcome (Pes × List ℕ)
demux pid pes [] = done (pes, [])
demux pid pes (packet ∷ packets) = do
  (pes', delivered) ← stream_input pid pes packet 188
  (pes'', rest) ← demux pid pes' packets
  done (pes'', (elim delivered [ none ↦ [] | some (_, xs) ↦ xs ]) ++ rest)

Chain-demux :
    (pid c : ℕ) (pes : Pes) (send : List ℕ) (packets : List (List ℕ))
    → pid < 2 ^ 13
    → 0 < pes.sid
    → Chain pid c false [] send packets
    → demux pid pes packets ≡ done (pes, send)
unfolding demux
Chain-demux pid c pes send packets b sid Chain.stop = refl
Chain-demux pid c pes send packets b sid
      (Chain.next body n {packets = rest} positive bound is_body chain) =
    rw (
      stream_input-next pid c pes (take n send) body b sid is_body,
      Chain-demux pid ((c + 1) % 16) pes (drop n send) rest b sid chain,
      take-drop n send,
    )

-- Packets of 188 bytes whose headers are read as those of the stream `pid`, with counters from `c` on;
-- the first is marked where `start` is set, the others are not.
pub IsNumbered : ℕ → ℕ → Bool → List (List ℕ) → Type 0
IsNumbered pid c start [] = Unit
IsNumbered pid c start (packet ∷ packets) =
    (length packet ≡ 188)
    × ((pkhd : TsPacketHeader) × (i : ℕ) × (read_ts_header packet 188 ≡ done (pid, pkhd, i))
        × (i ≤ 188)
        × (pkhd.payload_unit_start_indicator ≡ (if start then 1 else 0))
        × (pkhd.continuity_counter ≡ c % 16))
    × IsNumbered pid ((c + 1) % 16) false packets

Chain-IsNumbered :
    (pid c : ℕ) (start : Bool) (headers send : List ℕ) (packets : List (List ℕ))
    → pid < 2 ^ 13
    → Chain pid c start headers send packets
    → IsNumbered pid c start packets
unfolding IsNumbered
Chain-IsNumbered pid c start headers send packets b Chain.stop = tt
Chain-IsNumbered pid c start headers send packets b
      (Chain.next body n {packets = rest} positive bound is_body chain) =
    let (pkhd, r, s, _, counter) = IsBody-IsRead start pid c b headers (take n send) body is_body in
    let size = is_body.size in
    let more = length-append is_body.more (headers ++ take n send) in
    let inner = length-append headers (take n send) in
    let l : length body ≡ 185 = ap length is_body.image ∙ omega (arith, size, more, inner) in
    (
      omega (arith, l),
      (pkhd, 4 + length is_body.more, r, omega (arith, size), s, counter),
      Chain-IsNumbered pid ((c + 1) % 16) false [] (drop n send) rest b chain,
    )

Chain-some :
    (pid c : ℕ) (headers send : List ℕ) (packets : List (List ℕ))
    → Chain pid c true headers send packets
    → 0 < length packets
Chain-some pid c headers send packets
      (Chain.next body n {packets = rest} positive bound is_body chain) =
    omega arith

-- The first packet and those behind it.
Chain-demux_first :
    (program : TsProgram) (s : TsStream) (bytes : ℕ) (old : Pes) (send : List ℕ)
    (packets : List (List ℕ))
    → s.pid < 2 ^ 13
    → 0 < s.pes.sid
    → IsCarriedPes s.pes
    → Chain s.pid s.cc true (start_headers program s bytes) send packets
    → demux s.pid old packets
      ≡ done (carried_pes old s.pes (header_length program s bytes), delimiter program s ++ send)
unfolding demux
Chain-demux_first program s bytes old send packets b sid v
      (Chain.next body n {packets = rest} positive bound is_body chain) =
    let pes = carried_pes old s.pes (header_length program s bytes) in
    let more = delimiter program s in
    let first = stream_input-first program s bytes old (take n send) body b v is_body in
    let others = Chain-demux s.pid ((s.cc + 1) % 16) pes (drop n send) rest b sid chain in
    rw (first, others)
      (ap (λ xs. done (pes, xs))
        (append_assoc more (take n send) (drop n send) ∙ ap (λ xs. more ++ xs) (take-drop n send)))

module _ (func : TsFunc) (program : TsProgram) (s : TsStream) (payload : List ℕ)
    (sink : IsOpen func) (four : 4 ≤ length payload) (v : IsCarriedPes s.pes)
    (clock : stream_pcr s.pes < 300 * 2 ^ 33) (pid_bits : s.pid < 2 ^ 13) where
  -- A payload of at least four bytes, of a stream whose times and PID fit their fields, is sent to the
  -- end where the sink takes every packet. What the reader takes out of the packets, one after the other,
  -- is the PES header with its times and the length of the PES packet (0 where it does not fit), and then
  -- exactly the bytes that were to be sent: the access unit delimiter if one is added, a start
  -- code if a picture has none, and the payload.
  pub demux-ts_write_pes :
      (old : Pes)
      → 0 < s.pes.sid
      → (let send = sent_payload (lacks_code s.codecid payload) payload in
          (ts_write_pes func program s payload (length payload) >>= λ (_, packets, _).
          demux s.pid old packets)
          ≡ done (
            carried_pes old s.pes (header_length program s (length send)),
            delimiter program s ++ send,
          ))
  demux-ts_write_pes old sid =
      let send = sent_payload (lacks_code s.codecid payload) payload in
      let (packets, _, t, chain) = ts_write_pes-Sent func program sink s payload four v clock in
      rw t (Chain-demux_first program s (length send) old send packets pid_bits sid v chain)

  -- A payload of at least four bytes, of a stream whose times and PID fit their fields, is sent where
  -- the sink takes every packet: the value returned is 0, at least one packet is sent, every packet
  -- has 188 bytes and the stream's PID, the first one alone is marked as the start of a PES
  -- packet, and the continuity counters go on from the stream's, modulo 16.
  pub ts_write_pes-IsNumbered :
      (packets : List (List ℕ)) × (s' : TsStream) × (ts_write_pes func program s payload
          (length payload)
        ≡ done (0, packets, s'))
      × (0 < length packets)
      × IsNumbered s.pid s.cc true packets
  ts_write_pes-IsNumbered =
      let send = sent_payload (lacks_code s.codecid payload) payload in
      let (packets, s', t, chain) = ts_write_pes-Sent func program sink s payload four v clock in
      (
        packets,
        s',
        t,
        Chain-some s.pid s.cc (start_headers program s (length send)) send packets chain,
        Chain-IsNumbered s.pid s.cc true (start_headers program s (length send)) send packets
            pid_bits chain,
      )
