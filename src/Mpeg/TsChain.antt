-- ===== src/Mpeg/TsChain.antt =====
-- src/media-server/libmpeg/source/mpeg-ts-enc.c: the packets that ts_write_pes sends for a PES packet.
use stream.Base.{
  ℕ, zero, suc, List, [], ◌∷◌, ◌+◌, ◌-◌, ◌*◌, ◌^◌, ◌%◌, ◌≤◌, ◌<◌, ◌≡◌, refl, inl, inr, ◌==◌, ◌&&◌,
  ◌||◌, bit_and, ltb, lt→ltb, if◌then◌else◌, Bool, Bool-cases, true, false, length, length-drop,
  take, drop, arith, Outcome, done,
}
use stream.Mpeg.PesBytes.{IsCarriedPes}
use stream.Mpeg.TsHeader.{TsFunc, TsProgram, TsStream, psi_stream_h264, psi_stream_h265, stream_pcr}
use stream.Mpeg.TsPacket.{pes_loop, lacks_prefix, checks_prefix, ts_write_pes}
use stream.Mpeg.TsStart.{start_headers}
use stream.Mpeg.TsPayload.{sent_payload, IsBody}
use stream.Mpeg.TsRound.{pid_byte, ts_packet-next, ts_packet-first}

-- A picture that does not begin with a start code of three or four bytes.
unfoldable pub lacks_code : ℕ → List ℕ → Bool
lacks_code codec (b0 ∷ (b1 ∷ (b2 ∷ (b3 ∷ rest)))) =
    if codec == psi_stream_h264 || codec == psi_stream_h265
    then (if (b0 == 0 && b1 == 0 && b2 == 0 && b3 == 1) || (b0 == 0 && b1 == 0 && b2 == 1)
        then false
        else true)
    else false
lacks_code codec _ = false

checks_prefix-done :
    (codec : ℕ) (payload : List ℕ)
    → 4 ≤ length payload
    → checks_prefix codec payload ≡ done (lacks_code codec payload)
unfolding checks_prefix lacks_prefix lacks_code
checks_prefix-done codec [] h = absurd (omega (arith, h))
checks_prefix-done codec (b0 ∷ []) h = absurd (omega (arith, h))
checks_prefix-done codec (b0 ∷ (b1 ∷ [])) h = absurd (omega (arith, h))
checks_prefix-done codec (b0 ∷ (b1 ∷ (b2 ∷ []))) h = absurd (omega (arith, h))
checks_prefix-done codec (b0 ∷ (b1 ∷ (b2 ∷ (b3 ∷ rest)))) h =
    elim (Bool-cases (codec == psi_stream_h264 || codec == psi_stream_h265)) [
      | inl e ↦ rw e
      | inr e ↦ rw e
    ]

sent-length :
    (bare : Bool) (payload : List ℕ)
    → ((if bare then length payload + 4 else length payload) ≡ length (sent_payload bare payload))
      × (length payload ≤ length (sent_payload bare payload))
sent-length true payload = (omega arith, omega arith)
sent-length false payload = (refl, omega arith)

-- Packets of the stream `pid` whose counters run from `c` on. They hold `headers` and then `send`, and
-- the first one is marked where `start` is set.
pub data Chain (pid : ℕ) : ℕ → Bool → List ℕ → List ℕ → List (List ℕ) → Type 0 where
  stop : {c : ℕ} → Chain pid c false [] [] []
  next :
      {c : ℕ} {start : Bool} {headers send : List ℕ} (body : List ℕ) (n : ℕ)
      {packets : List (List ℕ)}
      → 0 < n
      → n ≤ length send
      → IsBody c headers (take n send) body
      → Chain pid ((c + 1) % 16) false [] (drop n send) packets
      → Chain pid c start headers send
          ((0x47 ∷ pid_byte start pid ∷ bit_and pid 0xFF ∷ body) ∷ packets)

-- A sink that takes every packet, with memory for packets.
pub record IsOpen (func : TsFunc) : Type 0 where
  pub memory : (n : ℕ) → length (func.alloc n) ≡ 188
  pub accepts : (i : ℕ) (packet : List ℕ) → func.write i packet ≡ 0

module _ (func : TsFunc) (program : TsProgram) (sink : IsOpen func) where
  -- What a call has sent.
  abbrev pub Sent :
      Outcome (ℕ × List (List ℕ) × TsStream) → TsStream → Bool → List ℕ → List ℕ → Type 0
  Sent result s start headers send =
      (packets : List (List ℕ)) × (s' : TsStream) × (result ≡ done (0, packets, s'))
      × Chain s.pid s.cc start headers send packets

  nothing_left :
      (s : TsStream) (payload : List ℕ) → length payload ≡ 0 → Chain s.pid s.cc false [] payload []
  nothing_left s [] e = stop
  nothing_left s (x ∷ payload) e = absurd (omega (arith, e))

  pes_loop-next :
      (fuel : ℕ) (s : TsStream) (payload : List ℕ) (bytes sent : ℕ)
      → bytes ≡ length payload
      → bytes < fuel
      → Sent (pes_loop fuel func program s false false payload bytes sent) s false [] payload
  unfolding pes_loop
  pes_loop-next zero s payload bytes sent e b = absurd (omega (arith, b))
  pes_loop-next (suc fuel) s payload bytes sent e b = elim (Bool-cases (ltb 0 bytes)) [
    | inl p ↦
        let r =
          ts_packet-next program s (func.alloc bytes) payload bytes (sink.memory bytes) e
            (ground (arith, p)) in
        let s' = record s { cc = (s.cc + 1) % 16 } in
        let packet = 0x47 ∷ pid_byte false s.pid ∷ bit_and s.pid 0xFF ∷ r.body in
        let (packets, s'', t, chain) =
          pes_loop-next fuel s' (drop r.n payload) (bytes - r.n) (sent + 1)
            (omega (arith, e, length-drop r.n payload)) (omega (arith, b, r.positive, r.bound)) in
        (
          packet ∷ packets,
          s'',
          rw (p, r.image, sink.accepts sent packet, t),
          next r.body r.n {packets = packets} r.positive (omega (arith, e, r.bound)) r.is_body
              chain,
        )
    | inr p ↦ ([], s, rw p, nothing_left s payload (ground (arith, p, e)))
  ]

  pes_loop-first :
      (s : TsStream) (bare : Bool) (payload : List ℕ) (bytes : ℕ)
      → bytes ≡ length (sent_payload bare payload)
      → 0 < bytes
      → IsCarriedPes s.pes
      → stream_pcr s.pes < 300 * 2 ^ 33
      → Sent
          (pes_loop (suc bytes) func program s true bare payload bytes 0)
          s
          true
          (start_headers program s bytes)
          (sent_payload bare payload)
  unfolding pes_loop
  pes_loop-first s bare payload bytes e p v c =
      let r =
        ts_packet-first program s bare (func.alloc bytes) payload bytes (sink.memory bytes) v c e
          p in
      let s' = record s { cc = (s.cc + 1) % 16 } in
      let packet = 0x47 ∷ pid_byte true s.pid ∷ bit_and s.pid 0xFF ∷ r.body in
      let rest = drop r.n (sent_payload bare payload) in
      let (packets, s'', t, chain) =
        pes_loop-next bytes s' rest (bytes - r.n) 1
          (omega (arith, e, length-drop r.n (sent_payload bare payload)))
          (omega (arith, r.positive, r.bound)) in
      (
        packet ∷ packets,
        s'',
        rw (lt→ltb 0 bytes p, r.image, sink.accepts 0 packet, t),
        next r.body r.n {packets = packets} r.positive (omega (arith, e, r.bound)) r.is_body chain,
      )

  -- A PES packet whose payload has at least four bytes is sent: the loop ends, and what it has sent are
  -- the headers and the payload, cut into packets.
  pub ts_write_pes-Sent :
      (s : TsStream) (payload : List ℕ)
      → 4 ≤ length payload
      → IsCarriedPes s.pes
      → stream_pcr s.pes < 300 * 2 ^ 33
      → Sent
          (ts_write_pes func program s payload (length payload))
          s
          true
          (start_headers program s (length (sent_payload (lacks_code s.codecid payload) payload)))
          (sent_payload (lacks_code s.codecid payload) payload)
  unfolding ts_write_pes
  ts_write_pes-Sent s payload b v c =
      let bare = lacks_code s.codecid payload in
      let bytes = length (sent_payload bare payload) in
      let m = sent-length bare payload in
      let fuel : bytes + 1 ≡ suc bytes = omega arith in
      let (packets, s', t, chain) =
        pes_loop-first s bare payload bytes refl (omega (arith, b, m.1)) v c in
      (packets, s', rw (checks_prefix-done s.codecid payload b, m.0, fuel, t), chain)
