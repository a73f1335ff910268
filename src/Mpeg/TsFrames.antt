-- ===== src/Mpeg/TsFrames.antt =====
-- src/media-server/libmpeg/source/mpeg-ts-enc.c, mpeg-ts-dec.c and mpeg-packet.c: a frame of a stream
-- that is not H.264 or H.265, from the writer to the handler of the reader.
use stream.Base.{
  ℕ, List, [], ◌∷◌, ◌++◌, ◌+◌, ◌^◌, ◌%◌, ◌≤◌, ◌<◌, ◌≡◌, refl, ap, ◌∙◌, inr, if◌then◌else◌, true,
  false, Option, none, some, length, length-append, length-drop, length-take, take, drop, take-drop,
  arith, Outcome, done, ◌>>=◌,
}
use native.Mathlib.Decide.{dec_lt}
use mathlib.Core.List.{append_assoc}
use stream.Mpeg.Timestamp.{pts_no_value}
use stream.Mpeg.Pes.{Pes, differs}
use stream.Mpeg.TsInput.{stream_input}
use stream.Mpeg.Packet.{Packet, Frame, mpeg_packet_payload_max_size, pes_packet}
use stream.Mpeg.PacketFrames.{joined, pes_packet-collects, pes_packet-completes}
use stream.Mpeg.TsChain.{Chain}
use stream.Mpeg.TsDelivery.{take_all, stream_input-next}

-- What `ts_demuxer_input` does with the payload: the packet, and the calls of the handler.
unfoldable pub deliver :
    (Frame → ℕ) → ℕ → Pes → Packet → Option (ℕ × List ℕ) → Outcome (Packet × List Frame)
deliver handler codecid pes pkt none = done (pkt, [])
deliver handler codecid pes pkt (some (start, xs)) = do
  (_, pkt', calls) ← pes_packet handler pkt pes codecid xs start
  done (pkt', calls)

-- The packets one after the other: the state of the stream, and all calls of the handler.
unfoldable pub demux_frames :
    (Frame → ℕ) → ℕ → ℕ → Pes → Packet → List (List ℕ) → Outcome (Pes × Packet × List Frame)
demux_frames handler pid codecid pes pkt [] = done (pes, pkt, [])
demux_frames handler pid codecid pes pkt (packet ∷ packets) = do
  (pes', delivered) ← stream_input pid pes packet 188
  (pkt', calls) ← deliver handler codecid pes' pkt delivered
  (pes'', pkt'', rest) ← demux_frames handler pid codecid pes' pkt' packets
  done (pes'', pkt'', calls ++ rest)

-- The frame of a PES packet with the payload `xs`.
abbrev pub pes_frame : ℕ → Pes → List ℕ → Frame
pes_frame codecid pes xs = record {
  codecid = codecid;
  flags = if differs pes.data_alignment_indicator 0 then 1 else 0;
  pts = pes.pts;
  dts = pes.dts;
  bytes = xs;
}

-- The handler is called once, with `xs`, and nothing is kept.
abbrev pub Delivers : Outcome (Pes × Packet × List Frame) → ℕ → Pes → List ℕ → Type 0
Delivers result codecid pes xs =
    (pkt : Packet) × (result ≡ done (pes, pkt, pes_frame codecid pes xs ∷ [])) × (pkt.bytes ≡ [])

module _ (handler : Frame → ℕ) (pid codecid : ℕ) (pes : Pes) (small : pid < 2 ^ 13)
    (sid : 0 < pes.sid) (timed : differs pts_no_value pes.dts ≡ true)
    (max : pes.len ≤ mpeg_packet_payload_max_size) where
  pub nothing_more :
      (c : ℕ) (send : List ℕ) (packets : List (List ℕ)) (pkt : Packet)
      → length send ≡ 0
      → Chain pid c false [] send packets
      → demux_frames handler pid codecid pes pkt packets ≡ done (pes, pkt, [])
  unfolding demux_frames
  nothing_more c send packets pkt e Chain.stop = refl
  nothing_more c send packets pkt e (Chain.next body n positive bound is_body chain) =
      absurd (omega (arith, e, positive, bound))

  -- What is left of a PES packet whose beginning is in `pkt`.
  pub Chain-Delivers :
      (c : ℕ) (send : List ℕ) (packets : List (List ℕ)) (pkt : Packet)
      → Chain pid c false [] send packets
      → 0 < length send
      → length pkt.bytes + length send ≡ pes.len
      → pkt.dts ≡ pes.dts
      → Delivers (demux_frames handler pid codecid pes pkt packets) codecid pes (pkt.bytes ++ send)
  unfolding demux_frames deliver
  Chain-Delivers c send packets pkt Chain.stop p e d = absurd (omega (arith, p))
  Chain-Delivers c send packets pkt
        (Chain.next body n {packets = rest} positive bound is_body chain) p e d =
      let xs = take n send in
      let l = length-take n send bound in
      let k = length-drop n send in
      let first = stream_input-next pid c pes xs body small sid is_body in
      let whole : (pkt.bytes ++ xs) ++ drop n send ≡ pkt.bytes ++ send =
        append_assoc pkt.bytes xs (drop n send) ∙ ap (λ ys. pkt.bytes ++ ys) (take-drop n send) in
      elim (dec_lt n (length send)) [
        | yes m ↦
            let (cap, a) =
              pes_packet-collects handler pkt pes codecid 0 xs timed (inr (d, refl))
                (omega (arith, e, l, max, m)) (omega (arith, e, l, m)) in
            let (pkt', t, empty) =
              Chain-Delivers ((c + 1) % 16) (drop n send) rest (joined pkt pes codecid xs cap) chain
                (omega (arith, k, m)) (omega (arith, e, k, l, bound, length-append pkt.bytes xs))
                refl in
            (
              pkt',
              rw (first, a, t) (ap (λ ys. done (pes, pkt', pes_frame codecid pes ys ∷ [])) whole),
              empty,
            )
        | no m ↦
            let (cap, a) =
              pes_packet-completes handler pkt pes codecid 0 xs timed (inr (d, refl))
                (omega (arith, e, l, max, m, bound)) (omega (arith, e, l, m, bound))
                (omega (arith, e, p)) in
            let last = record (joined pkt pes codecid xs cap) { bytes = [] } in
            let same : xs ≡ send = take_all n send (omega (arith, m, bound)) in
            (
              last,
              rw
                  (
                    first,
                    a,
                    nothing_more ((c + 1) % 16) (drop n send) rest last (omega (arith, k, m)) chain,
                  )
                  (ap (λ ys. done (pes, last, pes_frame codecid pes (pkt.bytes ++ ys) ∷ [])) same),
              refl,
            )
      ]
