-- ===== src/Mpeg/TsFrameRoundTrip.antt =====
-- src/media-server/libmpeg/source/mpeg-ts-enc.c, mpeg-ts-dec.c and mpeg-packet.c: a frame that is
-- written is the frame that is read.
use stream.Base.{
  ℕ, List, [], ◌∷◌, ◌++◌, ◌+◌, ◌-◌, ◌*◌, ◌^◌, ◌%◌, ◌≤◌, ◌<◌, ◌≡◌, refl, ap, ◌∙◌, inl, ◌==◌, ◌||◌,
  u32, u64, ltb, lt→ltb, le→ltb_false, if◌then◌else◌, true, false, some, length, length-append,
  length-drop, length-take, take, drop, take-drop, arith, done, ◌>>=◌,
}
use mathlib.Core.Path.{subst}
use native.Mathlib.Decide.{dec_lt}
use stream.Mpeg.Timestamp.{pts_no_value}
use stream.Mpeg.Pes.{Pes, differs, has_pts, has_dts, write_len}
use stream.Mpeg.PesBytes.{IsCarriedPes, carried_pes}
use stream.Mpeg.TsHeader.{
  TsFunc, TsProgram, TsStream, delimiter, pes_packet_length, stream_pcr, psi_stream_h264,
  psi_stream_h265,
}
use stream.Mpeg.TsPacket.{ts_write_pes}
use stream.Mpeg.Packet.{Packet, Frame, mpeg_packet_payload_max_size}
use stream.Mpeg.PacketFrames.{joined, pes_packet-collects, pes_packet-completes}
use stream.Mpeg.TsStart.{start_headers}
use stream.Mpeg.TsPayload.{sent_payload}
use stream.Mpeg.TsChain.{lacks_code, Chain, IsOpen, ts_write_pes-Sent}
use stream.Mpeg.TsDelivery.{take_all}
use stream.Mpeg.TsRoundTrip.{header_length, stream_input-first}
use stream.Mpeg.TsFrames.{deliver, demux_frames, pes_frame, Delivers, nothing_more, Chain-Delivers}

wide :
    (n d bytes : ℕ)
    → d ≡ 0
    → n + 3 + bytes < 2 ^ 16
    → pes_packet_length (9 + n + d) bytes ≡ n + 3 + bytes
unfolding pes_packet_length
wide n d bytes e b =
    let m : u64 (9 + n + d + 2 ^ 64 - 6 + bytes) ≡ n + 3 + bytes = omega (arith, e, b) in
    rw (m, le→ltb_false (n + 3 + bytes) 0xFFFF (omega (arith, b))) (omega (arith, b))

narrow :
    (n bytes : ℕ)
    → n + 3 + bytes < 2 ^ 16
    → (if ltb 0 (n + 3 + bytes) then u32 (n + 3 + bytes + 2 ^ 32 - (n + 3)) else n + 3 + bytes)
      ≡ bytes
narrow n bytes b = rw (lt→ltb 0 (n + 3 + bytes) (omega arith)) (omega (arith, b))

-- The length of a payload that fits PES_packet_length is read back.
carried-len :
    (program : TsProgram) (s : TsStream) (old : Pes) (bytes : ℕ)
    → delimiter program s ≡ []
    → write_len s.pes + 3 + bytes < 2 ^ 16
    → (carried_pes old s.pes (header_length program s bytes)).len ≡ bytes
carried-len program s old bytes e b =
    let z : length (delimiter program s) ≡ 0 = ap length e in
    let all = wide (write_len s.pes) (length (delimiter program s)) bytes z b in
    rw all (narrow (write_len s.pes) bytes b)

carried-timed :
    (old p : Pes) (len : ℕ)
    → p.pts < 2 ^ 33
    → differs pts_no_value (carried_pes old p len).dts ≡ true
carried-timed old p len b = ground (arith, b)

module _ (handler : Frame → ℕ) (program : TsProgram) (s : TsStream) (old : Pes) (send : List ℕ)
    (small : s.pid < 2 ^ 13) (sid : 0 < s.pes.sid) (v : IsCarriedPes s.pes)
    (time : s.pes.pts < 2 ^ 33) (plain : delimiter program s ≡ [])
    (fits : write_len s.pes + 3 + length send < 2 ^ 16) (some_bytes : 0 < length send) where
  abbrev carried : Pes
  carried = carried_pes old s.pes (header_length program s (length send))

  Chain-Delivers_first :
      (packets : List (List ℕ)) (pkt : Packet)
      → pkt.bytes ≡ []
      → Chain s.pid s.cc true (start_headers program s (length send)) send packets
      → Delivers (demux_frames handler s.pid s.codecid old pkt packets) s.codecid carried send
  unfolding demux_frames deliver
  Chain-Delivers_first packets pkt empty
        (Chain.next body n {packets = rest} positive bound is_body chain) =
      let xs = take n send in
      let l = length-take n send bound in
      let k = length-drop n send in
      let len = carried-len program s old (length send) plain fits in
      let timed = carried-timed old s.pes (header_length program s (length send)) time in
      let first =
        stream_input-first program s (length send) old xs body small v is_body
        ∙ ap (λ ys. done (carried, some (1, ys ++ xs))) plain in
      let start : length pkt.bytes ≡ 0 = ap length empty in
      let max : carried.len ≤ mpeg_packet_payload_max_size = omega (arith, len, fits) in
      elim (dec_lt n (length send)) [
        | yes m ↦
            let (cap, a) =
              pes_packet-collects handler pkt carried s.codecid 1 xs timed (inl empty)
                (omega (arith, start, l, m, fits)) (omega (arith, start, l, m, len)) in
            let (pkt', t, none) =
              Chain-Delivers handler s.pid s.codecid carried small sid timed max ((s.cc + 1) % 16)
                (drop n send) rest (joined pkt carried s.codecid xs cap) chain (omega (arith, k, m))
                (omega (arith, start, k, l, bound, len, length-append pkt.bytes xs)) refl in
            let whole : (pkt.bytes ++ xs) ++ drop n send ≡ send =
              ap (λ ys. (ys ++ xs) ++ drop n send) empty ∙ take-drop n send in
            (
              pkt',
              rw (first, a, t)
                  (ap (λ ys. done (carried, pkt', pes_frame s.codecid carried ys ∷ [])) whole),
              none,
            )
        | no m ↦
            let (cap, a) =
              pes_packet-completes handler pkt carried s.codecid 1 xs timed (inl empty)
                (omega (arith, start, l, m, bound, fits)) (omega (arith, start, l, m, len, bound))
                (omega (arith, len, some_bytes)) in
            let last = record (joined pkt carried s.codecid xs cap) { bytes = [] } in
            let whole : pkt.bytes ++ xs ≡ send =
              ap (λ ys. ys ++ xs) empty ∙ take_all n send (omega (arith, m, bound)) in
            (
              last,
              rw
                  (
                    first,
                    a,
                    nothing_more handler s.pid s.codecid carried small sid timed max
                        ((s.cc + 1) % 16) (drop n send) rest last (omega (arith, k, m)) chain,
                  )
                  (ap (λ ys. done (carried, last, pes_frame s.codecid carried ys ∷ [])) whole),
              refl,
            )
      ]

no_delimiter :
    (program : TsProgram) (s : TsStream)
    → (s.codecid == psi_stream_h264 || s.codecid == psi_stream_h265) ≡ false
    → delimiter program s ≡ []
unfolding delimiter
no_delimiter program s e = ground (arith, e)

lacks_code-other :
    (codec : ℕ) (payload : List ℕ)
    → (codec == psi_stream_h264 || codec == psi_stream_h265) ≡ false
    → lacks_code codec payload ≡ false
unfolding lacks_code
lacks_code-other codec [] e = refl
lacks_code-other codec (b0 ∷ []) e = refl
lacks_code-other codec (b0 ∷ (b1 ∷ [])) e = refl
lacks_code-other codec (b0 ∷ (b1 ∷ (b2 ∷ []))) e = refl
lacks_code-other codec (b0 ∷ (b1 ∷ (b2 ∷ (b3 ∷ rest)))) e = rw e

-- A frame of at least four bytes, of a stream that is neither H.264 nor H.265, whose times and PID fit
-- their fields and which has a presentation time and fits PES_packet_length, is sent to a sink that takes
-- every packet. From these packets the reader, with nothing kept from before, calls its handler
-- exactly once: with the bytes of the frame, its times and the flag of random access.
-- Nothing is kept.
pub demux_frames-ts_write_pes :
    (handler : Frame → ℕ) (func : TsFunc) (program : TsProgram) (s : TsStream) (old : Pes)
    (pkt : Packet) (payload : List ℕ)
    → IsOpen func
    → (s.codecid == psi_stream_h264 || s.codecid == psi_stream_h265) ≡ false
    → 4 ≤ length payload
    → write_len s.pes + 3 + length payload < 2 ^ 16
    → IsCarriedPes s.pes
    → s.pes.pts < 2 ^ 33
    → stream_pcr s.pes < 300 * 2 ^ 33
    → s.pid < 2 ^ 13
    → 0 < s.pes.sid
    → pkt.bytes ≡ []
    → (pes : Pes) × (pkt' : Packet) × ((ts_write_pes func program s payload (length payload)
          >>= λ (_, packets, _). demux_frames handler s.pid s.codecid old pkt packets)
        ≡ done (pes, pkt', pes_frame s.codecid pes payload ∷ []))
      × (pkt'.bytes ≡ [])
      × (pes.pts ≡ s.pes.pts)
      × (pes.dts ≡ (if has_dts s.pes then s.pes.dts else s.pes.pts))
      × (pes.data_alignment_indicator ≡ s.pes.data_alignment_indicator)
demux_frames-ts_write_pes handler func program s old pkt payload sink codec four fits v time clock
      small sid empty =
    let bare = lacks_code-other s.codecid payload codec in
    let (packets, _, t, chain) = ts_write_pes-Sent func program sink s payload four v clock in
    let plain = no_delimiter program s codec in
    let chain' =
      subst
        (λ b.
          Chain s.pid s.cc true (start_headers program s (length (sent_payload b payload)))
            (sent_payload b payload) packets)
        bare chain in
    let (pkt', u, none) =
      Chain-Delivers_first handler program s old payload small sid v time plain fits
        (omega (arith, four)) packets pkt empty chain' in
    let present : has_pts s.pes ≡ true = ground (arith, time) in
    let pes = carried_pes old s.pes (header_length program s (length payload)) in
    (pes, pkt', rw (t, u), none, rw present refl, rw present refl, refl)
