-- ===== src/Mpeg/PacketFrames.antt =====
-- src/media-server/libmpeg/source/mpeg-packet.c: chunks of one PES packet become one frame.
use stream.Base.{
  ℕ, List, [], ◌∷◌, ◌++◌, ◌+◌, ◌≤◌, ◌<◌, ◌≡◌, refl, ap, ◌==◌, ◌||◌, ltb, leb, lt→ltb, le→leb,
  le→ltb_false, lt→leb_false, if◌then◌else◌, Bool-cases, inl, inr, ◌⊎◌, true, false, length,
  length-append, arith, done,
}
use stream.Mpeg.Timestamp.{pts_no_value}
use stream.Mpeg.Pes.{Pes, differs}
use stream.Mpeg.Packet.{
  Packet, Frame, mpeg_packet_append, mpeg_packet_payload_max_size, frame_of, flush_packet,
  save_times, finish_frame, pes_packet,
}

append_fits :
    (pkt : Packet) (xs : List ℕ)
    → length pkt.bytes + length xs ≤ mpeg_packet_payload_max_size
    → (n : ℕ) × (mpeg_packet_append pkt xs
        ≡ (0, record pkt { bytes = pkt.bytes ++ xs; capacity = n }))
unfolding mpeg_packet_append
append_fits pkt xs b = elim (Bool-cases (ltb pkt.capacity (length pkt.bytes + length xs))) [
  | inl e ↦ (
    length pkt.bytes + length xs + 2048,
    rw (e, le→ltb_false (length pkt.bytes + length xs) mpeg_packet_payload_max_size b) refl,
  )
  | inr e ↦ (pkt.capacity, rw e refl)
]

-- No frame ends in front of a chunk that goes on with the frame, or begins the first.
abbrev pub Continues : Packet → Pes → ℕ → Type 0
Continues pkt pes start = (pkt.bytes ≡ []) ⊎ ((pkt.dts ≡ pes.dts) × (start ≡ 0))

flush_packet-Continues :
    (handler : Frame → ℕ) (pkt : Packet) (pes : Pes) (start : ℕ)
    → Continues pkt pes start
    → flush_packet handler pkt pes start ≡ done (0, pkt, [])
unfolding flush_packet
flush_packet-Continues handler pkt pes start (inl e) =
    let empty : ltb 0 (length pkt.bytes) ≡ false = ap (λ xs. ltb 0 (length xs)) e in rw empty
flush_packet-Continues handler pkt pes start (inr (e, z)) =
    let same : (differs pkt.dts pes.dts || differs start 0) ≡ false = ground (arith, e, z) in
    elim (Bool-cases (ltb 0 (length pkt.bytes))) [ inl l ↦ rw (l, same) | inr l ↦ rw l ]

-- The packet with the chunk.
abbrev pub joined : Packet → Pes → ℕ → List ℕ → ℕ → Packet
joined pkt pes codecid xs n = record pkt {
  sid = pes.sid;
  codecid = codecid;
  flags = if differs pes.data_alignment_indicator 0 then 1 else 0;
  pts = pes.pts;
  dts = pes.dts;
  bytes = pkt.bytes ++ xs;
  capacity = n;
}

module _ (handler : Frame → ℕ) (pkt : Packet) (pes : Pes) (codecid start : ℕ) (xs : List ℕ)
    (timed : differs pts_no_value pes.dts ≡ true) (goes_on : Continues pkt pes start)
    (max : length pkt.bytes + length xs ≤ mpeg_packet_payload_max_size) where
  -- A chunk that does not complete the PES packet.
  pub pes_packet-collects :
      length pkt.bytes + length xs < pes.len
      → (n : ℕ) × (pes_packet handler pkt pes codecid xs start
          ≡ done (0, joined pkt pes codecid xs n, []))
  unfolding pes_packet save_times finish_frame
  pes_packet-collects l =
      let (n, a) = append_fits pkt xs max in
      let some : ltb 0 pes.len ≡ true = lt→ltb 0 pes.len (omega (arith, l)) in
      let more : leb pes.len (length (pkt.bytes ++ xs)) ≡ false =
        lt→leb_false (length (pkt.bytes ++ xs)) pes.len
          (omega (arith, l, length-append pkt.bytes xs)) in
      (n, rw (timed, flush_packet-Continues handler pkt pes start goes_on, a, some, more) refl)

  -- The chunk that completes it: the handler gets the frame.
  pub pes_packet-completes :
      length pkt.bytes + length xs ≡ pes.len
      → 0 < pes.len
      → (n : ℕ) × (pes_packet handler pkt pes codecid xs start
          ≡ done (
            handler (frame_of (joined pkt pes codecid xs n)),
            record (joined pkt pes codecid xs n) { bytes = [] },
            frame_of (joined pkt pes codecid xs n) ∷ [],
          ))
  unfolding pes_packet save_times finish_frame
  pes_packet-completes l p =
      let (n, a) = append_fits pkt xs max in
      let some : ltb 0 pes.len ≡ true = lt→ltb 0 pes.len p in
      let size : length (pkt.bytes ++ xs) ≡ pes.len =
        omega (arith, l, length-append pkt.bytes xs) in
      let enough : leb pes.len (length (pkt.bytes ++ xs)) ≡ true =
        le→leb pes.len (length (pkt.bytes ++ xs)) (omega (arith, size)) in
      let exact : (length (pkt.bytes ++ xs) == pes.len) ≡ true = ground (arith, size) in
      (
        n,
        rw (timed, flush_packet-Continues handler pkt pes start goes_on, a, some, enough, exact)
            refl,
      )
