-- ===== src/Mpeg/Packet.antt =====
-- src/media-server/libmpeg/source/mpeg-packet.c: the frames of a stream whose packets are told apart by
-- their times, which is every stream but those of H.264 and H.265.
use stream.Base.{
  ℕ, List, [], ◌∷◌, ◌++◌, ◌+◌, ◌*◌, ◌==◌, ◌&&◌, ◌||◌, ltb, leb, if◌then◌else◌, length, Outcome,
  done, assert, ◌>>=◌, ◌>>◌,
}
use stream.Mpeg.Timestamp.{pts_no_value}
use stream.Mpeg.Pes.{Pes, differs}

-- struct packet_t, less `vcl`: `bytes` holds `data` up to `size`.
pub record Packet : Type 0 where
  pub sid : ℕ
  pub codecid : ℕ
  pub flags : ℕ
  pub pts : ℕ
  pub dts : ℕ
  pub bytes : List ℕ
  pub capacity : ℕ

-- What a handler is called with.
pub record Frame : Type 0 where
  pub codecid : ℕ
  pub flags : ℕ
  pub pts : ℕ
  pub dts : ℕ
  pub bytes : List ℕ

abbrev pub mpeg_packet_payload_max_size : ℕ
mpeg_packet_payload_max_size = 10 * 1024 * 1024

-- The value returned (22 is EINVAL), and the packet. Allocations do not fail.
unfoldable pub mpeg_packet_append : Packet → List ℕ → ℕ × Packet
mpeg_packet_append pkt xs =
    let size = length pkt.bytes + length xs in
    if ltb pkt.capacity size
    then (if ltb mpeg_packet_payload_max_size size
        then (22, pkt)
        else (0, record pkt { bytes = pkt.bytes ++ xs; capacity = size + 2048 }))
    else (0, record pkt { bytes = pkt.bytes ++ xs })

abbrev pub frame_of : Packet → Frame
frame_of pkt = record {
  codecid = pkt.codecid;
  flags = pkt.flags;
  pts = pkt.pts;
  dts = pkt.dts;
  bytes = pkt.bytes;
}

-- The frame that is complete because the next one starts: the value that the handler returned, the
-- packet, and the calls.
unfoldable pub flush_packet : (Frame → ℕ) → Packet → Pes → ℕ → Outcome (ℕ × Packet × List Frame)
flush_packet handler pkt pes start =
    if ltb 0 (length pkt.bytes) && (differs pkt.dts pes.dts || differs start 0)
    then (do
      assert (differs pts_no_value pkt.dts)
      done (handler (frame_of pkt), record pkt { bytes = [] }, frame_of pkt ∷ []))
    else done (0, pkt, [])

-- "save pts/dts"
unfoldable pub save_times : Packet → Pes → ℕ → Packet
save_times pkt pes codecid = record pkt {
  sid = pes.sid;
  codecid = codecid;
  flags = if differs pes.data_alignment_indicator 0 then 1 else 0;
  pts = pes.pts;
  dts = pes.dts;
}

-- The frame that is complete because it has the length of the PES packet.
unfoldable pub finish_frame : (Frame → ℕ) → Packet → Pes → Outcome (ℕ × Packet × List Frame)
finish_frame handler pkt pes =
    if ltb 0 pes.len && leb pes.len (length pkt.bytes)
    then (do
      assert (length pkt.bytes == pes.len)
      done (handler (frame_of pkt), record pkt { bytes = [] }, frame_of pkt ∷ []))
    else done (0, pkt, [])

-- The last branch of `pes_packet`, for a stream of `codecid`.
unfoldable pub pes_packet :
    (Frame → ℕ) → Packet → Pes → ℕ → List ℕ → ℕ → Outcome (ℕ × Packet × List Frame)
pes_packet handler pkt pes codecid xs start = do
  assert (differs pts_no_value pes.dts)
  (r, pkt1, calls) ← flush_packet handler pkt pes start
  if r == 0
      then (let (e, pkt2) = mpeg_packet_append pkt1 xs in
          if e == 0
          then (do
            (r', pkt3, calls') ← finish_frame handler (save_times pkt2 pes codecid) pes
            done (r', pkt3, calls ++ calls'))
          else done (e, pkt2, calls))
      else done (r, pkt1, calls)
