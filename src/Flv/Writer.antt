-- ===== src/Flv/Writer.antt =====
-- src/media-server/libflv/source/flv-writer.c over a callback `write`, which takes the sink's
-- state and the bytes and returns the new state with the number of bytes taken (`none` where it
-- returns a negative number).
use stream.Base.{
  ℕ, List, ◌+◌, ◌^◌, ◌==◌, leb, fault, if◌then◌else◌, u8, u32, take, drop, replicate, Bool, true,
  false, Option, none, some, ◌++◌, Outcome, done, ◌>>=◌,
}
use stream.Flv.Proto.{
  FlvTagHeader, flv_end_of_sequence, flv_type_video, flv_video_h264, flv_header_size,
  flv_tag_header_size,
}
use stream.Flv.Write.{
  flv_header_write, flv_tag_header_write, flv_video_tag_header_write, flv_tag_size_write,
}

-- A local array. What it holds before the first store is never read.
abbrev pub local_array : ℕ → List ℕ
local_array n = replicate n 0

-- `n == flv->write(…)`
abbrev pub took : ℕ → Option ℕ → Bool
took n none = false
took n (some m) = n == m

-- The header that `flv_writer_input` fills.
abbrev pub input_tag : ℕ → ℕ → ℕ → FlvTagHeader
input_tag type bytes timestamp = record {
  filter = 0;
  type = u8 type;
  size = u32 bytes;
  timestamp = timestamp;
  stream_id = 0;
}

module _ {S : Type 0} (write : S → List ℕ → S × Option ℕ) where
  -- The result is the sink's state, and whether 0 was returned (else -1).
  unfoldable pub flv_write_header : S → Outcome (S × Bool)
  flv_write_header s = do
    (_, header) ← flv_header_write 1 1 (local_array 13) flv_header_size
    (_, size) ← flv_tag_size_write (drop flv_header_size header) 4 0
    let (s', n) = write s (take flv_header_size header ++ size)
    done (s', took 13 n)

  -- The callback gets `(int)bytes`; a negative number of bytes is a fault.
  unfoldable pub flv_writer_input : S → ℕ → List ℕ → ℕ → ℕ → Outcome (S × Bool)
  flv_writer_input s type buf bytes timestamp = do
    (_, header) ←
        flv_tag_header_write (input_tag type bytes timestamp) (local_array 15) flv_tag_header_size
    (_, size) ←
        flv_tag_size_write (drop flv_tag_header_size header) 4 (u32 (bytes + flv_tag_header_size))
    let (s₁, n₁) = write s (take flv_tag_header_size header)
    let (s₂, n₂) = write s₁ (take (u32 bytes) buf)
    let (s₃, n₃) = write s₂ (take 4 size)
    if took flv_tag_header_size n₁
        then (if leb (2 ^ 31) (u32 bytes)
            then fault
            else if took bytes n₂
            then done (s₃, took 4 n₃)
            else done (s₂, false))
        else done (s₁, false)

  unfoldable pub flv_write_eos : S → Outcome (S × Bool)
  flv_write_eos s = do
    (n, header) ←
        flv_video_tag_header_write
          (record {
            codecid = flv_video_h264;
            keyframe = 1;
            avpacket = flv_end_of_sequence;
            cts = 0;
          })
          (local_array 16) 16
    flv_writer_input s flv_type_video header n 0

  -- `flv_writer_destroy` ignores what `flv_write_eos` returns; closing the file is the system's.
  unfoldable pub flv_writer_destroy : S → Outcome S
  flv_writer_destroy s = do (s', _) ← flv_write_eos s; done s'

  -- A writer where the header could be written; it is destroyed, and none returned, if not.
  unfoldable pub flv_writer_create2 : S → Outcome (S × Bool)
  flv_writer_create2 s = do
    (s', written) ← flv_write_header s
    if written then done (s', true) else (do s'' ← flv_writer_destroy s'; done (s'', false))
