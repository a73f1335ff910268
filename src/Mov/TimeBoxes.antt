-- ===== src/Mov/TimeBoxes.antt =====
-- src/media-server/libmov/source/mov-stts.c: reading and writing the boxes of the time tables. The
-- readers start behind size and type of the box; an allocation does not fail.
use stream.Base.{
  ℕ, zero, suc, List, [], ◌∷◌, ◌+◌, ◌*◌, ◌==◌, bit_and, u32, if◌then◌else◌, Outcome, done, fault,
}
use stream.Mov.SizeTables.{no_table}
use stream.Mov.IoUtil.{
  MovBuffer, Call, ◌>>=◌, ◌>>◌, pure, mov_buffer_error, mov_buffer_write, mov_buffer_r8,
  mov_buffer_r24, mov_buffer_r32, mov_buffer_w8, mov_buffer_w24, mov_buffer_w32,
}
use stream.Mov.Samples.{MovSample, MovStts}
use stream.Mov.TimeTables.{mov_track_flag_ctts_v1}

module _ {S : Type 0} (cb : MovBuffer S) where
  -- The loop over the entries of a table.
  unfoldable pub read_entries : ℕ → Call S (List MovStts)
  read_entries zero = pure []
  read_entries (suc n) = do
    sample_count ← mov_buffer_r32 cb
    sample_delta ← mov_buffer_r32 cb
    entries ← read_entries n
    pure (record { sample_count = sample_count; sample_delta = sample_delta } ∷ entries)

  -- What is read into the new table, and what is returned.
  unfoldable pub read_table : ℕ → Call S (Outcome (List MovStts × ℕ))
  read_table entry_count = do
    entries ← read_entries entry_count
    error ← mov_buffer_error cb
    pure (done (entries, error))

  -- `old` is `stbl->stts`, on which there is an assertion.
  unfoldable pub mov_read_stts : List MovStts → Call S (Outcome (List MovStts × ℕ))
  mov_read_stts old = do
    _ ← mov_buffer_r8 cb
    _ ← mov_buffer_r24 cb
    entry_count ← mov_buffer_r32 cb
    if no_table old then read_table entry_count else pure fault

  -- `old` is `stbl->ctts`.
  unfoldable pub mov_read_ctts : List MovStts → Call S (Outcome (List MovStts × ℕ))
  mov_read_ctts old = do
    _ ← mov_buffer_r8 cb
    _ ← mov_buffer_r24 cb
    entry_count ← mov_buffer_r32 cb
    if no_table old then read_table entry_count else pure fault

  -- `for (i = 0; i < track->sample_count; i++)`
  unfoldable pub write_entries : List MovSample → Call S (Unit {0})
  write_entries [] = pure tt
  write_entries (s ∷ samples) =
      let rest = write_entries samples in
      if s.first_chunk == 0
      then rest
      else mov_buffer_w32 cb s.first_chunk >> (mov_buffer_w32 cb s.samples_per_chunk >> rest)

  -- Returns the size.
  unfoldable pub mov_write_stts : List MovSample → ℕ → Call S ℕ
  mov_write_stts samples count =
      let size = u32 (12 + 4 + count * 8) in
      mov_buffer_w32 cb size
      >> (mov_buffer_write cb (0x73 ∷ 0x74 ∷ 0x74 ∷ 0x73 ∷ [])
          >> (mov_buffer_w32 cb 0
              >> (mov_buffer_w32 cb count >> (write_entries samples >> pure size))))

  unfoldable pub mov_write_ctts : List MovSample → ℕ → ℕ → Call S ℕ
  mov_write_ctts samples flags count =
      let size = u32 (12 + 4 + count * 8) in
      mov_buffer_w32 cb size
      >> (mov_buffer_write cb (0x63 ∷ 0x74 ∷ 0x74 ∷ 0x73 ∷ [])
          >> (mov_buffer_w8 cb (if bit_and flags mov_track_flag_ctts_v1 == 0 then 0 else 1)
              >> (mov_buffer_w24 cb 0
                  >> (mov_buffer_w32 cb count >> (write_entries samples >> pure size)))))
