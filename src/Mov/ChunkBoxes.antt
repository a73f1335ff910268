-- ===== src/Mov/ChunkBoxes.antt =====
-- src/media-server/libmov/source/mov-stco.c and mov-stsc.c: reading and writing the boxes of the
-- chunks. The readers start behind size and type of the box; an allocation does not fail.
use stream.Base.{
  ℕ, zero, suc, List, [], ◌∷◌, ◌+◌, ◌*◌, ◌^◌, ◌==◌, ◌&&◌, ◌||◌, u32, u64, ltb, leb, if◌then◌else◌,
  Bool, false, Option, bit_or, ◌<<<◌, Outcome, done, fault, some, none,
}
use stream.Mov.IoUtil.{
  MovBuffer, Call, ◌>>=◌, ◌>>◌, pure, mov_buffer_error, mov_buffer_tell, mov_buffer_write,
  mov_buffer_r8, mov_buffer_r24, mov_buffer_r32, mov_buffer_r64, mov_buffer_w32, mov_buffer_w64,
}
use stream.Mov.Samples.{MovSample, MovStsc}
use stream.Mov.SizeTables.{fill_in, read_numbers, no_table}

-- A sample starts no entry of the table if it starts no chunk, or one like the chunk before.
unfoldable pub skips : Option MovSample → MovSample → Bool
skips none s = s.first_chunk == 0
skips (some c) s =
    (s.first_chunk == 0)
    || ((c.samples_per_chunk == s.samples_per_chunk)
        && (c.sample_description_index == s.sample_description_index))

-- `j`, the number of chunks.
unfoldable pub count_chunks : List MovSample → ℕ
count_chunks [] = 0
count_chunks (s ∷ samples) =
    let rest = count_chunks samples in if s.first_chunk == 0 then rest else rest + 1

-- `sample->offset + track->offset` of the last sample.
unfoldable pub last_offset : List MovSample → ℕ → ℕ
last_offset [] track_offset = 0
last_offset (s ∷ []) track_offset = u64 (s.offset + track_offset)
last_offset (s ∷ t ∷ samples) track_offset = last_offset (t ∷ samples) track_offset

-- `co64`
unfoldable pub needs_co64 : List MovSample → ℕ → Bool
needs_co64 [] track_offset = false
needs_co64 (s ∷ samples) track_offset = leb (2 ^ 32) (last_offset (s ∷ samples) track_offset)

-- By how much the box grows if `offset` is added to all chunk offsets.
unfoldable pub mov_stco_size : List MovSample → ℕ → ℕ → ℕ
mov_stco_size [] track_offset offset = 0
mov_stco_size (s ∷ samples) track_offset offset =
    let co64 = last_offset (s ∷ samples) track_offset in
    if leb (2 ^ 32) co64 || ltb (u64 (co64 + offset)) (2 ^ 32)
    then 0
    else count_chunks (s ∷ samples) * 4

abbrev pub tag_stco : List ℕ
tag_stco = 0x73 ∷ 0x74 ∷ 0x63 ∷ 0x6F ∷ []

abbrev pub tag_co64 : List ℕ
tag_co64 = 0x63 ∷ 0x6F ∷ 0x36 ∷ 0x34 ∷ []

-- MOV_TAG
abbrev pub mov_tag : ℕ → ℕ → ℕ → ℕ → ℕ
mov_tag a b c d = bit_or (bit_or (bit_or (a <<< 24) (b <<< 16)) (c <<< 8)) d

module _ {S : Type 0} (cb : MovBuffer S) where
  unfoldable pub read_stsc_entries : ℕ → Call S (List MovStsc)
  read_stsc_entries zero = pure []
  read_stsc_entries (suc n) = do
    first_chunk ← mov_buffer_r32 cb
    samples_per_chunk ← mov_buffer_r32 cb
    sample_description_index ← mov_buffer_r32 cb
    entries ← read_stsc_entries n
    pure (
        record {
          first_chunk = first_chunk;
          samples_per_chunk = samples_per_chunk;
          sample_description_index = sample_description_index;
        }
        ∷ entries)

  -- What is read into the new table, and what is returned.
  unfoldable pub stsc_fields : ℕ → Call S (Outcome (List MovStsc × ℕ))
  stsc_fields entry_count = do
    stsc ← read_stsc_entries entry_count
    error ← mov_buffer_error cb
    pure (done (stsc, error))

  -- `old` is `stbl->stsc`, on which there is an assertion.
  unfoldable pub mov_read_stsc : List MovStsc → Call S (Outcome (List MovStsc × ℕ))
  mov_read_stsc old = do
    _ ← mov_buffer_r8 cb
    _ ← mov_buffer_r24 cb
    entry_count ← mov_buffer_r32 cb
    if no_table old then stsc_fields entry_count else pure fault

  -- The loop of `mov_write_stsc`; `entry` entries are written, `chunk` started the last of them.
  unfoldable pub write_stsc_entries : Option MovSample → ℕ → List MovSample → Call S ℕ
  write_stsc_entries chunk entry [] = pure entry
  write_stsc_entries chunk entry (s ∷ samples) =
      let skipped = write_stsc_entries chunk entry samples in
      let rest = write_stsc_entries (some s) (entry + 1) samples in
      if skips chunk s
      then skipped
      else mov_buffer_w32 cb s.first_chunk
        >> (mov_buffer_w32 cb s.samples_per_chunk
            >> (mov_buffer_w32 cb s.sample_description_index >> rest))

  -- Returns the size.
  unfoldable pub mov_write_stsc : List MovSample → Call S ℕ
  mov_write_stsc samples = do
    offset ← mov_buffer_tell cb
    entry ←
        mov_buffer_w32 cb 0
        >> (mov_buffer_write cb (0x73 ∷ 0x74 ∷ 0x73 ∷ 0x63 ∷ [])
            >> (mov_buffer_w32 cb 0 >> (mov_buffer_w32 cb 0 >> write_stsc_entries none 0 samples)))
    offset2 ← mov_buffer_tell cb
    fill_in cb offset (u32 (12 + 4 + entry * 12)) entry offset2 >> pure (u32 (12 + 4 + entry * 12))

  unfoldable pub read_numbers64 : ℕ → Call S (List ℕ)
  read_numbers64 zero = pure []
  read_numbers64 (suc n) = do x ← mov_buffer_r64 cb; numbers ← read_numbers64 n; pure (x ∷ numbers)

  -- The loop for the box type, or the assertion that there is no other.
  unfoldable pub stco_fields : ℕ → ℕ → Call S (Outcome (List ℕ × ℕ))
  stco_fields box_type entry_count =
      if mov_tag b's' b't' b'c' b'o' == box_type
      then (do
        stco ← read_numbers cb entry_count
        error ← mov_buffer_error cb
        pure (done (stco, error)))
      else if mov_tag b'c' b'o' b'6' b'4' == box_type
      then (do
        stco ← read_numbers64 entry_count
        error ← mov_buffer_error cb
        pure (done (stco, error)))
      else pure fault

  -- `old` is `stbl->stco`, on which there is an assertion too.
  unfoldable pub mov_read_stco : List ℕ → ℕ → Call S (Outcome (List ℕ × ℕ))
  mov_read_stco old box_type = do
    _ ← mov_buffer_r8 cb
    _ ← mov_buffer_r24 cb
    entry_count ← mov_buffer_r32 cb
    if no_table old then stco_fields box_type entry_count else pure fault

  unfoldable pub write_offsets : Bool → ℕ → List MovSample → Call S (Unit {0})
  write_offsets co64 track_offset [] = pure tt
  write_offsets co64 track_offset (s ∷ samples) =
      let rest = write_offsets co64 track_offset samples in
      let offset = u64 (s.offset + track_offset) in
      if s.first_chunk == 0
      then rest
      else (if co64 then mov_buffer_w64 cb offset else mov_buffer_w32 cb (u32 offset)) >> rest

  unfoldable pub mov_write_stco : List MovSample → ℕ → ℕ → Call S ℕ
  mov_write_stco samples track_offset count =
      let co64 = needs_co64 samples track_offset in
      let size = u32 (12 + 4 + count * (if co64 then 8 else 4)) in
      mov_buffer_w32 cb size
      >> (mov_buffer_write cb (if co64 then tag_co64 else tag_stco)
          >> (mov_buffer_w32 cb 0
              >> (mov_buffer_w32 cb count
                  >> (write_offsets co64 track_offset samples >> pure size))))
