-- ===== src/Mov/SizeTables.antt =====
-- src/media-server/libmov/source/mov-stsz.c and mov-stss.c: the sizes of the samples and the list
-- of the key frames. The readers start behind size and type of the box; an allocation does not
-- fail.
use stream.Base.{
  ℕ, zero, suc, List, [], ◌∷◌, ◌++◌, ◌+◌, ◌*◌, ◌-◌, ◌==◌, ◌&&◌, bit_and, bit_or, u32, ltb, leb,
  if◌then◌else◌, length, Bool, true, false, Outcome, done, fault,
}
use stream.Mov.IoUtil.{
  MovBuffer, Call, ◌>>=◌, ◌>>◌, pure, mov_buffer_error, mov_buffer_tell, mov_buffer_seek,
  mov_buffer_write, mov_buffer_r8, mov_buffer_r24, mov_buffer_r32, mov_buffer_w32,
}
use stream.Mov.Samples.{MovSample, empty_sample}

abbrev pub mov_av_flag_keyframe : ℕ
mov_av_flag_keyframe = 0x0001

abbrev pub sized : ℕ → MovSample
sized n = record empty_sample { bytes = n }

-- The index from which on `mov_write_stsz` finds a size other than the one before.
unfoldable pub first_change : ℕ → MovSample → List MovSample → ℕ
first_change i prev [] = i
first_change i prev (s ∷ samples) =
    let later = first_change (i + 1) s samples in if s.bytes == prev.bytes then later else i

unfoldable pub change_index : List MovSample → ℕ
change_index [] = 1
change_index (s ∷ samples) = first_change 1 s samples

abbrev pub first_size : List MovSample → ℕ
first_size [] = 0
first_size (s ∷ samples) = s.bytes

-- `samples[j - 1].flags |= MOV_AV_FLAG_KEYFREAME`, from an index that is in range.
unfoldable pub mark_key : ℕ → List MovSample → List MovSample
mark_key i [] = []
mark_key zero (s ∷ samples) = record s { flags = bit_or s.flags mov_av_flag_keyframe } ∷ samples
mark_key (suc i) (s ∷ samples) = s ∷ mark_key i samples

unfoldable pub mov_apply_stss : List ℕ → List MovSample → List MovSample
mov_apply_stss [] samples = samples
mov_apply_stss (j ∷ stss) samples =
    mov_apply_stss stss
      (if ltb 0 j && leb j (length samples) then mark_key (j - 1) samples else samples)

unfoldable pub same_sizes : ℕ → ℕ → List MovSample
same_sizes zero bytes = []
same_sizes (suc n) bytes = sized bytes ∷ same_sizes n bytes

-- The array for the samples that are read: one entry more than there are samples, and none where
-- nothing is allocated.
unfoldable pub allocated : List MovSample → List MovSample
allocated [] = []
allocated (s ∷ samples) = s ∷ (samples ++ (empty_sample ∷ []))

-- Whether there is no table yet.
unfoldable pub no_table : {A : Type 0} → List A → Bool
no_table [] = true
no_table (x ∷ xs) = false

-- The array can be used: `NULL == track->samples` holds of what is there, and the number of entries,
-- `sample_count + 1` in 32 bits, did not wrap around to 0.
unfoldable pub can_allocate : List MovSample → ℕ → Bool
can_allocate old sample_count = no_table old && ltb 0 (u32 (sample_count + 1))

module _ {S : Type 0} (cb : MovBuffer S) where
  unfoldable pub read_sizes : ℕ → Call S (List MovSample)
  read_sizes zero = pure []
  read_sizes (suc n) = do
    bytes ← mov_buffer_r32 cb
    samples ← read_sizes n
    pure (sized bytes ∷ samples)

  -- What is read into the new array, and what is returned.
  unfoldable pub stsz_fields : ℕ → ℕ → Call S (Outcome (List MovSample × ℕ))
  stsz_fields sample_size sample_count = do
    samples ←
        if sample_size == 0
        then read_sizes sample_count
        else pure (same_sizes sample_count sample_size)
    error ← mov_buffer_error cb
    pure (done (allocated samples, error))

  -- `old` is `track->samples`. A fault where the assertion on it fails, or where the samples would
  -- be stored behind an array of no entries.
  unfoldable pub mov_read_stsz : List MovSample → Call S (Outcome (List MovSample × ℕ))
  mov_read_stsz old = do
    _ ← mov_buffer_r8 cb
    _ ← mov_buffer_r24 cb
    sample_size ← mov_buffer_r32 cb
    sample_count ← mov_buffer_r32 cb
    if can_allocate old sample_count then stsz_fields sample_size sample_count else pure fault

  unfoldable pub write_sizes : List MovSample → Call S (Unit {0})
  write_sizes [] = pure tt
  write_sizes (s ∷ samples) = mov_buffer_w32 cb s.bytes >> write_sizes samples

  -- Returns the size.
  unfoldable pub mov_write_stsz : List MovSample → Call S ℕ
  mov_write_stsz samples =
      let differ = ltb (change_index samples) (length samples) in
      let size = u32 (12 + 8 + (if differ then 4 * length samples else 0)) in
      mov_buffer_w32 cb size
      >> (mov_buffer_write cb (0x73 ∷ 0x74 ∷ 0x73 ∷ 0x7A ∷ [])
          >> (mov_buffer_w32 cb 0
              >> ((if differ
                    then mov_buffer_w32 cb 0
                      >> (mov_buffer_w32 cb (length samples) >> write_sizes samples)
                    else mov_buffer_w32 cb (first_size samples)
                      >> mov_buffer_w32 cb (length samples))
                  >> pure size)))

  -- The loop over the entries of a list of numbers.
  unfoldable pub read_numbers : ℕ → Call S (List ℕ)
  read_numbers zero = pure []
  read_numbers (suc n) = do x ← mov_buffer_r32 cb; numbers ← read_numbers n; pure (x ∷ numbers)

  unfoldable pub stss_fields : ℕ → Call S (Outcome (List ℕ × ℕ))
  stss_fields entry_count = do
    stss ← read_numbers entry_count
    error ← mov_buffer_error cb
    pure (done (stss, error))

  -- `old` is `stbl->stss`, on which there is an assertion.
  unfoldable pub mov_read_stss : List ℕ → Call S (Outcome (List ℕ × ℕ))
  mov_read_stss old = do
    _ ← mov_buffer_r8 cb
    _ ← mov_buffer_r24 cb
    entry_count ← mov_buffer_r32 cb
    if no_table old then stss_fields entry_count else pure fault

  -- The loop of `mov_write_stss` from the sample `i` on, where `j` key frames are written.
  unfoldable pub write_keys : ℕ → ℕ → List MovSample → Call S ℕ
  write_keys i j [] = pure j
  write_keys i j (s ∷ samples) =
      let key = bit_and s.flags mov_av_flag_keyframe in
      let rest = write_keys (i + 1) (if key == 0 then j else j + 1) samples in
      if key == 0 then rest else mov_buffer_w32 cb (u32 (i + 1)) >> rest

  -- The end of a writer that leaves out the size of a box and the number of its entries at first.
  unfoldable pub fill_in : ℕ → ℕ → ℕ → ℕ → Call S (Unit {0})
  fill_in offset size count offset2 =
      mov_buffer_seek cb offset
      >> (mov_buffer_w32 cb size
          >> (mov_buffer_seek cb (offset + 12)
              >> (mov_buffer_w32 cb count >> mov_buffer_seek cb offset2)))

  unfoldable pub mov_write_stss : List MovSample → Call S ℕ
  mov_write_stss samples = do
    offset ← mov_buffer_tell cb
    j ←
        mov_buffer_w32 cb 0
        >> (mov_buffer_write cb (0x73 ∷ 0x74 ∷ 0x73 ∷ 0x73 ∷ [])
            >> (mov_buffer_w32 cb 0 >> (mov_buffer_w32 cb 0 >> write_keys 0 0 samples)))
    offset2 ← mov_buffer_tell cb
    fill_in offset (u32 (12 + 4 + j * 4)) j offset2 >> pure (u32 (12 + 4 + j * 4))
