-- ===== src/Mov/Tests.antt =====
-- Runs of the functions for sample tables on concrete inputs, and the theorems there.
use stream.Base.{ℕ, List, [], ◌∷◌, ◌≡◌, refl, sym, arith, length, drop, done, ◌>>=◌}
use mathlib.Core.List.{append-nil}
use stream.Mov.IoUtil.{MovIo}
use stream.Mov.ChunkTables.{mov_build_stco, mov_apply_stco}
use stream.Mov.ChunkBuild.{chunk_heads, located}
use stream.Mov.ChunkApply.{IsNumbered, total_samples}
use stream.Mov.ChunkCount.{mov_build_stco-keeps}
use stream.Mov.ChunkBoxes.{
  last_offset, mov_read_stsc, mov_write_stsc, mov_read_stco, mov_write_stco,
}
use stream.Mov.ChunkMap.{mov_apply_stco-read}
use stream.Mov.OffsetFile.{chunk_offsets, read_box, IsLast, mov_read_stco-write}
use stream.Base.{inl, ◌++◌}
use stream.Mov.Words.{be16, be24, be32}
use stream.Mov.CompactSizes.{packed, pack_halves, sized_each, mov_read_stz2, mov_read_stz2-packed}
use stream.Mov.Memory.{memory_input, memory_output}
use stream.Mov.Samples.{MovSample, empty_sample}
use stream.Mov.TimeTables.{mov_build_stts, mov_apply_stts, mov_build_ctts, mov_apply_ctts}
use stream.Mov.TimeBoxes.{mov_read_stts, mov_write_stts}
use stream.Mov.TimeRuns.{entries_of, erase_all}
use stream.Mov.TimeApply.{later_times, place, mov_apply_stts-build}
use stream.Mov.OffsetApply.{add_offsets, mov_apply_ctts-build}
use stream.Mov.TimeFile.{mov_read_stts-write}
use stream.Mov.SizeTables.{
  allocated, mov_read_stsz, mov_write_stsz, mov_read_stss, mov_write_stss, mov_apply_stss,
}
use stream.Mov.SizeFile.{sized_all, mov_read_stsz-write}
use stream.Mov.KeyFile.{mark_keys, mov_apply_stss-read}

-- Three frames: a key frame and two others, 40 ticks apart and then 50.
abbrev frame : ℕ → ℕ → ℕ → ℕ → MovSample
frame dts pts bytes flags = record empty_sample {
  dts = dts;
  pts = pts;
  bytes = bytes;
  flags = flags;
}

abbrev frames : List MovSample
frames = frame 100 180 900 1 ∷ frame 140 180 20 0 ∷ frame 190 190 30 0 ∷ []

abbrev blanks : List MovSample
blanks = empty_sample ∷ empty_sample ∷ empty_sample ∷ []

-- An empty file, and what is in a file from its ninth byte on.
abbrev empty_file : MovIo memory_output.State
empty_file = record { param = ([], 0); error = 0 }

abbrev behind_header : MovIo memory_output.State → MovIo memory_input.State
behind_header out = record { param = drop 8 (memory_output.contents out.param); error = 0 }

abbrev whole_file : MovIo memory_output.State → MovIo memory_input.State
whole_file out = record { param = memory_output.contents out.param; error = 0 }

mov_apply_stts-build_example :
    (mov_build_stts frames >>= λ built. mov_apply_stts (entries_of built.0) (empty_sample ∷ blanks))
    ≡ done (empty_sample ∷ place (later_times 0 100 frames) blanks)
mov_apply_stts-build_example =
    mov_apply_stts-build (frame 100 180 900 1) empty_sample
      (frame 140 180 20 0 ∷ frame 190 190 30 0 ∷ []) blanks
      (omega arith, omega arith, (omega arith, omega arith, tt))
      (omega arith, (omega arith, (omega arith, tt))) (omega arith) refl

mov_apply_ctts-build_example :
    mov_apply_ctts (entries_of (mov_build_ctts frames 0).0) blanks
    ≡ done (add_offsets frames blanks)
mov_apply_ctts-build_example =
    mov_apply_ctts-build frames blanks 0
      ((omega arith, omega arith), ((omega arith, omega arith), ((omega arith, omega arith), tt)))
      (omega arith, (omega arith, (omega arith, tt))) refl

-- Two entries of a time table: two samples of 40 ticks and one of 1.
abbrev table : List MovSample
table =
    record empty_sample { first_chunk = 2; samples_per_chunk = 40 }
    ∷ empty_sample
    ∷ record empty_sample { first_chunk = 1; samples_per_chunk = 1 }
    ∷ []

two_entries : 2 ≡ length (entries_of table)
unfolding entries_of
two_entries = refl

mov_read_stts-write_example :
    (mov_read_stts memory_input.buffer []
      (behind_header (mov_write_stts memory_output.buffer table 2 empty_file).1)).0
    ≡ done (entries_of table, 0)
mov_read_stts-write_example =
    mov_read_stts-write memory_output memory_input table 2 empty_file
      (behind_header (mov_write_stts memory_output.buffer table 2 empty_file).1) []
      ((omega arith, omega arith), ((omega arith, omega arith), ((omega arith, omega arith), tt)))
      two_entries (omega arith) (refl, refl) refl (sym (append-nil _))

mov_read_stsz-write_example :
    (mov_read_stsz memory_input.buffer []
      (behind_header (mov_write_stsz memory_output.buffer frames empty_file).1)).0
    ≡ done (allocated (sized_all frames), 0)
mov_read_stsz-write_example =
    mov_read_stsz-write memory_output memory_input frames empty_file
      (behind_header (mov_write_stsz memory_output.buffer frames empty_file).1) []
      ((omega arith, omega arith), ((omega arith, omega arith), ((omega arith, omega arith), tt)))
      (omega arith) (refl, refl) refl (sym (append-nil _))

abbrev keys_file : MovIo memory_input.State
keys_file = behind_header (mov_write_stss memory_output.buffer frames empty_file).1

mov_apply_stss-read_example :
    (((mov_read_stss memory_input.buffer [] keys_file).0 >>= λ stss. done stss.1) ≡ done 0)
    × (((mov_read_stss memory_input.buffer [] keys_file).0 >>= λ stss.
          done (mov_apply_stss stss.0 blanks))
        ≡ done (mark_keys frames blanks))
mov_apply_stss-read_example =
    mov_apply_stss-read memory_output memory_input frames blanks empty_file keys_file []
      (omega arith) refl (refl, refl) refl (sym (append-nil _))

-- The second frame follows the first one in the file, the third is a chunk of its own.
abbrev stored : List MovSample
stored =
    record (frame 100 180 900 1) { offset = 40; sample_description_index = 1 }
    ∷ record (frame 140 180 20 0) { offset = 940; sample_description_index = 1 }
    ∷ record (frame 190 190 30 0) { offset = 1000; sample_description_index = 1 }
    ∷ []

abbrev sizes : List MovSample
sizes = frame 0 0 900 0 ∷ frame 0 0 20 0 ∷ frame 0 0 30 0 ∷ []

mov_build_stco-keeps_example :
    (erase_all (mov_build_stco stored).0 ≡ erase_all stored)
    × IsNumbered 1 (chunk_heads (mov_build_stco stored).0)
    × ((mov_build_stco stored).1 ≡ length (chunk_heads (mov_build_stco stored).0))
    × (total_samples (chunk_heads (mov_build_stco stored).0) ≡ length stored)
mov_build_stco-keeps_example = mov_build_stco-keeps stored

-- The samples above with their chunks: one of two samples, one of one.
abbrev chunked : List MovSample
chunked =
    record (frame 100 180 900 1) {
      offset = 40;
      sample_description_index = 1;
      first_chunk = 1;
      samples_per_chunk = 2;
    }
    ∷ record (frame 140 180 20 0) { offset = 940; sample_description_index = 1 }
    ∷ record (frame 190 190 30 0) {
      offset = 1000;
      sample_description_index = 1;
      first_chunk = 2;
      samples_per_chunk = 1;
    }
    ∷ []

two_chunks : 2 ≡ length (chunk_offsets 5000000000 chunked)
unfolding chunk_offsets
two_chunks = refl

chunked-IsLast : IsLast (last_offset chunked 5000000000) 5000000000 chunked
unfolding last_offset
chunked-IsLast = (omega arith, (omega arith, (omega arith, tt)))

mov_read_stco-write_example :
    (read_box memory_input.buffer
      (mov_read_stco memory_input.buffer [])
      (whole_file (mov_write_stco memory_output.buffer chunked 5000000000 2 empty_file).1)).0
    ≡ done (chunk_offsets 5000000000 chunked, 0)
mov_read_stco-write_example =
    mov_read_stco-write memory_output memory_input chunked 5000000000 2 empty_file
      (whole_file (mov_write_stco memory_output.buffer chunked 5000000000 2 empty_file).1) []
      chunked-IsLast two_chunks (omega arith) (refl, refl) refl (sym (append-nil _))

-- Three sizes of 4 bits each.
abbrev compact_box : MovIo memory_input.State
compact_box = record {
  param = 0 ∷ 0 ∷ 0 ∷ 0 ∷ 0 ∷ 0 ∷ 0 ∷ 4 ∷ 0 ∷ 0 ∷ 0 ∷ 3 ∷ 0x7F ∷ 0x10 ∷ [];
  error = 0;
}

compact_fields :
    memory_input.remaining compact_box.param
    ≡ (be32 0 ++ (be24 0 ++ (4 ∷ (be32 3 ++ packed 4 (7 ∷ 15 ∷ 1 ∷ []))))) ++ []
unfolding be32 be24 be16 pack_halves
compact_fields = refl

mov_read_stz2-packed_example :
    ((mov_read_stz2 memory_input.buffer [] compact_box).0
      ≡ done (allocated (sized_each (7 ∷ 15 ∷ 1 ∷ [])), 0))
    × (memory_input.remaining (mov_read_stz2 memory_input.buffer [] compact_box).1.param ≡ [])
mov_read_stz2-packed_example =
    mov_read_stz2-packed memory_input 4 (7 ∷ 15 ∷ 1 ∷ []) compact_box [] (inl refl)
      (omega arith, (omega arith, (omega arith, tt))) (omega arith) refl compact_fields

stored-IsLast : IsLast (last_offset stored 0) 0 stored
unfolding last_offset
stored-IsLast = (omega arith, (omega arith, (omega arith, tt)))

abbrev stsc_file : MovIo memory_input.State
stsc_file =
    behind_header (mov_write_stsc memory_output.buffer (mov_build_stco stored).0 empty_file).1

abbrev stco_file : MovIo memory_input.State
stco_file =
    whole_file
      (mov_write_stco memory_output.buffer (mov_build_stco stored).0 0
        (length (chunk_offsets 0 (mov_build_stco stored).0)) empty_file).1

mov_apply_stco-read_example :
    ((read_box memory_input.buffer (mov_read_stco memory_input.buffer []) stco_file).0 >>= λ stco.
    (mov_read_stsc memory_input.buffer [] stsc_file).0 >>= λ stsc.
    mov_apply_stco stco.0 stsc.0 sizes)
    ≡ done (located stored sizes)
mov_apply_stco-read_example =
    mov_apply_stco-read memory_output memory_input stored sizes empty_file empty_file stsc_file
      stco_file [] [] (omega arith) (omega arith)
      ((omega arith, omega arith), ((omega arith, omega arith), ((omega arith, omega arith), tt)))
      (
        (omega arith, omega arith, omega arith),
        ((omega arith, omega arith, omega arith), ((omega arith, omega arith, omega arith), tt)),
      )
      (omega arith, omega arith, (omega arith, omega arith, (omega arith, omega arith, tt)))
      stored-IsLast (refl, (refl, (refl, tt))) (refl, refl) (refl, refl) refl refl
      (sym (append-nil _)) (sym (append-nil _))
