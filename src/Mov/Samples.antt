-- ===== src/Mov/Samples.antt =====
-- src/media-server/libmov/source/mov-internal.h: the samples of a track and its sample table.
use stream.Base.{ℕ}

-- struct mov_sample_t, less the pointer to the payload. Times are not negative.
pub record MovSample : Type 0 where
  pub flags : ℕ
  pub pts : ℕ
  pub dts : ℕ
  pub offset : ℕ
  pub bytes : ℕ
  pub sample_description_index : ℕ
  pub samples_per_chunk : ℕ
  pub first_chunk : ℕ

-- struct mov_stts_t, an entry of the time tables.
pub record MovStts : Type 0 where
  pub sample_count : ℕ
  pub sample_delta : ℕ

-- struct mov_stsc_t, an entry of the sample-to-chunk table.
pub record MovStsc : Type 0 where
  pub first_chunk : ℕ
  pub samples_per_chunk : ℕ
  pub sample_description_index : ℕ

abbrev pub empty_sample : MovSample
empty_sample = record {
  flags = 0;
  pts = 0;
  dts = 0;
  offset = 0;
  bytes = 0;
  sample_description_index = 0;
  samples_per_chunk = 0;
  first_chunk = 0;
}
