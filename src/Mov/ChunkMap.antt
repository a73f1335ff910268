-- ===== src/Mov/ChunkMap.antt =====
-- src/media-server/libmov/source/mov-stco.c and mov-stsc.c: the places of samples, written into a
-- file and read back.
use stream.Base.{
  ℕ, suc, List, [], ◌∷◌, ◌++◌, ◌+◌, ◌^◌, ◌<◌, ◌≤◌, ◌≡◌, refl, sym, ◌∙◌, ap, ◌==◌, length, drop, All,
  u64, arith, done, ◌>>=◌, Bool-cases, inl, inr,
}
use mathlib.Core.Path.{subst}
use stream.Mov.IoUtil.{MovIo}
use stream.Mov.Files.{MovInput, MovOutput, IsAtEnd}
use stream.Mov.Samples.{MovSample}
use stream.Mov.TimeRuns.{erase_all}
use stream.Mov.ChunkTables.{chunk, follows, mov_build_stco, mov_apply_stco}
use stream.Mov.ChunkBoxes.{
  last_offset, mov_read_stsc, mov_write_stsc, mov_read_stco, mov_write_stco,
}
use stream.Mov.ChunkBuild.{chunk_heads, located, HasSizes}
use stream.Mov.ChunkLocated.{IsStored}
use stream.Mov.ChunkApply.{offsets, IsOrdered}
use stream.Mov.ChunkCount.{mov_build_stco-keeps}
use stream.Mov.ChunkPlaces.{mov_apply_stco-build}
use stream.Mov.ChunkFile.{FitsChunk, mov_read_stsc-write}
use stream.Mov.OffsetFile.{chunk_offsets, read_box, IsLast, mov_read_stco-write}

module _ (P : MovSample → Type 0)
    (f : (s : MovSample) → P s → P (record s { samples_per_chunk = 0; first_chunk = 0 }))
    (g : (s : MovSample) → P (record s { samples_per_chunk = 0; first_chunk = 0 }) → P s) where
  All-erase : (xs : List MovSample) → All P xs → All P (erase_all xs)
  unfolding erase_all
  All-erase [] h = tt
  All-erase (x ∷ xs) (h, hs) = (f x h, All-erase xs hs)

  All-unerase : (xs : List MovSample) → All P (erase_all xs) → All P xs
  unfolding erase_all
  All-unerase [] h = tt
  All-unerase (x ∷ xs) (h, hs) = (g x h, All-unerase xs hs)

  -- What holds of all samples still holds after the chunks are built.
  All-built : (samples : List MovSample) → All P samples → All P (mov_build_stco samples).0
  All-built samples h =
      All-unerase (mov_build_stco samples).0
        (subst (λ l. All P l) (sym (mov_build_stco-keeps samples).0) (All-erase samples h))

last_offset-erase_all :
    (xs : List MovSample) (t : ℕ) → last_offset (erase_all xs) t ≡ last_offset xs t
unfolding last_offset erase_all
last_offset-erase_all [] t = refl
last_offset-erase_all (x ∷ []) t = refl
last_offset-erase_all (x ∷ y ∷ xs) t = last_offset-erase_all (y ∷ xs) t

last_offset-build :
    (samples : List MovSample) (t : ℕ)
    → last_offset (mov_build_stco samples).0 t ≡ last_offset samples t
last_offset-build samples t =
    sym (last_offset-erase_all (mov_build_stco samples).0 t)
    ∙ ap (λ l. last_offset l t) (mov_build_stco-keeps samples).0
    ∙ last_offset-erase_all samples t

IsLast-build :
    (samples : List MovSample)
    → IsLast (last_offset samples 0) 0 samples
    → IsLast (last_offset (mov_build_stco samples).0 0) 0 (mov_build_stco samples).0
IsLast-build samples h =
    subst (λ n. IsLast n 0 (mov_build_stco samples).0) (sym (last_offset-build samples 0))
      (All-built (λ s. u64 (s.offset + 0) ≤ last_offset samples 0) (λ s h. h) (λ s h. h) samples h)

chunk_offsets-heads :
    (xs : List MovSample)
    → All (λ s. s.offset < 2 ^ 64) xs
    → chunk_offsets 0 xs ≡ offsets (chunk_heads xs)
unfolding chunk_offsets offsets chunk_heads
chunk_offsets-heads [] h = refl
chunk_offsets-heads (x ∷ xs) (h, hs) =
    let e : u64 (x.offset + 0) ≡ x.offset = omega arith in
    elim (Bool-cases (x.first_chunk == 0)) [
      | inl t ↦ rw t (chunk_offsets-heads xs hs)
      | inr t ↦ rw (t, e) (ap (λ l. x.offset ∷ l) (chunk_offsets-heads xs hs))
    ]

All-append :
    (xs ys : List MovSample) → All FitsChunk xs → All FitsChunk ys → All FitsChunk (xs ++ ys)
All-append [] ys h k = k
All-append (x ∷ xs) ys (h, hs) k = (h, All-append xs ys hs k)

chunk-FitsChunk :
    (head : MovSample) (behind : List MovSample) (bytes : ℕ) (rest : List MovSample) (count : ℕ)
    → FitsChunk head
    → head.samples_per_chunk + length rest < 2 ^ 32
    → count + length rest < 2 ^ 32
    → All FitsChunk behind
    → All FitsChunk rest
    → All FitsChunk (chunk head behind bytes rest count).0
unfolding chunk
chunk-FitsChunk head behind bytes [] count h p q b r = (h, b)
chunk-FitsChunk head behind bytes (s ∷ rest) count (h1, h2, h3) p q b ((r1, r2, r3), rs) =
    elim (Bool-cases (follows head bytes s)) [
      | inl t ↦ rw t (
          chunk-FitsChunk (record head { samples_per_chunk = head.samples_per_chunk + 1 })
            (behind ++ (record s { first_chunk = 0 } ∷ [])) (u64 (bytes + s.bytes)) rest count
            (h1, omega arith, h3) (omega arith) (omega arith)
            (All-append behind (record s { first_chunk = 0 } ∷ []) b ((omega arith, r2, r3), tt))
            rs)
      | inr t ↦
          let next = record s { first_chunk = count + 1; samples_per_chunk = 1 } in
          rw t (
            (h1, h2, h3),
            All-append behind (chunk next [] s.bytes rest (count + 1)).0 b (
                chunk-FitsChunk next [] s.bytes rest (count + 1) (omega arith, omega arith, r3)
                  (omega arith) (omega arith) tt rs),
          )
    ]

build-FitsChunk :
    (samples : List MovSample)
    → length samples + 1 < 2 ^ 32
    → All FitsChunk samples
    → All FitsChunk (mov_build_stco samples).0
unfolding mov_build_stco
build-FitsChunk [] n h = tt
build-FitsChunk (s ∷ rest) n ((h1, h2, h3), hs) =
    chunk-FitsChunk (record s { first_chunk = 1; samples_per_chunk = 1 }) [] s.bytes rest 1
      (omega arith, omega arith, h3) (omega arith) (omega arith) tt hs

length-erase_all : (xs : List MovSample) → length (erase_all xs) ≡ length xs
unfolding erase_all
length-erase_all [] = refl
length-erase_all (x ∷ xs) = ap suc (length-erase_all xs)

length-build : (samples : List MovSample) → length (mov_build_stco samples).0 ≡ length samples
length-build samples =
    sym (length-erase_all (mov_build_stco samples).0)
    ∙ ap length (mov_build_stco-keeps samples).0
    ∙ length-erase_all samples

length-chunk_offsets : (t : ℕ) (xs : List MovSample) → length (chunk_offsets t xs) ≤ length xs
unfolding chunk_offsets
length-chunk_offsets t [] = omega arith
length-chunk_offsets t (x ∷ xs) = ground (arith, length-chunk_offsets t xs)

offset-IsStored : (xs : List MovSample) → All IsStored xs → All (λ s. s.offset < 2 ^ 64) xs
offset-IsStored [] h = tt
offset-IsStored (x ∷ xs) ((h, k), hs) = (h, offset-IsStored xs hs)

-- Samples that are not empty and lie in a file one behind the other (at least one, fewer than
-- 2^32 - 1, with no start added to the offsets of the track, and none behind the last one) get
-- chunks by mov_build_stco; the sample-to-chunk table and the chunk offsets are written at the
-- end of files by mov_write_stsc and mov_write_stco and read back by mov_read_stsc, from behind
-- size and type of the box, and by mov_read_stco, which gets the type that stands in the file. What is read, applied by mov_apply_stco to an array
-- of samples with the same sizes, gives each sample the offset and the sample description of its
-- original, and no assertion fails.
pub mov_apply_stco-read :
    (O : MovOutput) (I : MovInput) (samples fresh : List MovSample) (out out' : MovIo O.State)
    (inp inp' : MovIo I.State) (back back' : List ℕ)
    → 0 < length samples
    → length samples + 1 < 2 ^ 32
    → All IsStored samples
    → All FitsChunk samples
    → IsOrdered 0 samples
    → IsLast (last_offset samples 0) 0 samples
    → HasSizes samples fresh
    → IsAtEnd O out
    → IsAtEnd O out'
    → inp.error ≡ 0
    → inp'.error ≡ 0
    → I.remaining inp.param
      ≡ drop
          (length (O.contents out.param) + 8)
          (O.contents (mov_write_stsc O.buffer (mov_build_stco samples).0 out).1.param)
        ++ back
    → I.remaining inp'.param
      ≡ drop (length (O.contents out'.param)) (
          O.contents
            (mov_write_stco O.buffer
              (mov_build_stco samples).0
              0
              (length (chunk_offsets 0 (mov_build_stco samples).0))
              out').1.param)
        ++ back'
    → ((read_box I.buffer (mov_read_stco I.buffer []) inp').0 >>= λ stco.
        (mov_read_stsc I.buffer [] inp).0 >>= λ stsc. mov_apply_stco stco.0 stsc.0 fresh)
      ≡ done (located samples fresh)
mov_apply_stco-read O I samples fresh out out' inp inp' back back' p n st f o l z e e' x x' h h' =
    let built = (mov_build_stco samples).0 in
    let size = length-build samples in
    let stsc =
      mov_read_stsc-write O I built out inp back (build-FitsChunk samples n f) (omega arith) e x
        h in
    let stco =
      mov_read_stco-write O I built 0 (length (chunk_offsets 0 built)) out' inp' back'
        (IsLast-build samples l) refl (omega (arith, length-chunk_offsets 0 built)) e' x' h' in
    let places = chunk_offsets-heads built (
      All-built (λ s. s.offset < 2 ^ 64) (λ s h. h) (λ s h. h) samples
        (offset-IsStored samples st)) in
    rw (stco, stsc, places) (mov_apply_stco-build samples fresh p n st o z)
