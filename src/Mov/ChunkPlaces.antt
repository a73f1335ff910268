-- ===== src/Mov/ChunkPlaces.antt =====
-- src/media-server/libmov/source/mov-stco.c: the tables that are built of samples, applied.
use stream.Base.{
  ℕ, suc, List, [], ◌∷◌, ◌++◌, ◌+◌, ◌<◌, ◌≤◌, ◌^◌, ◌≡◌, refl, sym, ◌∙◌, ap, ◌==◌, u64, length, All,
  false, arith, some, none, done, lt→ltb,
}
use mathlib.Core.Path.{subst}
use stream.Mov.Samples.{MovSample}
use stream.Mov.ChunkTables.{mov_build_stco, apply_stco, mov_apply_stco}
use stream.Mov.ChunkBoxes.{skips}
use stream.Mov.ChunkBuild.{chunk_heads, spread, located, HasSizes}
use stream.Mov.ChunkLocated.{IsStored, located-chunk, total_one, place_one}
use stream.Mov.ChunkApply.{
  entry_of, stsc_entries, offsets, IsNumbered, total_samples, IsOrdered, begin_chunk,
}
use stream.Mov.ChunkSpread.{
  IsRest, IsRest-next, IsRest-offset, remaining, remaining-suc, next_entry, apply_stco-spread,
}
use stream.Mov.ChunkCount.{mov_build_stco-IsCounted, stsc_entries-heads}

located-build :
    (samples fresh : List MovSample)
    → All IsStored samples
    → HasSizes samples fresh
    → 0 < length samples
    → spread (chunk_heads (mov_build_stco samples).0) 0 0 0 fresh ≡ located samples fresh
unfolding mov_build_stco located
located-build [] fresh st z p = absurd (omega arith)
located-build (s ∷ rest) [] st z p = absurd z
located-build (s ∷ rest) (f ∷ fresh) ((so, sb), st) (z, zs) p =
    located-chunk (record s { first_chunk = 1; samples_per_chunk = 1 }) [] s.bytes rest 1 (f ∷ [])
      fresh (omega arith) tt refl (total_one f s z sb) so st zs
    ∙ ap (λ l. l ++ located rest fresh) (place_one s f)

located-IsOrdered :
    (end : ℕ) (samples fresh : List MovSample)
    → HasSizes samples fresh
    → IsOrdered end samples
    → IsOrdered end (located samples fresh)
unfolding located
located-IsOrdered end [] fresh z h = tt
located-IsOrdered end (s ∷ samples) [] z h = absurd z
located-IsOrdered end (s ∷ samples) (f ∷ fresh) (z, zs) (p, q, h) =
    (omega arith, q, rw z (located-IsOrdered (u64 (s.offset + s.bytes)) samples fresh zs h))

length-HasSizes :
    (samples fresh : List MovSample) → HasSizes samples fresh → length fresh ≡ length samples
length-HasSizes [] [] z = refl
length-HasSizes [] (f ∷ fresh) z = absurd z
length-HasSizes (s ∷ samples) [] z = absurd z
length-HasSizes (s ∷ samples) (f ∷ fresh) (z, zs) = ap suc (length-HasSizes samples fresh zs)

length-offsets : (heads : List MovSample) → length (offsets heads) ≡ length heads
unfolding offsets
length-offsets [] = refl
length-offsets (h ∷ heads) = ap suc (length-offsets heads)

positive_test : (n : ℕ) → 0 < n → (n == 0) ≡ false
positive_test n h = ground arith

first_entry :
    (h : MovSample) (heads : List MovSample)
    → 0 < h.first_chunk
    → stsc_entries none (h ∷ heads) ≡ entry_of h ∷ stsc_entries (some h) heads
unfolding stsc_entries skips
first_entry h heads p = rw (positive_test h.first_chunk p)

apply_stco-first :
    (stco : List ℕ) (h : MovSample) (heads fresh : List MovSample)
    → IsRest stco h (entry_of h) h.first_chunk (h ∷ heads)
    → length fresh ≡ total_samples (h ∷ heads)
    → IsOrdered 0 (spread (h ∷ heads) 0 0 0 fresh)
    → apply_stco stco 0 0 (entry_of h ∷ stsc_entries (some h) heads) (entry_of h) 0 0 0 fresh
      ≡ done (spread (h ∷ heads) 0 0 0 fresh)
unfolding spread total_samples
apply_stco-first stco h heads fresh r n o =
    let i = h.first_chunk in
    let e = entry_of h in
    let entries = stsc_entries (some h) heads in
    let inside : i ≤ length stco = let w = r.counted in omega arith in
    next_entry stco 0 e e entries 0 0 0 fresh _ refl inside (
      begin_chunk stco (remaining stco h i heads) (remaining stco h (i + 1) heads) entries e i 0 0
        h.offset fresh _ (remaining-suc stco h h e i h heads r) (IsRest-offset stco h e i h heads r)
        (apply_stco-spread stco heads h.samples_per_chunk h e (i + 1) h.offset 0 fresh
          (IsRest-next stco h h e e i h heads r refl refl) n o))

apply_heads :
    (heads fresh : List MovSample)
    → 0 < length heads
    → IsNumbered 1 heads
    → length heads + 1 < 2 ^ 32
    → length fresh ≡ total_samples heads
    → IsOrdered 0 (spread heads 0 0 0 fresh)
    → mov_apply_stco (offsets heads) (stsc_entries none heads) fresh
      ≡ done (spread heads 0 0 0 fresh)
unfolding mov_apply_stco
apply_heads [] fresh p m b n o = absurd (omega arith)
apply_heads (h ∷ heads) fresh p m b n o =
    let stco = offsets (h ∷ heads) in
    let l = length-offsets (h ∷ heads) in
    let r : IsRest stco h (entry_of h) 1 (h ∷ heads) = record {
      chunk_size = refl;
      description = refl;
      pre = [];
      number = refl;
      numbered = m;
      split = refl;
      counted = omega (arith, l);
      fits = omega (arith, l, b);
    } in
    let k = m.0 in
    rw (first_entry h heads (omega arith), lt→ltb 0 (length stco) (omega (arith, l)))
      (apply_stco-first stco h heads fresh
        (subst (λ i. IsRest stco h (entry_of h) i (h ∷ heads)) (sym m.0) r) n o)

-- For samples that are not empty and lie in the file one behind the other (gaps are allowed; at
-- least one sample and fewer than 2^32 - 1), the tables that mov_build_stco makes, the offsets of
-- its chunks and the sample-to-chunk entries of them, are taken by mov_apply_stco for an array of
-- samples with the same sizes: no assertion fails, and each sample gets the offset and the
-- sample description of its original and keeps the rest.
pub mov_apply_stco-build :
    (samples fresh : List MovSample)
    → 0 < length samples
    → length samples + 1 < 2 ^ 32
    → All IsStored samples
    → IsOrdered 0 samples
    → HasSizes samples fresh
    → mov_apply_stco
        (offsets (chunk_heads (mov_build_stco samples).0))
        (stsc_entries none (mov_build_stco samples).0)
        fresh
      ≡ done (located samples fresh)
mov_apply_stco-build [] fresh p b st o z = absurd (omega arith)
mov_apply_stco-build (s ∷ rest) fresh p b st o z =
    let built = mov_build_stco (s ∷ rest) in
    let heads = chunk_heads built.0 in
    let c = mov_build_stco-IsCounted s rest in
    let most = c.at_most in
    let all = c.covers in
    let place = located-build (s ∷ rest) fresh st z p in
    let ordered = subst (IsOrdered 0) (sym place) (located-IsOrdered 0 (s ∷ rest) fresh z o) in
    ap (λ l. mov_apply_stco (offsets heads) l fresh) (stsc_entries-heads none built.0)
    ∙ apply_heads heads fresh c.some_chunk c.numbered (omega arith)
        (omega (arith, length-HasSizes (s ∷ rest) fresh z)) ordered
    ∙ ap done place
