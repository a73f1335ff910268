-- ===== src/Mov/ChunkLocated.antt =====
-- src/media-server/libmov/source/mov-stco.c: `mov_build_stco`, and the numbers of its chunks.
use stream.Base.{
  ℕ, List, [], ◌∷◌, ◌++◌, ◌+◌, ◌<◌, ◌^◌, ◌≡◌, refl, sym, ◌∙◌, ap, ◌==◌, ◌&&◌, u64, Bool-cases, inl,
  inr, length, length-append, All, true, false, Bool, arith,
}
use mathlib.Core.List.{append_assoc}
use stream.Mov.Samples.{MovSample}
use stream.Mov.ChunkTables.{chunk, follows}
use stream.Mov.ChunkBuild.{
  chunk_heads, place_from, spread, located, total_bytes, HasSizes, IsMarked, chunk_heads-head,
  chunk_heads-last, All-snoc, place_from-snoc, total_bytes-snoc, spread-chunk, spread-between,
}

-- The fields of the structure are of type uint64_t and uint32_t.
abbrev pub IsStored : MovSample → Type 0
IsStored s = (s.offset < 2 ^ 64) × (s.bytes < 2 ^ 32)

equal : (m n : ℕ) → (m == n) ≡ true → m ≡ n
equal m n h = ground arith

both : (a b : Bool) → (a && b) ≡ true → (a ≡ true) × (b ≡ true)
both true b h = (refl, h)
both false b h = (h, absurd (ground (arith, h)))

follows-place :
    (head : MovSample) (bytes : ℕ) (s : MovSample)
    → follows head bytes s ≡ true
    → (u64 (head.offset + bytes) ≡ s.offset)
      × (head.sample_description_index ≡ s.sample_description_index)
follows-place head bytes s h =
    let (p, q) =
      both (u64 (head.offset + bytes) == s.offset)
        (head.sample_description_index == s.sample_description_index) h in
    (
      equal (u64 (head.offset + bytes)) s.offset p,
      equal head.sample_description_index s.sample_description_index q,
    )

spread-head :
    (head : MovSample) (heads front fresh : List MovSample)
    → length front ≡ head.samples_per_chunk
    → spread (head ∷ heads) 0 0 0 (front ++ fresh)
      ≡ place_from head.offset head.sample_description_index front ++ spread heads 0 0 0 fresh
unfolding spread
spread-head head heads front fresh h =
    let (after, e) =
      spread-chunk heads head.offset head.sample_description_index head.samples_per_chunk front
        fresh h in
    e
    ∙ ap (λ l. place_from head.offset head.sample_description_index front ++ l)
        (spread-between heads after head.sample_description_index 0 0 fresh)

spread_none : spread [] 0 0 0 [] ≡ []
unfolding spread
spread_none = refl

pub total_one :
    (f s : MovSample) → f.bytes ≡ s.bytes → s.bytes < 2 ^ 32 → s.bytes ≡ total_bytes (f ∷ [])
unfolding total_bytes
total_one f s e h = omega arith

pub place_one :
    (s f : MovSample)
    → place_from s.offset s.sample_description_index (f ∷ [])
      ≡ record f { sample_description_index = s.sample_description_index; offset = s.offset } ∷ []
unfolding place_from
place_one s f = refl

pub located-chunk :
    (head : MovSample) (behind : List MovSample) (bytes : ℕ) (rest : List MovSample) (count : ℕ)
    (front fresh : List MovSample)
    → 0 < head.first_chunk
    → All IsMarked behind
    → length front ≡ head.samples_per_chunk
    → bytes ≡ total_bytes front
    → head.offset < 2 ^ 64
    → All IsStored rest
    → HasSizes rest fresh
    → spread (chunk_heads (chunk head behind bytes rest count).0) 0 0 0 (front ++ fresh)
      ≡ place_from head.offset head.sample_description_index front ++ located rest fresh
unfolding chunk located
located-chunk head behind bytes [] count front [] p m n b o st z =
    rw (chunk_heads-last head behind p m) (
      spread-head head [] front [] n
      ∙ ap (λ l. place_from head.offset head.sample_description_index front ++ l) spread_none)
located-chunk head behind bytes [] count front (f ∷ fresh) p m n b o st z = absurd z
located-chunk head behind bytes (s ∷ rest) count front [] p m n b o st z = absurd z
located-chunk head behind bytes (s ∷ rest) count front (f ∷ fresh) p m n b o ((so, sb), st)
      (z, zs) =
    elim (Bool-cases (follows head bytes s)) [
      | inl e ↦
          let (place, description) = follows-place head bytes s e in
          let after : u64 (head.offset + total_bytes front) ≡ s.offset = rw (sym b) place in
          rw (e, sym (append_assoc front (f ∷ []) fresh))
            (located-chunk (record head { samples_per_chunk = head.samples_per_chunk + 1 })
                (behind ++ (record s { first_chunk = 0 } ∷ [])) (u64 (bytes + s.bytes)) rest count
                (front ++ (f ∷ [])) fresh p (All-snoc behind (record s { first_chunk = 0 }) m refl)
                (length-append front (f ∷ []) ∙ omega (arith, n))
                (omega (arith, total_bytes-snoc front f, b, z)) o st zs
              ∙ ap (λ l. l ++ located rest fresh)
                  (place_from-snoc head.offset head.sample_description_index front f o)
              ∙ append_assoc (place_from head.offset head.sample_description_index front) _
                  (located rest fresh)
              ∙ rw (after, description) refl)
      | inr e ↦
          let next = record s { first_chunk = count + 1; samples_per_chunk = 1 } in
          let later = chunk next [] s.bytes rest (count + 1) in
          rw (e, chunk_heads-head head behind later.0 p m)
            (spread-head head (chunk_heads later.0) front (f ∷ fresh) n
              ∙ ap (λ l. place_from head.offset head.sample_description_index front ++ l)
                  (located-chunk next [] s.bytes rest (count + 1) (f ∷ []) fresh (omega arith) tt
                      refl (total_one f s z sb) so st zs
                    ∙ ap (λ l. l ++ located rest fresh) (place_one s f)))
    ]
