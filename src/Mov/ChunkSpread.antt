-- ===== src/Mov/ChunkSpread.antt =====
-- src/media-server/libmov/source/mov-stco.c: `mov_apply_stco` places the samples chunk after chunk.
use stream.Base.{
  ℕ, zero, suc, List, [], ◌∷◌, ◌++◌, ◌+◌, ◌-◌, ◌<◌, ◌≤◌, ◌^◌, ◌≡◌, refl, sym, ◌∙◌, ap, u64,
  Bool-cases, inl, inr, length, length-append, true, false, arith, some, done, lt→ltb, le→leb,
}
use mathlib.Core.List.{append_assoc}
use mathlib.Core.Path.{subst}
use stream.Mov.Samples.{MovSample, MovStsc}
use stream.Mov.ChunkTables.{chunk_offset_at, next_chunk, apply_stco}
use stream.Mov.ChunkBuild.{spread}
use stream.Mov.ChunkApply.{
  entry_of, stsc_entries, offsets, IsNumbered, total_samples, IsOrdered, chunk_offset_at-append,
  same, same-fields, skips-head, next_chunk-bound, begin_chunk,
}

-- Where the chunks of `heads` are the last ones, and `e` is an entry for chunks like `c`.
pub record IsRest (stco : List ℕ) (c : MovSample) (e : MovStsc) (j : ℕ) (heads : List MovSample)
    : Type 0 where
  pub chunk_size : e.samples_per_chunk ≡ c.samples_per_chunk
  pub description : e.sample_description_index ≡ c.sample_description_index
  pub pre : List ℕ
  pub number : j ≡ suc (length pre)
  pub numbered : IsNumbered j heads
  pub split : stco ≡ pre ++ offsets heads
  pub counted : length stco + 1 ≡ j + length heads
  pub fits : length stco + 1 < 2 ^ 32

pub IsRest-next :
    (stco : List ℕ) (c d : MovSample) (e e' : MovStsc) (j : ℕ) (h : MovSample)
    (heads : List MovSample)
    → IsRest stco c e j (h ∷ heads)
    → e'.samples_per_chunk ≡ d.samples_per_chunk
    → e'.sample_description_index ≡ d.sample_description_index
    → IsRest stco d e' (j + 1) heads
unfolding offsets
IsRest-next stco c d e e' j h heads r p q = record {
  chunk_size = p;
  description = q;
  pre = r.pre ++ (h.offset ∷ []);
  number = let n = r.number in omega (arith, length-append r.pre (h.offset ∷ []));
  numbered = r.numbered.1;
  split = r.split ∙ sym (append_assoc r.pre (h.offset ∷ []) (offsets heads));
  counted = let n = r.counted in omega arith;
  fits = r.fits;
}

pub IsRest-offset :
    (stco : List ℕ) (c : MovSample) (e : MovStsc) (j : ℕ) (h : MovSample) (heads : List MovSample)
    → IsRest stco c e j (h ∷ heads)
    → chunk_offset_at j stco ≡ done h.offset
unfolding offsets
IsRest-offset stco c e j h heads r =
    ap (λ i. chunk_offset_at i stco) r.number
    ∙ ap (chunk_offset_at (suc (length r.pre))) r.split
    ∙ chunk_offset_at-append r.pre h.offset (offsets heads)

module _ (stco : List ℕ) where
  abbrev pub remaining : MovSample → ℕ → List MovSample → ℕ
  remaining c j heads = next_chunk (stsc_entries (some c) heads) (length stco) - j

  pub remaining-suc :
      (c d : MovSample) (e : MovStsc) (j : ℕ) (h : MovSample) (heads : List MovSample)
      → IsRest stco c e j (h ∷ heads)
      → remaining d j heads ≡ suc (remaining d (j + 1) heads)
  remaining-suc c d e j h heads r =
      let n = r.counted in
      omega (
        arith,
        next_chunk-bound d (j + 1) (length stco) heads (omega arith) r.numbered.1 (omega arith)
            r.fits,
      )

  place_next :
      (k r : ℕ) (entries : List MovStsc) (e : MovStsc) (j offset end description : ℕ)
      (f : MovSample) (fresh placed : List MovSample)
      → 0 < f.bytes
      → end ≤ offset
      → e.sample_description_index ≡ description
      → apply_stco stco k r entries e j (u64 (offset + f.bytes)) (u64 (offset + f.bytes)) fresh
        ≡ done placed
      → apply_stco stco (suc k) r entries e j offset end (f ∷ fresh)
        ≡ done (record f { sample_description_index = description; offset = offset } ∷ placed)
  unfolding apply_stco
  place_next k r entries e j offset end description f fresh placed p q d h =
      rw (lt→ltb 0 f.bytes p, le→leb end offset q, h, sym d)

  end_of_samples :
      (n : ℕ) (e : MovStsc) (j offset end : ℕ)
      → n ≡ 0
      → apply_stco stco 0 n [] e j offset end [] ≡ done []
  unfolding apply_stco
  end_of_samples n e j offset end p = rw p

  pub next_entry :
      (n : ℕ) (e' e : MovStsc) (entries : List MovStsc) (j offset end : ℕ)
      (fresh placed : List MovSample)
      → n ≡ 0
      → e'.first_chunk ≤ length stco
      → apply_stco stco 0
          (next_chunk entries (length stco) - e'.first_chunk)
          entries
          e'
          e'.first_chunk
          offset
          end
          fresh
        ≡ done placed
      → apply_stco stco 0 n (e' ∷ entries) e j offset end fresh ≡ done placed
  unfolding apply_stco
  next_entry n e' e entries j offset end fresh placed p q h =
      rw (p, le→leb e'.first_chunk (length stco) q) h

  entries-same :
      (c h : MovSample) (heads : List MovSample)
      → 0 < h.first_chunk
      → same c h ≡ true
      → stsc_entries (some c) (h ∷ heads) ≡ stsc_entries (some c) heads
  unfolding stsc_entries
  entries-same c h heads p t = rw (skips-head c h true p t)

  entries-other :
      (c h : MovSample) (heads : List MovSample)
      → 0 < h.first_chunk
      → same c h ≡ false
      → stsc_entries (some c) (h ∷ heads) ≡ entry_of h ∷ stsc_entries (some h) heads
  unfolding stsc_entries
  entries-other c h heads p t = rw (skips-head c h false p t)

  none_remaining :
      (c : MovSample) (e : MovStsc) (j : ℕ) → IsRest stco c e j [] → remaining c j [] ≡ 0
  unfolding next_chunk stsc_entries
  none_remaining c e j r = let n = r.counted in let b = r.fits in omega arith

  entry_ends :
      (c h : MovSample) (entries : List MovStsc) (j : ℕ)
      → h.first_chunk ≡ j
      → next_chunk (entry_of h ∷ entries) (length stco) - j ≡ 0
  unfolding next_chunk
  entry_ends c h entries j e = omega arith

  no_entries : (c : MovSample) → stsc_entries (some c) [] ≡ []
  unfolding stsc_entries
  no_entries c = refl

  pub apply_stco-spread :
      (heads : List MovSample) (k : ℕ) (c : MovSample) (e : MovStsc) (j offset end : ℕ)
      (fresh : List MovSample)
      → IsRest stco c e j heads
      → length fresh ≡ k + total_samples heads
      → IsOrdered end (spread heads k offset c.sample_description_index fresh)
      → apply_stco stco k (remaining c j heads) (stsc_entries (some c) heads) e j offset end fresh
        ≡ done (spread heads k offset c.sample_description_index fresh)
  unfolding spread total_samples
  apply_stco-spread heads (suc k) c e j offset end [] r n o = absurd (omega arith)
  apply_stco-spread heads (suc k) c e j offset end (f ∷ fresh) r n (p, q, o) =
      place_next k (remaining c j heads) (stsc_entries (some c) heads) e j offset end
        c.sample_description_index f fresh _ p q r.description
        (apply_stco-spread heads k c e j (u64 (offset + f.bytes)) (u64 (offset + f.bytes)) fresh r
          (omega arith) o)
  apply_stco-spread [] zero c e j offset end [] r n o =
      rw (none_remaining c e j r, no_entries c) (end_of_samples 0 e j offset end refl)
  apply_stco-spread [] zero c e j offset end (f ∷ fresh) r n o = absurd (omega arith)
  apply_stco-spread (h ∷ heads) zero c e j offset end fresh r n o =
      let positive : 0 < h.first_chunk = let i = r.number in let m = r.numbered.0 in omega arith in
      elim (Bool-cases (same c h)) [
        | inl t ↦
            let (p, q) = same-fields c h t in
            let rest =
              apply_stco-spread heads h.samples_per_chunk c e (j + 1) h.offset end fresh
                (IsRest-next stco c c e e j h heads r r.chunk_size r.description) (omega arith)
                (subst (λ d. IsOrdered end (spread heads h.samples_per_chunk h.offset d fresh))
                  (sym q) o) in
            rw (entries-same c h heads positive t) (
              begin_chunk stco (remaining c j heads) (remaining c (j + 1) heads)
                (stsc_entries (some c) heads) e j offset end h.offset fresh _
                (remaining-suc c c e j h heads r) (IsRest-offset stco c e j h heads r)
                (ap
                    (λ k.
                      apply_stco stco k (remaining c (j + 1) heads) (stsc_entries (some c) heads) e
                        (j + 1) h.offset end fresh)
                    (r.chunk_size ∙ p)
                  ∙ rest
                  ∙ ap (λ d. done (spread heads h.samples_per_chunk h.offset d fresh)) q))
        | inr t ↦
            let i = h.first_chunk in
            let r' = subst (λ x. IsRest stco c e x (h ∷ heads)) (sym r.numbered.0) r in
            let inside : i ≤ length stco = let w = r'.counted in omega arith in
            rw (entries-other c h heads positive t) (
              next_entry _ (entry_of h) e (stsc_entries (some h) heads) j offset end fresh _
                (entry_ends c h (stsc_entries (some h) heads) j r.numbered.0) inside
                (begin_chunk stco (remaining h i heads) (remaining h (i + 1) heads)
                  (stsc_entries (some h) heads) (entry_of h) i offset end h.offset fresh _
                  (remaining-suc c h e i h heads r') (IsRest-offset stco c e i h heads r')
                  (apply_stco-spread heads h.samples_per_chunk h (entry_of h) (i + 1) h.offset end
                    fresh (IsRest-next stco c h e (entry_of h) i h heads r' refl refl) (omega arith)
                    o)))
      ]
