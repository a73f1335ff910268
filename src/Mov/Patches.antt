-- ===== src/Mov/Patches.antt =====
-- src/media-server/libmov: writing over what stands in a file, as the writers of boxes do that
-- learn their size at the end: a box with a size and a number of entries that are stored twice.
use stream.Base.{
  ℕ, List, [], ◌∷◌, ◌++◌, ◌+◌, ◌≡◌, refl, sym, ◌∙◌, ap, length, take, drop, take-drop, length-take,
  length-drop, length-append, arith,
}
use mathlib.Core.Path.{subst}
use mathlib.Core.List.{append_assoc}
use stream.Mov.IoUtil.{
  MovIo, Call, ◌>>=◌, ◌>>◌, pure, mov_buffer_tell, mov_buffer_seek, mov_buffer_write, mov_buffer_w8,
  mov_buffer_w16, mov_buffer_w32,
}
use stream.Mov.SizeTables.{fill_in}
use stream.Mov.Files.{MovOutput, Writes}
use stream.Mov.Words.{be16, be32, be16_low, zero_test}
use stream.Base.{u8, u16, ◌>>>◌, ◌/◌}

length-be32 : (v : ℕ) → length (be32 v) ≡ 4
unfolding be32 be16
length-be32 v = refl

length-frame :
    (before tag rest : List ℕ) (a b : ℕ)
    → length (before ++ (be32 a ++ (tag ++ (be32 b ++ rest))))
      ≡ length before + (4 + (length tag + (4 + length rest)))
length-frame before tag rest a b = omega (
  arith,
  length-append before (be32 a ++ (tag ++ (be32 b ++ rest))),
  length-append (be32 a) (tag ++ (be32 b ++ rest)),
  length-append tag (be32 b ++ rest),
  length-append (be32 b) rest,
  length-be32 a,
  length-be32 b,
)

module _ (O : MovOutput) where
  -- In front of at least as many bytes, the call replaces those by `bytes`.
  pub record Overwrites (m : Call O.State (Unit {0})) (bytes : List ℕ) : Type 0 where
    pub runs :
        (io : MovIo O.State) (front old back : List ℕ)
        → io.error ≡ 0
        → O.contents io.param ≡ front ++ (old ++ back)
        → O.position io.param ≡ length front
        → length old ≡ length bytes
        → ((m io).1.error ≡ 0)
          × (O.contents (m io).1.param ≡ front ++ (bytes ++ back))
          × (O.position (m io).1.param ≡ length front + length bytes)

  Overwrites-write : (bytes : List ℕ) → Overwrites (mov_buffer_write O.buffer bytes) bytes
  unfolding mov_buffer_write
  Overwrites-write bytes = record {
    runs = λ io front old back e c p n. rw (zero_test io.error e) (
      O.takes_all io.param bytes,
      O.overwrites io.param front old back bytes c p n,
      O.moves io.param bytes ∙ ap (λ k. k + length bytes) p,
    );
  }

  Overwrites-then :
      {m k : Call O.State (Unit {0})} {a b : List ℕ}
      → Overwrites m a
      → Overwrites k b
      → Overwrites (m >> k) (a ++ b)
  unfolding ◌>>=◌ ◌>>◌
  Overwrites-then {m = m} {a = a} {b = b} x y = record {
    runs = λ io front old back e c p n.
        let n' : length a + length b ≡ length (a ++ b) = sym (length-append a b) in
        let old₁ = take (length a) old in
        let old₂ = drop (length a) old in
        let split : front ++ (old ++ back) ≡ front ++ (old₁ ++ (old₂ ++ back)) =
          ap (λ l. front ++ (l ++ back)) (sym (take-drop (length a) old))
          ∙ ap (λ l. front ++ l) (append_assoc old₁ old₂ back) in
        let (e₁, c₁, p₁) =
          x.runs io front old₁ (old₂ ++ back) e (c ∙ split) p
            (length-take (length a) old (omega (arith, n, n'))) in
        let (e₂, c₂, p₂) =
          y.runs (m io).1 (front ++ a) old₂ back e₁ (c₁ ∙ sym (append_assoc front a (old₂ ++ back)))
            (p₁ ∙ sym (length-append front a))
            (length-drop (length a) old ∙ omega (arith, n, n')) in
        (
          e₂,
          c₂
              ∙ append_assoc front a (b ++ back)
              ∙ ap (λ l. front ++ l) (sym (append_assoc a b back)),
          p₂ ∙ omega (arith, length-append front a, n'),
        );
  }

  Overwrites-cast :
      {m : Call O.State (Unit {0})} {a : List ℕ} (b : List ℕ)
      → Overwrites m a
      → a ≡ b
      → Overwrites m b
  Overwrites-cast {m = m} b x e = subst (λ l. Overwrites m l) e x

  Overwrites-w16 : (v : ℕ) → Overwrites (mov_buffer_w16 O.buffer v) (be16 v)
  unfolding mov_buffer_w16 mov_buffer_w8 be16
  Overwrites-w16 v =
      Overwrites-then (Overwrites-write (u8 (v >>> 8) ∷ [])) (Overwrites-write (u8 v ∷ []))

  pub Overwrites-w32 : (v : ℕ) → Overwrites (mov_buffer_w32 O.buffer v) (be32 v)
  unfolding mov_buffer_w32 be32
  Overwrites-w32 v =
      Overwrites-cast (be32 v)
        (Overwrites-then (Overwrites-w16 (u16 (v >>> 16))) (Overwrites-w16 (u16 v)))
        (rw (be16_low (v / 65536), be16_low v))

  seek-runs :
      (io : MovIo O.State) (offset : ℕ)
      → ((mov_buffer_seek O.buffer offset io).1.error ≡ 0)
        × (O.contents (mov_buffer_seek O.buffer offset io).1.param ≡ O.contents io.param)
        × (O.position (mov_buffer_seek O.buffer offset io).1.param ≡ offset)
  unfolding mov_buffer_seek
  seek-runs io offset = (O.seeks io.param offset, O.keeps io.param offset, O.sought io.param offset)

  fill_in-runs :
      (io : MovIo O.State) (size count offset2 : ℕ) (before tag rest : List ℕ)
      → O.contents io.param ≡ before ++ (be32 0 ++ (tag ++ (be32 0 ++ rest)))
      → length tag ≡ 8
      → ((fill_in O.buffer (length before) size count offset2 io).1.error ≡ 0)
        × (O.contents (fill_in O.buffer (length before) size count offset2 io).1.param
            ≡ before ++ (be32 size ++ (tag ++ (be32 count ++ rest))))
        × (O.position (fill_in O.buffer (length before) size count offset2 io).1.param ≡ offset2)
  unfolding fill_in ◌>>=◌ ◌>>◌
  fill_in-runs io size count offset2 before tag rest c t =
      let io₁ = (mov_buffer_seek O.buffer (length before) io).1 in
      let (e₁, c₁, p₁) = seek-runs io (length before) in
      let io₂ = (mov_buffer_w32 O.buffer size io₁).1 in
      let (e₂, c₂, p₂) =
        (Overwrites-w32 size).runs io₁ before (be32 0) (tag ++ (be32 0 ++ rest)) e₁ (c₁ ∙ c) p₁
          (length-be32 0 ∙ sym (length-be32 size)) in
      let io₃ = (mov_buffer_seek O.buffer (length before + 12) io₂).1 in
      let (e₃, c₃, p₃) = seek-runs io₂ (length before + 12) in
      let front = before ++ (be32 size ++ tag) in
      let move : before ++ (be32 size ++ (tag ++ (be32 0 ++ rest))) ≡ front ++ (be32 0 ++ rest) =
        rw (append_assoc before, append_assoc (be32 size)) in
      let back : before ++ (be32 size ++ (tag ++ (be32 count ++ rest)))
          ≡ front ++ (be32 count ++ rest) =
        rw (append_assoc before, append_assoc (be32 size)) in
      let (e₄, c₄, p₄) =
        (Overwrites-w32 count).runs io₃ front (be32 0) rest e₃ (c₃ ∙ c₂ ∙ move)
          (p₃
            ∙ omega (
              arith,
              length-append before (be32 size ++ tag),
              length-append (be32 size) tag,
              length-be32 size,
              t,
            ))
          (length-be32 0 ∙ sym (length-be32 count)) in
      let (e₅, c₅, p₅) = seek-runs (mov_buffer_w32 O.buffer count io₃).1 offset2 in
      (e₅, c₅ ∙ c₄ ∙ sym back, p₅)

  -- A writer of that form, whose `first` part adds the box with both numbers left out.
  pub Writes-counted :
      (first : Call O.State ℕ) (tag entries : List ℕ) (count : ℕ) (size : ℕ → ℕ)
      → Writes O first (be32 0 ++ (tag ++ (be32 0 ++ entries))) count
      → length tag ≡ 8
      → Writes O
          (mov_buffer_tell O.buffer >>= λ offset. first >>= λ n.
            mov_buffer_tell O.buffer >>= λ offset2.
            fill_in O.buffer offset (size n) n offset2 >> pure (size n))
          (be32 (size count) ++ (tag ++ (be32 count ++ entries)))
          (size count)
  unfolding ◌>>=◌ ◌>>◌ pure mov_buffer_tell
  Writes-counted first tag entries count size w t = record {
    runs = λ io h.
        let before = O.contents io.param in
        let (v, atend, c) = w.runs io h in
        let io₁ = (first io).1 in
        let start : O.buffer.tell io.param ≡ length before = O.tells io.param ∙ h.1 in
        let end : O.buffer.tell io₁.param
            ≡ length (before ++ (be32 0 ++ (tag ++ (be32 0 ++ entries)))) =
          O.tells io₁.param ∙ atend.1 ∙ ap length c in
        let (e₂, c₂, p₂) =
          fill_in-runs io₁ (size count) count (O.buffer.tell io₁.param) before tag entries c t in
        rw (start, v)
          (
            refl,
            (
              e₂,
              p₂
                  ∙ end
                  ∙ length-frame before tag entries 0 0
                  ∙ sym (length-frame before tag entries (size count) count)
                  ∙ ap length (sym c₂),
            ),
            c₂,
          );
  }
