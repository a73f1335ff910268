-- ===== src/Mov/Words.antt =====
-- src/media-server/libmov/source/mov-ioutil.h: numbers, highest byte first, on well-behaved files.
use stream.Base.{
  ℕ, List, [], ◌∷◌, ◌++◌, ◌/◌, ◌%◌, ◌^◌, ◌<◌, ◌≡◌, refl, ◌==◌, bit_or, u8, u16, u32, ◌<<<◌, ◌>>>◌,
  length, length-append, true, arith,
}
use mathlib.Core.List.{append-nil}
use stream.Base.Bits.{or_low}
use stream.Mov.IoUtil.{
  mov_buffer_read, mov_buffer_write, mov_buffer_r8, mov_buffer_r16, mov_buffer_r24, mov_buffer_r32,
  mov_buffer_r64, mov_buffer_w8, mov_buffer_w16, mov_buffer_w24, mov_buffer_w32, mov_buffer_w64,
}
use stream.Mov.Files.{
  MovInput, MovOutput, Reads, Reads-bind, Reads-pure, Reads-cast, Writes-then, Writes-cast, Writes,
}

unfoldable pub be16 : ℕ → List ℕ
be16 v = (v / 256 % 256) ∷ (v % 256) ∷ []

unfoldable pub be24 : ℕ → List ℕ
be24 v = (v / 65536 % 256) ∷ be16 v

unfoldable pub be32 : ℕ → List ℕ
be32 v = be16 (v / 65536) ++ be16 v

unfoldable pub be64 : ℕ → List ℕ
be64 v = be32 (v / 2 ^ 32) ++ be32 v

pub zero_test : (n : ℕ) → n ≡ 0 → (n == 0) ≡ true
zero_test n h = ground arith

join16_of : (v : ℕ) → v < 2 ^ 16 → bit_or (u16 ((v / 256 % 256) <<< 8)) (v % 256) ≡ v
join16_of v h = ground (arith, or_low 8 ((v / 256 % 256) <<< 8) (v % 256))

join24_of : (v : ℕ) → v < 2 ^ 24 → bit_or ((v / 65536 % 256) <<< 16) (v % 65536) ≡ v
join24_of v h = ground (arith, or_low 16 ((v / 65536 % 256) <<< 16) (v % 65536))

join32_of : (v : ℕ) → v < 2 ^ 32 → bit_or (u32 ((v / 65536) <<< 16)) (v % 65536) ≡ v
join32_of v h = ground (arith, or_low 16 ((v / 65536) <<< 16) (v % 65536))

join64_of : (v : ℕ) → bit_or ((v / 2 ^ 32) <<< 32) (v % 2 ^ 32) ≡ v
join64_of v = ground (arith, or_low 32 ((v / 2 ^ 32) <<< 32) (v % 2 ^ 32))

be16_high : (v : ℕ) → be16 (u16 (v / 256)) ++ (v % 256 ∷ []) ≡ be24 v
unfolding be16 be24
be16_high v =
    let e : u16 (v / 256) / 256 % 256 ≡ v / 65536 % 256 = omega arith in
    let e1 : u16 (v / 256) % 256 ≡ v / 256 % 256 = omega arith in rw (e, e1)

pub be16_low : (v : ℕ) → be16 (v % 65536) ≡ be16 v
unfolding be16
be16_low v =
    let e : v % 65536 / 256 % 256 ≡ v / 256 % 256 = omega arith in
    let e2 : v % 65536 % 256 ≡ v % 256 = omega arith in rw (e, e2)

be32_low : (v : ℕ) → be32 (v % 2 ^ 32) ≡ be32 v
unfolding be32 be16
be32_low v =
    let e : v % 2 ^ 32 / 65536 / 256 % 256 ≡ v / 65536 / 256 % 256 = omega arith in
    let e1 : v % 2 ^ 32 / 65536 % 256 ≡ v / 65536 % 256 = omega arith in
    let e2 : v % 2 ^ 32 / 256 % 256 ≡ v / 256 % 256 = omega arith in
    let e3 : v % 2 ^ 32 % 256 ≡ v % 256 = omega arith in rw (e, e1, e2, e3)

module _ (I : MovInput) where
  pub Reads-read :
      (n : ℕ) (bytes : List ℕ) → length bytes ≡ n → Reads I (mov_buffer_read I.buffer n) bytes bytes
  unfolding mov_buffer_read
  Reads-read n bytes h = record {
    runs = λ io back e r. rw (zero_test io.error e) (
      I.delivers io.param n bytes back r h,
      I.returns_ok io.param n bytes back r h,
      I.advances io.param n bytes back r h,
    );
  }

  pub Reads-r8 : (b : ℕ) → Reads I (mov_buffer_r8 I.buffer) (b ∷ []) b
  unfolding mov_buffer_r8
  Reads-r8 b = Reads-bind I _ (Reads-read 1 (b ∷ []) refl) (Reads-pure I b)

  pub Reads-r16 : (v : ℕ) → v < 2 ^ 16 → Reads I (mov_buffer_r16 I.buffer) (be16 v) v
  unfolding mov_buffer_r16 be16
  Reads-r16 v h =
      Reads-cast I (be16 v) v
        (Reads-bind I _ (Reads-r8 (v / 256 % 256))
          (Reads-bind I _ (Reads-r8 (v % 256)) (Reads-pure I _)))
        refl (join16_of v h)

  pub Reads-r24 : (v : ℕ) → v < 2 ^ 24 → Reads I (mov_buffer_r24 I.buffer) (be24 v) v
  unfolding mov_buffer_r24 be24
  Reads-r24 v h =
      Reads-cast I (be24 v) v
        (Reads-bind I _ (Reads-r8 (v / 65536 % 256))
          (Reads-bind I _ (Reads-r16 (v % 65536) (omega arith)) (Reads-pure I _)))
        (rw (be16_low v, append-nil)) (join24_of v h)

  pub Reads-r32 : (v : ℕ) → v < 2 ^ 32 → Reads I (mov_buffer_r32 I.buffer) (be32 v) v
  unfolding mov_buffer_r32 be32
  Reads-r32 v h =
      Reads-cast I (be32 v) v
        (Reads-bind I _ (Reads-r16 (v / 65536) (omega arith))
          (Reads-bind I _ (Reads-r16 (v % 65536) (omega arith)) (Reads-pure I _)))
        (rw (be16_low v, append-nil)) (join32_of v h)

  pub Reads-r64 : (v : ℕ) → v < 2 ^ 64 → Reads I (mov_buffer_r64 I.buffer) (be64 v) v
  unfolding mov_buffer_r64 be64
  Reads-r64 v h =
      Reads-cast I (be64 v) v
        (Reads-bind I _ (Reads-r32 (v / 2 ^ 32) (omega arith))
          (Reads-bind I _ (Reads-r32 (v % 2 ^ 32) (omega arith)) (Reads-pure I _)))
        (rw (be32_low v, append-nil)) (join64_of v)

module _ (O : MovOutput) where
  pub Writes-write : (bytes : List ℕ) → Writes O (mov_buffer_write O.buffer bytes) bytes tt
  unfolding mov_buffer_write
  Writes-write bytes = record {
    runs = λ io h.
        let (e, p) = h in
        rw (zero_test io.error e) (
          refl,
          (
            O.takes_all io.param bytes,
            rw (O.appends io.param bytes p, length-append, O.moves io.param bytes, p),
          ),
          O.appends io.param bytes p,
        );
  }

  pub Writes-w8 : (v : ℕ) → Writes O (mov_buffer_w8 O.buffer v) (u8 v ∷ []) tt
  unfolding mov_buffer_w8
  Writes-w8 v = Writes-write (u8 v ∷ [])

  pub Writes-w16 : (v : ℕ) → Writes O (mov_buffer_w16 O.buffer v) (be16 v) tt
  unfolding mov_buffer_w16 be16
  Writes-w16 v = Writes-then O (Writes-w8 (v >>> 8)) (Writes-w8 v)

  pub Writes-w24 : (v : ℕ) → Writes O (mov_buffer_w24 O.buffer v) (be24 v) tt
  unfolding mov_buffer_w24 be24
  Writes-w24 v =
      Writes-cast O (be24 v) (Writes-then O (Writes-w16 (u16 (v >>> 8))) (Writes-w8 v))
        (rw (be16_high v))

  pub Writes-w32 : (v : ℕ) → Writes O (mov_buffer_w32 O.buffer v) (be32 v) tt
  unfolding mov_buffer_w32 be32
  Writes-w32 v =
      Writes-cast O (be32 v) (Writes-then O (Writes-w16 (u16 (v >>> 16))) (Writes-w16 (u16 v)))
        (rw (be16_low (v / 65536), be16_low v))

  pub Writes-w64 : (v : ℕ) → Writes O (mov_buffer_w64 O.buffer v) (be64 v) tt
  unfolding mov_buffer_w64 be64
  Writes-w64 v =
      Writes-cast O (be64 v) (Writes-then O (Writes-w32 (u32 (v >>> 32))) (Writes-w32 (u32 v)))
        (rw (be32_low (v / 2 ^ 32), be32_low v))
