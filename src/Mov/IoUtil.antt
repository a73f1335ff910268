-- ===== src/Mov/IoUtil.antt =====
-- src/media-server/libmov/source/mov-ioutil.h over the callbacks of include/mov-buffer.h. A
-- callback returns 0, or the number n for the error -n, behind the new state of `param`.
use stream.Base.{ℕ, List, [], ◌∷◌, ◌==◌, bit_or, u8, u16, u32, ◌<<<◌, ◌>>>◌, if◌then◌else◌}

-- struct mov_buffer_t. `read` also returns what it stored into the buffer.
pub record MovBuffer (S : Type 0) : Type 0 where
  pub read : S → ℕ → S × ℕ × List ℕ
  pub write : S → List ℕ → S × ℕ
  pub seek : S → ℕ → S × ℕ
  pub tell : S → ℕ

-- struct mov_ioutil_t, less the callbacks.
pub record MovIo (S : Type 0) : Type 0 where
  pub param : S
  pub error : ℕ

-- A call that reads or writes.
abbrev pub Call {ℓ} : Type 0 → Type ℓ → Type ℓ
Call S A = MovIo S → A × MovIo S

infixl 5 ◌>>=◌ ◌>>◌
unfoldable pub ◌>>=◌ {ℓ κ} :
    {S : Type 0} {A : Type ℓ} {B : Type κ} → Call S A → (A → Call S B) → Call S B
(m >>= f) io = let (a, io') = m io in f a io'

unfoldable pub ◌>>◌ {ℓ} : {S : Type 0} {B : Type ℓ} → Call S (Unit {0}) → Call S B → Call S B
m >> k = m >>= λ _. k

unfoldable pub pure {ℓ} : {S : Type 0} {A : Type ℓ} → A → Call S A
pure a io = (a, io)

-- The first byte of a buffer that was 0 before.
abbrev pub first_or_zero : List ℕ → ℕ
first_or_zero [] = 0
first_or_zero (b ∷ bytes) = b

module _ {S : Type 0} (cb : MovBuffer S) where
  unfoldable pub mov_buffer_error : Call S ℕ
  mov_buffer_error io = (io.error, io)

  unfoldable pub mov_buffer_tell : Call S ℕ
  mov_buffer_tell io = (cb.tell io.param, io)

  unfoldable pub mov_buffer_seek : ℕ → Call S (Unit {0})
  mov_buffer_seek offset io =
      let (s, e) = cb.seek io.param offset in (tt, record { param = s; error = e })

  -- The bytes that are stored, none after an error.
  unfoldable pub mov_buffer_read : ℕ → Call S (List ℕ)
  mov_buffer_read bytes io =
      if io.error == 0
      then (let (s, e, stored) = cb.read io.param bytes in
          (stored, record { param = s; error = e }))
      else ([], io)

  unfoldable pub mov_buffer_write : List ℕ → Call S (Unit {0})
  mov_buffer_write bytes io =
      if io.error == 0
      then (let (s, e) = cb.write io.param bytes in (tt, record { param = s; error = e }))
      else (tt, io)

  unfoldable pub mov_buffer_r8 : Call S ℕ
  mov_buffer_r8 = do bytes ← mov_buffer_read 1; pure (first_or_zero bytes)

  unfoldable pub mov_buffer_r16 : Call S ℕ
  mov_buffer_r16 = do a ← mov_buffer_r8; b ← mov_buffer_r8; pure (bit_or (u16 (a <<< 8)) b)

  unfoldable pub mov_buffer_r24 : Call S ℕ
  mov_buffer_r24 = do a ← mov_buffer_r8; b ← mov_buffer_r16; pure (bit_or (a <<< 16) b)

  unfoldable pub mov_buffer_r32 : Call S ℕ
  mov_buffer_r32 = do a ← mov_buffer_r16; b ← mov_buffer_r16; pure (bit_or (u32 (a <<< 16)) b)

  unfoldable pub mov_buffer_r64 : Call S ℕ
  mov_buffer_r64 = do a ← mov_buffer_r32; b ← mov_buffer_r32; pure (bit_or (a <<< 32) b)

  unfoldable pub mov_buffer_w8 : ℕ → Call S (Unit {0})
  mov_buffer_w8 v = mov_buffer_write (u8 v ∷ [])

  unfoldable pub mov_buffer_w16 : ℕ → Call S (Unit {0})
  mov_buffer_w16 v = mov_buffer_w8 (v >>> 8) >> mov_buffer_w8 v

  unfoldable pub mov_buffer_w24 : ℕ → Call S (Unit {0})
  mov_buffer_w24 v = mov_buffer_w16 (u16 (v >>> 8)) >> mov_buffer_w8 v

  unfoldable pub mov_buffer_w32 : ℕ → Call S (Unit {0})
  mov_buffer_w32 v = mov_buffer_w16 (u16 (v >>> 16)) >> mov_buffer_w16 (u16 v)

  unfoldable pub mov_buffer_w64 : ℕ → Call S (Unit {0})
  mov_buffer_w64 v = mov_buffer_w32 (u32 (v >>> 32)) >> mov_buffer_w32 (u32 v)
