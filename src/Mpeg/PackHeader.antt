-- ===== src/Mpeg/PackHeader.antt =====
-- src/media-server/libmpeg/source/mpeg-pack-header.c: the header of a pack of a program stream.
use stream.Base.{
  ℕ, List, [], ◌∷◌, ◌++◌, ◌+◌, ◌==◌, ◌&&◌, bit_and, bit_or, u8, ◌<<<◌, ◌>>>◌, ltb, if◌then◌else◌,
  Outcome, done, ◌>>=◌, ◌>>◌, assert,
}
use stream.Base.Buffer.{load, store}

-- The clock is not negative.
pub record PsPackHeader : Type 0 where
  pub mpeg2 : ℕ
  pub system_clock_reference_base : ℕ
  pub system_clock_reference_extension : ℕ
  pub program_mux_rate : ℕ

-- The 33 bits of an MPEG-1 clock.
unfoldable pub mpeg1_clock : ℕ → ℕ → ℕ → ℕ → ℕ → ℕ
mpeg1_clock b4 b5 b6 b7 b8 =
    bit_or (bit_or (bit_or (bit_or (b4 >>> 1 <<< 30) (b5 <<< 22)) (b6 >>> 1 <<< 15)) (b7 <<< 7))
      (b8 >>> 1)

-- Returns the length, 0 where the buffer is too short.
unfoldable pub pack_header_read : PsPackHeader → List ℕ → ℕ → Outcome (ℕ × PsPackHeader)
pack_header_read h buf bytes = if ltb bytes 14 then done (0, h) else (do
  b0 ← load buf 0
  b1 ← load buf 1
  b2 ← load buf 2
  b3 ← load buf 3
  assert (0x00 == b0 && 0x00 == b1 && 0x01 == b2 && 0xBA == b3)
  b4 ← load buf 4
  if 0 == bit_and 0xC0 b4
      then (do
        assert (0x20 == bit_and 0xF0 b4)
        b5 ← load buf 5
        b6 ← load buf 6
        b7 ← load buf 7
        b8 ← load buf 8
        b9 ← load buf 9
        b10 ← load buf 10
        b11 ← load buf 11
        done (
          12,
          record h {
            mpeg2 = 0;
            system_clock_reference_base = mpeg1_clock b4 b5 b6 b7 b8;
            system_clock_reference_extension = 1;
            program_mux_rate = bit_or (bit_or (b9 >>> 1 <<< 15) (b10 <<< 7)) (b11 >>> 1);
          },
        ))
      else (do b13 ← load buf 13; done (14 + bit_and b13 0x07, record h { mpeg2 = 1 })))

-- The bytes behind the start code.
unfoldable pub clock_bytes : ℕ → ℕ → List ℕ
clock_bytes base ext =
    bit_or (bit_or 0x44 (bit_and (base >>> 30) 0x07 <<< 3)) (bit_and (base >>> 28) 0x03)
    ∷ bit_and (base >>> 20) 0xFF
    ∷ bit_or (bit_or 0x04 (bit_and (base >>> 15) 0x1F <<< 3)) (bit_and (base >>> 13) 0x03)
    ∷ bit_and (base >>> 5) 0xFF
    ∷ bit_or (bit_or 0x04 (bit_and base 0x1F <<< 3)) (bit_and (ext >>> 7) 0x03)
    ∷ bit_or 0x01 (bit_and ext 0x7F <<< 1)
    ∷ []

unfoldable pub pack_bytes : PsPackHeader → List ℕ
pack_bytes h =
    (0x00 ∷ 0x00 ∷ 0x01 ∷ 0xBA ∷ [])
    ++ (clock_bytes h.system_clock_reference_base h.system_clock_reference_extension
        ++ (u8 (h.program_mux_rate >>> 14)
            ∷ u8 (h.program_mux_rate >>> 6)
            ∷ u8 (bit_or 0x03 (bit_and h.program_mux_rate 0x3F <<< 2))
            ∷ 0xF8
            ∷ []))

-- Returns the length with the buffer.
unfoldable pub pack_header_write : PsPackHeader → List ℕ → Outcome (ℕ × List ℕ)
pack_header_write h buf = do out ← store 0 (pack_bytes h) buf; done (14, out)
