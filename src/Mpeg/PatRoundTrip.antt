-- ===== src/Mpeg/PatRoundTrip.antt =====
-- src/media-server/libmpeg/source/mpeg-pat.c: pat_read of what pat_write wrote.
use stream.Base.{
  ℕ, zero, suc, List, [], ◌∷◌, ◌++◌, ◌+◌, ◌-◌, ◌*◌, ◌/◌, ◌%◌, ◌^◌, ◌≤◌, ◌<◌, ◌≡◌, refl, sym, ◌==◌,
  bit_and, bit_or, u8, u16, u32, ◌<<<◌, ◌>>>◌, if◌then◌else◌, false, length, take, drop,
  length-append, le→leb, All, arith, done, ◌>>=◌,
}
use mathlib.Core.List.{append_assoc}
use stream.Base.Bits.{mask_low, or_low, bit_or-halve}
use stream.Base.Bytes.{byte_mask, join16}
use stream.Base.Buffer.{load-behind}
use stream.Mpeg.Pes.{differs}
use stream.Mpeg.Crc32.{mpeg_crc32, crc_bytes}
use stream.Mpeg.PatSection.{
  entry_bytes, program_bytes, table_bytes, length-table_bytes, pat_write-bytes, total,
}
use stream.Mpeg.Pat.{Pmt, Pat, pat_fetch, read_programs, pat_read, nbo_w16, pat_write}

-- What an entry of the table can carry; program 0 is the network's.
pub record IsProgram (p : Pmt) : Type 0 where
  pub pn_used : 1 ≤ p.pn
  pub pn_bits : p.pn < 2 ^ 16
  pub pid_bits : p.pid < 2 ^ 13

nbo_w16-join :
    (v : ℕ)
    → v < 2 ^ 16
    → bit_or (u8 (bit_and (u16 v >>> 8) 0xFF) <<< 8) (u8 (bit_and (u16 v) 0xFF)) ≡ v
nbo_w16-join v h = ground (arith, byte_mask (v >>> 8), byte_mask v, join16 (v / 256) (v % 256))

-- Five bits of the upper byte.
nbo_w16-pid :
    (v : ℕ)
    → v < 2 ^ 13
    → bit_or
        (bit_and (u8 (bit_and (u16 (bit_or 0xE000 v) >>> 8) 0xFF)) 0x1F <<< 8)
        (u8 (bit_and (u16 (bit_or 0xE000 v)) 0xFF))
      ≡ v
nbo_w16-pid v h =
    rw
      (
        or_low 13 0xE000 v refl h,
        byte_mask (u16 (0xE000 + v) >>> 8),
        byte_mask (u16 (0xE000 + v)),
        mask_low 5 (u8 ((u16 (0xE000 + v) >>> 8) % 256)),
        join16 (u8 ((u16 (0xE000 + v) >>> 8) % 256) % 32) (u8 (u16 (0xE000 + v) % 256))
            (omega arith),
      )
      (omega arith)

-- The entries that a reader has after the programs `ps`, from the entries it had before.
unfoldable pub update_programs : List Pmt → List Pmt → List Pmt
update_programs pmts [] = pmts
update_programs pmts (p ∷ ps) = update_programs (pat_fetch p.pid p.pn pmts) ps

test_zero : (n : ℕ) → 1 ≤ n → (n == 0) ≡ false
test_zero n h = ground arith

shift_end : (i n : ℕ) → i + suc n * 4 ≡ i + 4 + n * 4
shift_end i n = omega arith

read_programs-bytes :
    (ps : List Pmt) (fuel i : ℕ) (front rest : List ℕ) (pmts : List Pmt)
    → i ≡ length front
    → length ps < fuel
    → All IsProgram ps
    → read_programs fuel (front ++ (program_bytes ps ++ rest)) (i + length ps * 4) i pmts
      ≡ done (update_programs pmts ps)
unfolding read_programs program_bytes entry_bytes update_programs nbo_w16
read_programs-bytes [] zero i front rest pmts e h q = absurd (omega arith)
read_programs-bytes [] (suc fuel) i front rest pmts e h q = ground arith
read_programs-bytes (p ∷ ps) zero i front rest pmts e h q = absurd (omega arith)
read_programs-bytes (p ∷ ps) (suc fuel) i front rest pmts e h (c, cs) =
    rw
      (
        le→leb (i + 4) (i + suc (length ps) * 4) (omega arith),
        load-behind front (program_bytes (p ∷ ps) ++ rest) i 0 (omega arith),
        load-behind front (program_bytes (p ∷ ps) ++ rest) (i + 1) 1 (omega arith),
        load-behind front (program_bytes (p ∷ ps) ++ rest) (i + 2) 2 (omega arith),
        load-behind front (program_bytes (p ∷ ps) ++ rest) (i + 3) 3 (omega arith),
        nbo_w16-join p.pn c.pn_bits,
        nbo_w16-pid p.pid c.pid_bits,
        test_zero p.pn c.pn_used,
        shift_end i (length ps),
        sym (append_assoc front (entry_bytes p) (program_bytes ps ++ rest)),
      )
      (read_programs-bytes ps fuel (i + 4) (front ++ entry_bytes p) rest (pat_fetch p.pid p.pn pmts)
        (omega (arith, length-append front (entry_bytes p))) (omega arith) cs)

section_end : (n : ℕ) → n ≤ 43 → u32 (n * 4 + 9 + 2 ^ 32 - 1) ≡ 8 + n * 4
section_end n h = omega arith

first_bit :
    (v : ℕ) → v < 2 ^ 12 → bit_and (u8 (bit_and (u16 (bit_or 0xB000 v) >>> 8) 0xFF) >>> 7) 0x01 ≡ 1
first_bit v h =
    rw
      (
        or_low 12 0xB000 v refl h,
        byte_mask (u16 (0xB000 + v) >>> 8),
        mask_low 1 (u8 ((u16 (0xB000 + v) >>> 8) % 256) >>> 7),
      )
      (omega arith)

nbo_w16-length :
    (v : ℕ)
    → v < 2 ^ 12
    → bit_or
        (bit_and (u8 (bit_and (u16 (bit_or 0xB000 v) >>> 8) 0xFF)) 0x0F <<< 8)
        (u8 (bit_and (u16 (bit_or 0xB000 v)) 0xFF))
      ≡ v
nbo_w16-length v h =
    rw
      (
        or_low 12 0xB000 v refl h,
        byte_mask (u16 (0xB000 + v) >>> 8),
        byte_mask (u16 (0xB000 + v)),
        mask_low 4 (u8 ((u16 (0xB000 + v) >>> 8) % 256)),
        join16 (u8 ((u16 (0xB000 + v) >>> 8) % 256) % 16) (u8 (u16 (0xB000 + v) % 256))
            (omega arith),
      )
      (omega arith)

version_byte : (v : ℕ) → v < 32 → bit_and (u8 (bit_or 0xC1 (v <<< 1)) >>> 1) 0x1F ≡ v
version_byte v h =
    ground (arith, bit_or-halve 0xC1 (v <<< 1), or_low 5 0x60 v, mask_low 5 (0x60 + v))

-- A section of at most 43 programs (each with a program number from 1 to 65535 and a pid of 13
-- bits), with a 16-bit transport stream id and a 5-bit version, that pat_write puts into a buffer
-- with room for it is read by pat_read into any table: the id and the version are set, the old
-- entries are kept only where the version is the same, and every program in turn updates the entry
-- with its pid or is a new entry at the end.
pub pat_read-write :
    (old pat : Pat) (buf : List ℕ) (bytes : ℕ)
    → length pat.pmts ≤ 43
    → pat.tsid < 2 ^ 16
    → pat.ver < 32
    → All IsProgram pat.pmts
    → length pat.pmts * 4 + 12 ≤ length buf
    → length pat.pmts * 4 + 12 ≤ bytes
    → (pat_write pat buf >>= λ w. pat_read old w.1 bytes)
      ≡ done (record old {
        tsid = pat.tsid;
        ver = pat.ver;
        pmts = update_programs (if differs old.ver pat.ver then [] else old.pmts) pat.pmts;
      })
unfolding pat_read table_bytes nbo_w16
pat_read-write old pat buf bytes p qt qv qs q r =
    let n = length pat.pmts in
    let t = table_bytes pat in
    let rest = crc_bytes (mpeg_crc32 0xFFFFFFFF t) ++ drop (n * 4 + 12) buf in
    rw (
      pat_write-bytes pat buf p q,
      nbo_w16-length (n * 4 + 9) (omega arith),
      first_bit (n * 4 + 9) (omega arith),
      version_byte pat.ver qv,
      nbo_w16-join pat.tsid qt,
      total n,
      le→leb (n * 4 + 12) bytes r,
      section_end n (omega arith),
      read_programs-bytes pat.pmts (suc (length (t ++ rest))) 8 (take 8 t) rest
          (if differs old.ver pat.ver then [] else old.pmts) refl
          (omega (arith, length-append t rest, length-table_bytes pat)) qs,
    )
