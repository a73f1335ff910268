-- ===== src/Mpeg/Pat.antt =====
-- src/media-server/libmpeg/source/mpeg-pat.c: the program association table.
use stream.Base.{
  ℕ, zero, suc, List, [], ◌∷◌, ◌+◌, ◌-◌, ◌*◌, ◌^◌, ◌==◌, bit_and, bit_or, u8, u16, u32, ◌<<<◌,
  ◌>>>◌, leb, if◌then◌else◌, length, take, Outcome, done, ◌>>=◌, ◌>>◌, assert, Option, none, some,
}
use stream.Base.Buffer.{load, store}
use stream.Mpeg.Pes.{differs}
use stream.Mpeg.Crc32.{mpeg_crc32, crc_bytes}

-- The numbers of struct pmt_t. Its streams, names and program information are not read or written
-- here, and `memset` clears them.
pub record Pmt : Type 0 where
  pub pid : ℕ
  pub pn : ℕ
  pub ver : ℕ
  pub cc : ℕ
  pub pcr_pid : ℕ
  pub pminfo_len : ℕ
  pub stream_count : ℕ

-- `pmts` holds the `pmt_count` entries in use; the capacity of the array is not part of the model.
pub record Pat : Type 0 where
  pub tsid : ℕ
  pub ver : ℕ
  pub cc : ℕ
  pub pmts : List Pmt

-- The entry that `pat_alloc_pmt` clears.
abbrev pub empty_pmt : Pmt
empty_pmt = record {
  pid = 0;
  pn = 0;
  ver = 0;
  cc = 0;
  pcr_pid = 0;
  pminfo_len = 0;
  stream_count = 0;
}

-- `pmt = pat_fetch(pat, pid); pmt->pn = pn; pmt->pid = pid;`: the first entry with this pid, or a
-- new one at the end. A pid has 13 bits, so the limit of 65535 entries is never met.
unfoldable pub pat_fetch : ℕ → ℕ → List Pmt → List Pmt
pat_fetch pid pn [] = record empty_pmt { pn = pn; pid = pid } ∷ []
pat_fetch pid pn (p ∷ pmts) =
    let rest = pat_fetch pid pn pmts in
    if p.pid == pid then record p { pn = pn; pid = pid } ∷ pmts else p ∷ rest

-- `for(i = 8; i + 4 <= end; i += 4)`, with rounds for fuel: a round past the end of the buffer is
-- a fault, so one more than the length of the buffer is enough.
unfoldable pub read_programs : ℕ → List ℕ → ℕ → ℕ → List Pmt → Outcome (List Pmt)
read_programs zero buf end i pmts = done pmts
read_programs (suc fuel) buf end i pmts =
    if leb (i + 4) end
    then (do
      b0 ← load buf i
      b1 ← load buf (i + 1)
      b2 ← load buf (i + 2)
      b3 ← load buf (i + 3)
      let pn = bit_or (b0 <<< 8) b1
      let pid = bit_or (bit_and b2 0x1F <<< 8) b3
      read_programs fuel buf end (i + 4) (if pn == 0 then pmts else pat_fetch pid pn pmts))
    else done pmts

-- The function returns 0; the structure is what counts. `section_length + 8 - 5 - 4` is computed
-- in 32 bits.
unfoldable pub pat_read : Pat → List ℕ → ℕ → Outcome Pat
pat_read pat buf bytes = do
  table_id ← load buf 0
  b1 ← load buf 1
  b2 ← load buf 2
  let section_length = bit_or (bit_and b1 0x0F <<< 8) b2
  b3 ← load buf 3
  b4 ← load buf 4
  b5 ← load buf 5
  let version_number = bit_and (b5 >>> 1) 0x1F
  assert (table_id == 0x00)
  assert (bit_and (b1 >>> 7) 0x01 == 1)
  let pmts = if differs pat.ver version_number then [] else pat.pmts
  assert (leb (section_length + 3) bytes)
  pmts' ← read_programs (suc (length buf)) buf (u32 (section_length + 2 ^ 32 - 1)) 8 pmts
  done (record pat { tsid = bit_or (b3 <<< 8) b4; ver = version_number; pmts = pmts' })

-- mpeg-util.h: `nbo_w16`, for a value that is cast to uint16_t.
unfoldable pub nbo_w16 : ℕ → List ℕ
nbo_w16 val = u8 (bit_and (u16 val >>> 8) 0xFF) ∷ u8 (bit_and (u16 val) 0xFF) ∷ []

-- `for(i = 0; i < pat->pmt_count; i++)`, with the index of the entry's first byte.
unfoldable pub write_programs : ℕ → List Pmt → List ℕ → Outcome (List ℕ)
write_programs i [] buf = done buf
write_programs i (p ∷ pmts) buf = do
  out ← store i (nbo_w16 p.pn) buf
  out' ← store (i + 2) (nbo_w16 (bit_or 0xE000 p.pid)) out
  write_programs (i + 4) pmts out'

-- Returns the length with the buffer.
unfoldable pub pat_write : Pat → List ℕ → Outcome (ℕ × List ℕ)
pat_write pat buf = do
  let len = length pat.pmts * 4 + 5 + 4
  assert (leb len 1021)
  assert (leb len (188 - 7))
  a ← store 0 (0x00 ∷ []) buf
  b ← store 1 (nbo_w16 (bit_or 0xB000 len)) a
  c ← store 3 (nbo_w16 pat.tsid) b
  d ← store 5 (u8 (bit_or 0xC1 (pat.ver <<< 1)) ∷ 0x00 ∷ 0x00 ∷ []) c
  e ← write_programs 8 pat.pmts d
  f ← store (len - 1) (crc_bytes (mpeg_crc32 0xFFFFFFFF (take (len - 1) e))) e
  done (len + 3, f)

-- The first entry of a program.
unfoldable pub pat_find : ℕ → List Pmt → Option Pmt
pat_find pn [] = none
pat_find pn (p ∷ pmts) = let rest = pat_find pn pmts in if p.pn == pn then some p else rest
