-- ===== src/Mpeg/TsSectionRoundTrip.antt =====
-- src/media-server/libmpeg/source/mpeg-ts-enc.c and mpeg-ts-dec.c: the program association table through
-- a transport stream packet.
use stream.Base.{
  ℕ, List, [], ◌∷◌, ◌++◌, ◌+◌, ◌-◌, ◌*◌, ◌^◌, ◌%◌, ◌≤◌, ◌<◌, ◌≡◌, refl, sym, ap, ◌∙◌, All, leb,
  lt→ltb, le→leb, if◌then◌else◌, true, length, length-append, length-drop, drop, take-append,
  replicate, arith, done, ◌>>=◌,
}
use mathlib.Core.List.{append_assoc}
use stream.Base.Buffer.{store-front, store-behind, store-extend}
use stream.Mpeg.Pes.{differs}
use stream.Mpeg.Crc32.{mpeg_crc32, crc_bytes}
use stream.Mpeg.Pat.{Pat, pat_read, pat_write}
use stream.Mpeg.PatSection.{table_bytes, length-table_bytes, pat_write-bytes}
use stream.Mpeg.PatRoundTrip.{IsProgram, update_programs, pat_read-write}
use stream.Mpeg.TsStuffing.{drop_first}
use stream.Mpeg.TsField.{plain_byte}
use stream.Mpeg.TsStuffing.{length-replicate}
use stream.Mpeg.TsPayload.{drop_all, append_nil}
use stream.Mpeg.TsDelivery.{IsRead-plain}
use stream.Mpeg.TsSection.{mpeg_ts_write_section_header, pat_input}

-- The packet of the table with PID 0.
section_image :
    (buf xs rest : List ℕ) (c : ℕ)
    → length buf ≡ 188
    → length xs < 183
    → mpeg_ts_write_section_header buf 0 c (xs ++ rest) (length xs)
      ≡ done (
        0x47 ∷ 0x40 ∷ 0 ∷ plain_byte c ∷ 0 ∷ (xs ++ replicate (183 - length xs) 0xFF),
        (c + 1) % 16,
      )
unfolding mpeg_ts_write_section_header
section_image buf xs rest c l b =
    let r0 = drop 4 buf in
    let d0 = length-drop 4 buf in
    let r1 = drop 1 r0 in
    let d1 = length-drop 1 r0 in
    let r2 = drop (length xs) r1 in
    let d2 = length-drop (length xs) r1 in
    let fill : List ℕ = replicate (183 - length xs) 0xFF in
    let f = length-replicate (183 - length xs) 0xFF in
    let n : 188 - length xs - 5 ≡ 183 - length xs = omega arith in
    let five : List ℕ = 0x47 ∷ 0x40 ∷ 0 ∷ plain_byte c ∷ 0 ∷ [] in
    let whole : leb (length xs) (length (xs ++ rest)) ≡ true =
      le→leb (length xs) (length (xs ++ rest)) (omega (arith, length-append xs rest)) in
    let last =
      store-extend (5 + length xs) (five ++ xs) fill r2 (omega arith)
        (omega (arith, l, b, d0, d1, d2, f)) in
    let gone = drop_all (length fill) r2 (omega (arith, l, d0, d1, d2, f)) in
    rw
      (
        lt→ltb (length xs) 183 b,
        store-front (0x47 ∷ 0x40 ∷ 0 ∷ plain_byte c ∷ []) buf (omega (arith, l)),
        store-behind (0x47 ∷ 0x40 ∷ 0 ∷ plain_byte c ∷ []) (0 ∷ []) r0 (omega (arith, l, d0)),
        whole,
        take-append xs rest,
        store-behind five xs r1 (omega (arith, l, b, d0, d1)),
        n,
      )
      (rw last (ap (λ ys. done (ys, (c + 1) % 16)) (append_nil ((five ++ xs) ++ fill) _ gone)))

-- The section without what is in the buffer behind it.
abbrev section : Pat → List ℕ
section pat = table_bytes pat ++ crc_bytes (mpeg_crc32 0xFFFFFFFF (table_bytes pat))

length-section : (pat : Pat) → length (section pat) ≡ length pat.pmts * 4 + 12
unfolding crc_bytes
length-section pat =
    let crc = crc_bytes (mpeg_crc32 0xFFFFFFFF (table_bytes pat)) in
    omega (arith, length-append (table_bytes pat) crc, length-table_bytes pat)

pat_write-section :
    (pat : Pat) (buf : List ℕ)
    → length pat.pmts ≤ 42
    → length pat.pmts * 4 + 12 ≤ length buf
    → pat_write pat buf
      ≡ done (length (section pat), section pat ++ drop (length (section pat)) buf)
pat_write-section pat buf p q =
    let crc = crc_bytes (mpeg_crc32 0xFFFFFFFF (table_bytes pat)) in
    rw (length-section pat) (
      pat_write-bytes pat buf (omega (arith, p)) q
      ∙ ap (λ xs. done (length pat.pmts * 4 + 12, xs))
          (sym (append_assoc (table_bytes pat) crc (drop (length pat.pmts * 4 + 12) buf))))

-- A table of at most 42 programs (each with a program number from 1 to 65535 and a PID of 13 bits),
-- with a 16-bit transport stream id and a 5-bit version, that pat_write puts into a buffer with room
-- for it, is sent in one packet. The reader of the packet updates its table from it as pat_read does
-- from the section: the id and the version are set, the old entries are kept only where the version
-- is the same, and every program updates the entry with its PID or is a new one.
pub pat_input-section_header :
    (old pat : Pat) (buf memory : List ℕ)
    → length pat.pmts ≤ 42
    → pat.tsid < 2 ^ 16
    → pat.ver < 32
    → All IsProgram pat.pmts
    → length pat.pmts * 4 + 12 ≤ length buf
    → length memory ≡ 188
    → (pat_write pat buf >>= λ (n, out).
        mpeg_ts_write_section_header memory 0 pat.cc out n >>= λ (packet, _).
        pat_input old packet 188)
      ≡ done (record old {
        tsid = pat.tsid;
        ver = pat.ver;
        pmts = update_programs (if differs old.ver pat.ver then [] else old.pmts) pat.pmts;
      })
unfolding pat_input
pat_input-section_header old pat buf memory p qt qv qs q m =
    let xs = section pat in
    let l = length-section pat in
    let fill : List ℕ = replicate (183 - length xs) 0xFF in
    let rest = drop (length xs) buf in
    let (pkhd, r, start, control, _) =
      IsRead-plain true 0 pat.cc (omega arith) (0 ∷ (xs ++ fill)) in
    let whole = pat_write-section pat (xs ++ fill) p (omega (arith, l, length-append xs fill)) in
    let table =
      pat_read-write old pat (xs ++ fill) 183 (omega (arith, p)) qt qv qs
        (omega (arith, l, length-append xs fill)) (omega (arith, p)) in
    let section_read =
      sym (
        ap (λ o. o >>= λ w. pat_read old w.1 183)
          (whole ∙ ap (λ ys. done (length xs, xs ++ ys)) (drop_first (length xs) xs fill refl)))
      ∙ table in
    rw (pat_write-section pat buf p q, section_image memory xs rest pat.cc m (omega (arith, l, p)))
      (rw (r, control, start) section_read)
