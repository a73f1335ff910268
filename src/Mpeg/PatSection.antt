-- ===== src/Mpeg/PatSection.antt =====
-- src/media-server/libmpeg/source/mpeg-pat.c: the section that pat_write writes.
use stream.Base.{
  ℕ, suc, List, [], ◌∷◌, ◌++◌, ◌+◌, ◌-◌, ◌*◌, ◌≤◌, ◌≡◌, refl, sym, ◌∙◌, bit_or, u8, ◌<<<◌, length,
  take, drop, take-append, length-append, length-drop, drop-drop, le→leb, arith, done, ◌>>=◌,
}
use mathlib.Core.List.{append_assoc, append-nil}
use stream.Base.Buffer.{store-extend}
use stream.Mpeg.Crc32.{mpeg_crc32, crc_bytes}
use stream.Mpeg.CrcResidue.{mpeg_crc32-residue}
use stream.Mpeg.Pat.{Pmt, Pat, nbo_w16, write_programs, pat_write}

unfoldable pub entry_bytes : Pmt → List ℕ
entry_bytes p = nbo_w16 p.pn ++ nbo_w16 (bit_or 0xE000 p.pid)

unfoldable pub program_bytes : List Pmt → List ℕ
program_bytes [] = []
program_bytes (p ∷ pmts) = entry_bytes p ++ program_bytes pmts

regroup : (a b c d : List ℕ) → a ++ b ++ c ++ d ≡ a ++ (b ++ (c ++ d))
regroup a b c d = append_assoc (a ++ b) c d ∙ append_assoc a b (c ++ d)

four_more : (n : ℕ) → 2 + (2 + n * 4) ≡ suc n * 4
four_more n = omega arith

write_programs-bytes :
    (ps : List Pmt) (i : ℕ) (front room : List ℕ)
    → i ≡ length front
    → length ps * 4 ≤ length room
    → write_programs i ps (front ++ room)
      ≡ done ((front ++ program_bytes ps) ++ drop (length ps * 4) room)
unfolding write_programs program_bytes entry_bytes nbo_w16
write_programs-bytes [] i front room e h = rw append-nil
write_programs-bytes (p ∷ ps) i front room e h = rw (
  store-extend i front (nbo_w16 p.pn) room e (omega arith),
  store-extend (i + 2) (front ++ nbo_w16 p.pn) (nbo_w16 (bit_or 0xE000 p.pid)) (drop 2 room)
      (omega (arith, length-append front (nbo_w16 p.pn))) (omega (arith, length-drop 2 room)),
  write_programs-bytes ps (i + 4) (front ++ nbo_w16 p.pn ++ nbo_w16 (bit_or 0xE000 p.pid))
      (drop 2 (drop 2 room))
      (omega (
        arith,
        e,
        length-append front (nbo_w16 p.pn),
        length-append (front ++ nbo_w16 p.pn) (nbo_w16 (bit_or 0xE000 p.pid)),
      ))
      (omega (arith, h, length-drop 2 (drop 2 room), length-drop 2 room)),
  regroup front (nbo_w16 p.pn) (nbo_w16 (bit_or 0xE000 p.pid)) (program_bytes ps),
  drop-drop (length ps * 4) 2 (drop 2 room),
  drop-drop (2 + length ps * 4) 2 room,
  four_more (length ps),
)

-- The table up to the checksum.
unfoldable pub table_bytes : Pat → List ℕ
table_bytes pat =
    (0x00 ∷ [])
    ++ nbo_w16 (bit_or 0xB000 (length pat.pmts * 4 + 9))
    ++ nbo_w16 pat.tsid
    ++ (u8 (bit_or 0xC1 (pat.ver <<< 1)) ∷ 0x00 ∷ 0x00 ∷ [])
    ++ program_bytes pat.pmts

length-program_bytes : (ps : List Pmt) → length (program_bytes ps) ≡ length ps * 4
unfolding program_bytes entry_bytes nbo_w16
length-program_bytes [] = refl
length-program_bytes (p ∷ ps) = omega (arith, length-program_bytes ps)

pub length-crc_bytes : (crc : ℕ) → length (crc_bytes crc) ≡ 4
unfolding crc_bytes
length-crc_bytes crc = refl

pub length-table_bytes : (pat : Pat) → length (table_bytes pat) ≡ length pat.pmts * 4 + 8
unfolding table_bytes nbo_w16
length-table_bytes pat = omega (arith, length-program_bytes pat.pmts)

room_left : (buf : List ℕ) → length (drop 3 (drop 2 (drop 2 (drop 1 buf)))) ≡ length buf - 8
room_left buf = omega (
  arith,
  length-drop 3 (drop 2 (drop 2 (drop 1 buf))),
  length-drop 2 (drop 2 (drop 1 buf)),
  length-drop 2 (drop 1 buf),
  length-drop 1 buf,
)

rest_left :
    (m : ℕ) (buf : List ℕ)
    → drop 4 (drop m (drop 3 (drop 2 (drop 2 (drop 1 buf))))) ≡ drop (m + 12) buf
rest_left m buf =
    let e : 1 + (2 + (2 + (3 + (m + 4)))) ≡ m + 12 = omega arith in
    rw (
      drop-drop 4 m (drop 3 (drop 2 (drop 2 (drop 1 buf)))),
      drop-drop (m + 4) 3 (drop 2 (drop 2 (drop 1 buf))),
      drop-drop (3 + (m + 4)) 2 (drop 2 (drop 1 buf)),
      drop-drop (2 + (3 + (m + 4))) 2 (drop 1 buf),
      drop-drop (2 + (2 + (3 + (m + 4)))) 1 buf,
      e,
    )

pub total : (n : ℕ) → n * 4 + 9 + 3 ≡ n * 4 + 12
total n = omega arith

section_length : (n : ℕ) → n * 4 + 5 + 4 ≡ n * 4 + 9
section_length n = omega arith

pub pat_write-bytes :
    (pat : Pat) (buf : List ℕ)
    → length pat.pmts ≤ 43
    → length pat.pmts * 4 + 12 ≤ length buf
    → pat_write pat buf
      ≡ done (
        length pat.pmts * 4 + 12,
        table_bytes pat
            ++ (crc_bytes (mpeg_crc32 0xFFFFFFFF (table_bytes pat))
                ++ drop (length pat.pmts * 4 + 12) buf),
      )
unfolding pat_write crc_bytes nbo_w16 table_bytes
pat_write-bytes pat buf p q =
    let n = length pat.pmts in
    let t = table_bytes pat in
    let room = drop 3 (drop 2 (drop 2 (drop 1 buf))) in
    let room_size : length room ≡ length buf - 8 = room_left buf in
    let size : n * 4 + 9 - 1 ≡ length t = omega (arith, length-table_bytes pat) in
    rw (
      section_length n,
      le→leb (n * 4 + 9) 1021 (omega arith),
      le→leb (n * 4 + 9) 181 (omega arith),
      store-extend 0 [] (0x00 ∷ []) buf refl (omega arith),
      store-extend 1 (0x00 ∷ []) (nbo_w16 (bit_or 0xB000 (n * 4 + 9))) (drop 1 buf) refl
          (omega (arith, length-drop 1 buf)),
      store-extend 3 (take 3 t) (nbo_w16 pat.tsid) (drop 2 (drop 1 buf)) refl
          (omega (arith, length-drop 2 (drop 1 buf), length-drop 1 buf)),
      store-extend 5 (take 5 t) (u8 (bit_or 0xC1 (pat.ver <<< 1)) ∷ 0x00 ∷ 0x00 ∷ [])
          (drop 2 (drop 2 (drop 1 buf))) refl
          (omega (arith, room_size, length-drop 3 (drop 2 (drop 2 (drop 1 buf))))),
      write_programs-bytes pat.pmts 8 (take 8 t) room refl (omega (arith, room_size)),
      size,
      take-append t (drop (n * 4) room),
      store-extend (length t) t (crc_bytes (mpeg_crc32 0xFFFFFFFF t)) (drop (n * 4) room) refl
          (omega (arith, length-drop (n * 4) room, room_size)),
      total n,
      append_assoc t (crc_bytes (mpeg_crc32 0xFFFFFFFF t)) (drop 4 (drop (n * 4) room)),
      rest_left (n * 4) buf,
    )

-- The section that pat_write puts into a buffer with room for it, of at most 43 programs, has the
-- checksum 0 with its own checksum included, which is the test that H.222.0 sets for a receiver.
pub pat_write-crc :
    (pat : Pat) (buf : List ℕ)
    → length pat.pmts ≤ 43
    → length pat.pmts * 4 + 12 ≤ length buf
    → (pat_write pat buf >>= λ w. done (mpeg_crc32 0xFFFFFFFF (take w.0 w.1))) ≡ done 0
pat_write-crc pat buf p q =
    let t = table_bytes pat in
    let crc = crc_bytes (mpeg_crc32 0xFFFFFFFF t) in
    let rest = drop (length pat.pmts * 4 + 12) buf in
    let size : length pat.pmts * 4 + 12 ≡ length (t ++ crc) = omega (
      arith,
      length-append t crc,
      length-table_bytes pat,
      length-crc_bytes (mpeg_crc32 0xFFFFFFFF t),
    ) in
    rw (
      pat_write-bytes pat buf p q,
      sym (append_assoc t crc rest),
      size,
      take-append (t ++ crc) (drop (length (t ++ crc)) buf),
      mpeg_crc32-residue 0xFFFFFFFF t (omega arith),
    )
