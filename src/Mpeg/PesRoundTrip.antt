-- ===== src/Mpeg/PesRoundTrip.antt =====
-- src/media-server/libmpeg/source/mpeg-pes.c: pes_read_header of what pes_write_header wrote.
use stream.Base.{
  ℕ, List, ◌∷◌, ◌++◌, ◌+◌, ◌-◌, ◌/◌, ◌^◌, ◌≤◌, ◌<◌, ◌≡◌, refl, sym, ◌⊎◌, inl, inr, bit_and, bit_or,
  u32, ◌<<<◌, ◌>>>◌, ltb, le→ltb_false, if◌then◌else◌, length, Bool-cases, true, false, arith, done,
  ◌>>=◌,
}
use mathlib.Core.Path.{subst}
use stream.Mpeg.Timestamp.{
  timestamp_bytes, timestamp_at, timestamp_value-bytes, pts_marker, dts_marker,
}
use stream.Mpeg.Pes.{
  Pes, differs, has_pts, has_dts, write_len, time_bytes, read_pts, read_dts, read_escr,
  read_es_rate, finish_header, pes_read_header, pes_write_header,
}
use stream.Mpeg.PesBytes.{IsCarriedPes, carried_pes, header_bytes, pes_write_header-bytes}

has_pts-bits : (p : Pes) → IsCarriedPes p → has_pts p ≡ true → p.pts < 2 ^ 33
has_pts-bits p v h = ground arith

has_dts-bits : (p : Pes) → IsCarriedPes p → has_dts p ≡ true → p.dts < 2 ^ 33
has_dts-bits p v h = ground arith

has_dts-has_pts : (p : Pes) → IsCarriedPes p → has_pts p ≡ false → has_dts p ≡ true → ⊥
has_dts-has_pts p v h k = ground arith

bit_cases : (d : ℕ) → d < 2 → (d ≡ 0) ⊎ (d ≡ 1)
bit_cases d h = ground arith

abbrev AlignmentFields : ℕ → Type 0
AlignmentFields d =
    let b = if differs d 0 then 0x84 else 0x80 in
    (bit_and (b >>> 6) 0x3 ≡ 2)
    × (bit_and (b >>> 4) 0x3 ≡ 0)
    × (bit_and (b >>> 3) 0x1 ≡ 0)
    × (bit_and (b >>> 2) 0x1 ≡ d)
    × (bit_and (b >>> 1) 0x1 ≡ 0)
    × (bit_and b 0x1 ≡ 0)

alignment_fields : (d : ℕ) → (d ≡ 0) ⊎ (d ≡ 1) → AlignmentFields d
alignment_fields d (inl e) = subst AlignmentFields (sym e) (refl, refl, refl, refl, refl, refl)
alignment_fields d (inr e) = subst AlignmentFields (sym e) (refl, refl, refl, refl, refl, refl)

module _ (old : Pes) (sid l0 l1 d : ℕ) (align : d < 2) (pts dts : ℕ) (rest : List ℕ)
    (bytes : ℕ) where
  abbrev read_result : ℕ → ℕ → ℕ → ℕ → Pes
  read_result flags header pts' dts' = record old {
    sid = sid;
    len =
        let len = bit_or (l0 <<< 8) l1 in
        if ltb 0 len then u32 (len + 2 ^ 32 - (header + 3)) else len;
    scrambling_control = 0;
    priority = 0;
    data_alignment_indicator = d;
    copyright = 0;
    original_or_copy = 0;
    pts_dts_flags = flags / 64;
    escr_flag = 0;
    es_rate_flag = 0;
    dsm_trick_mode_flag = 0;
    additional_copy_info_flag = 0;
    pes_crc_flag = 0;
    pes_extension_flag = 0;
    header_data_length = header;
    pts = pts';
    dts = dts';
  }

  read_with_both :
      pts < 2 ^ 33
      → dts < 2 ^ 33
      → 19 ≤ bytes
      → pes_read_header old
          (0
            ∷ 0
            ∷ 1
            ∷ sid
            ∷ l0
            ∷ l1
            ∷ (if differs d 0 then 0x84 else 0x80)
            ∷ 0xC0
            ∷ 10
            ∷ (timestamp_bytes 0x30 pts ++ (timestamp_bytes 0x10 dts ++ rest)))
          bytes
        ≡ done (19, read_result 0xC0 10 pts dts)
  unfolding pes_read_header timestamp_bytes read_pts read_dts read_escr read_es_rate finish_header
      timestamp_at
  read_with_both p q room =
      let (f, g, h, k, m, n) = alignment_fields d (bit_cases d align) in
      rw (f, g, h, k, m, n, le→ltb_false 19 bytes room)
        (rw
          (
            pts_marker 0x30 (pts >>> 30) (inr refl),
            timestamp_value-bytes 0x30 pts refl (omega arith) p,
          )
          (rw (dts_marker (dts >>> 30), timestamp_value-bytes 0x10 dts refl (omega arith) q)
            (elim (Bool-cases (ltb 0 (bit_or (l0 <<< 8) l1))) [ inl c ↦ rw c | inr c ↦ rw c ])))

  read_with_pts :
      pts < 2 ^ 33
      → 14 ≤ bytes
      → pes_read_header old
          (0
            ∷ 0
            ∷ 1
            ∷ sid
            ∷ l0
            ∷ l1
            ∷ (if differs d 0 then 0x84 else 0x80)
            ∷ 0x80
            ∷ 5
            ∷ (timestamp_bytes 0x20 pts ++ rest))
          bytes
        ≡ done (14, read_result 0x80 5 pts pts)
  unfolding pes_read_header timestamp_bytes read_pts read_dts read_escr read_es_rate finish_header
      timestamp_at
  read_with_pts p room =
      let (f, g, h, k, m, n) = alignment_fields d (bit_cases d align) in
      rw (f, g, h, k, m, n, le→ltb_false 14 bytes room)
        (rw
          (
            pts_marker 0x20 (pts >>> 30) (inl refl),
            timestamp_value-bytes 0x20 pts refl (omega arith) p,
          )
          (elim (Bool-cases (ltb 0 (bit_or (l0 <<< 8) l1))) [ inl c ↦ rw c | inr c ↦ rw c ]))

  read_with_none :
      9 ≤ bytes
      → pes_read_header old
          (0 ∷ 0 ∷ 1 ∷ sid ∷ l0 ∷ l1 ∷ (if differs d 0 then 0x84 else 0x80) ∷ 0x00 ∷ 0 ∷ rest)
          bytes
        ≡ done (9, read_result 0x00 0 old.pts old.dts)
  unfolding pes_read_header timestamp_bytes read_pts read_dts read_escr read_es_rate finish_header
      timestamp_at
  read_with_none room =
      let (f, g, h, k, m, n) = alignment_fields d (bit_cases d align) in
      rw (f, g, h, k, m, n, le→ltb_false 9 bytes room)
        (elim (Bool-cases (ltb 0 (bit_or (l0 <<< 8) l1))) [ inl c ↦ rw c | inr c ↦ rw c ])

-- `pes_read_header` of a written header gives back what the header carries.
pub pes_read_header-bytes :
    (old p : Pes) (l0 l1 : ℕ) (rest : List ℕ) (bytes : ℕ)
    → IsCarriedPes p
    → write_len p + 9 ≤ bytes
    → pes_read_header old (header_bytes p l0 l1 ++ (time_bytes p ++ rest)) bytes
      ≡ done (9 + write_len p, carried_pes old p (bit_or (l0 <<< 8) l1))
unfolding header_bytes timestamp_bytes
pes_read_header-bytes old p l0 l1 rest bytes v room = elim (Bool-cases (has_pts p)) [
  | inl hp ↦ elim (Bool-cases (has_dts p)) [
    | inl hd ↦
        rw (hp, hd)
          (read_with_both old p.sid l0 l1 p.data_alignment_indicator v.alignment_bit p.pts p.dts
            rest bytes (has_pts-bits p v hp) (has_dts-bits p v hd) (rw (hp, hd) at room))
    | inr hd ↦
        rw (hp, hd)
          (read_with_pts old p.sid l0 l1 p.data_alignment_indicator v.alignment_bit p.pts p.dts rest
            bytes (has_pts-bits p v hp) (rw (hp, hd) at room))
  ]
  | inr hp ↦ elim (Bool-cases (has_dts p)) [
    | inl hd ↦ absurd (has_dts-has_pts p v hp hd)
    | inr hd ↦
        rw (hp, hd)
          (read_with_none old p.sid l0 l1 p.data_alignment_indicator v.alignment_bit p.pts p.dts
            rest bytes (rw (hp, hd) at room))
  ]
]

-- What `pes_write_header` writes into a buffer with room for it, `pes_read_header` reads back as
-- `carried_pes` says; bytes 4 and 5 of the buffer stand for the length.
pub pes_read_header-write :
    (old p : Pes) (x0 x1 x2 x3 l0 l1 x6 x7 x8 : ℕ) (tail : List ℕ) (bytes : ℕ)
    → IsCarriedPes p
    → write_len p + 9 ≤ bytes
    → write_len p ≤ length tail
    → (pes_write_header p (x0 ∷ x1 ∷ x2 ∷ x3 ∷ l0 ∷ l1 ∷ x6 ∷ x7 ∷ x8 ∷ tail) bytes >>= λ w.
        pes_read_header old w.1 bytes)
      ≡ done (9 + write_len p, carried_pes old p (bit_or (l0 <<< 8) l1))
pes_read_header-write old p x0 x1 x2 x3 l0 l1 x6 x7 x8 tail bytes v room fits =
    rw (pes_write_header-bytes p x0 x1 x2 x3 l0 l1 x6 x7 x8 tail bytes v room fits)
      (pes_read_header-bytes old p l0 l1 _ bytes v room)
