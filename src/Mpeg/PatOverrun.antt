-- ===== src/Mpeg/PatOverrun.antt =====
-- src/media-server/libmpeg/source/mpeg-pat.c: pat_read of a section with the length 0.
use stream.Base.{
  ℕ, zero, suc, List, [], ◌∷◌, ◌+◌, ◌-◌, ◌^◌, ◌≤◌, ◌<◌, ◌≡◌, refl, ◌⊎◌, inl, inr, bit_and, ◌>>>◌,
  if◌then◌else◌, length, le→leb, arith, done, fault,
}
use stream.Base.Buffer.{load}
use stream.Mpeg.Pes.{differs}
use stream.Mpeg.Pat.{Pmt, Pat, read_programs, pat_read}

-- A load stays inside of the buffer or faults.
load-cases :
    (buf : List ℕ) (i : ℕ)
    → (load buf i ≡ fault) ⊎ ((b : ℕ) × (load buf i ≡ done b) × (i < length buf))
load-cases [] i = inl refl
load-cases (x ∷ buf) zero = inr (x, refl, omega arith)
load-cases (x ∷ buf) (suc i) = elim (load-cases buf i) [
  | inl e ↦ inl e
  | inr (b, e, h) ↦ inr (b, e, omega arith)
]

read_programs-overrun :
    (fuel : ℕ) (buf : List ℕ) (end i : ℕ) (pmts : List Pmt)
    → length buf + 4 ≤ end
    → i ≤ length buf
    → length buf < fuel + i
    → read_programs fuel buf end i pmts ≡ fault
unfolding read_programs
read_programs-overrun zero buf end i pmts p q r = absurd (omega arith)
read_programs-overrun (suc fuel) buf end i pmts p q r =
    rw (le→leb (i + 4) end (omega arith)) (elim (load-cases buf i) [
      | inl e0 ↦ rw e0
      | inr (b0, e0, h0) ↦ rw e0 (elim (load-cases buf (i + 1)) [
        | inl e1 ↦ rw e1
        | inr (b1, e1, h1) ↦ rw e1 (elim (load-cases buf (i + 2)) [
          | inl e2 ↦ rw e2
          | inr (b2, e2, h2) ↦ rw e2 (elim (load-cases buf (i + 3)) [
            | inl e3 ↦ rw e3
            | inr (b3, e3, h3) ↦
                rw e3 (read_programs-overrun fuel buf end (i + 4) _ p (omega arith) (omega arith))
          ])
        ])
      ])
    ])

-- A section whose length field is 0 is read past the end of its buffer (of at least 8 bytes, and
-- less than 2 GB), whatever the buffer holds.
pub pat_read-overrun :
    (pat : Pat) (b3 b4 b5 : ℕ) (rest : List ℕ) (bytes : ℕ)
    → 3 ≤ bytes
    → 2 ≤ length rest
    → length rest < 2 ^ 31
    → pat_read pat (0x00 ∷ 0xB0 ∷ 0x00 ∷ b3 ∷ b4 ∷ b5 ∷ rest) bytes ≡ fault
unfolding pat_read
pat_read-overrun pat b3 b4 b5 rest bytes h p q =
    let buf = 0x00 ∷ 0xB0 ∷ 0x00 ∷ b3 ∷ b4 ∷ b5 ∷ rest in
    let pmts = if differs pat.ver (bit_and (b5 >>> 1) 0x1F) then [] else pat.pmts in
    rw (
      le→leb 3 bytes h,
      read_programs-overrun (suc (length buf)) buf (2 ^ 32 - 1) 8 pmts (omega arith) (omega arith)
          (omega arith),
    )
