-- ===== src/Mov/KeyFile.antt =====
-- src/media-server/libmov/source/mov-stss.c: key frames that are written into a file and read back.
use stream.Base.{
  ℕ, suc, List, [], ◌∷◌, ◌++◌, ◌+◌, ◌-◌, ◌*◌, ◌^◌, ◌≤◌, ◌<◌, ◌≡◌, refl, sym, ◌∙◌, ap, ◌==◌, bit_and,
  if◌then◌else◌, Bool-cases, inl, inr, length, drop, All, u32, arith, lt→ltb, le→leb, bit_or, done,
  fault, ◌>>=◌, length-append,
}
use mathlib.Core.Path.{subst}
use native.Mathlib.Nat.{add-zero}
use mathlib.Core.List.{append_assoc, append-nil}
use stream.Mov.SizeTables.{mark_key, mov_apply_stss}
use stream.Mov.IoUtil.{mov_buffer_w32, mov_buffer_write, MovIo, ◌>>◌, pure}
use stream.Mov.Files.{
  MovInput, MovOutput, Reads, Reads-bind, Reads-pure, Reads-cast, IsAtEnd, Writes, Writes-then,
  Writes-pure, Writes-cast, read-written,
}
use stream.Mov.Words.{be16, be24, be32, Reads-r8, Reads-r24, Reads-r32, Writes-write, Writes-w32}
use stream.Mov.Patches.{Writes-counted}
use stream.Mov.TimeFile.{Reads-error}
use stream.Mov.Samples.{MovSample}
use stream.Mov.SizeTables.{
  no_table, stss_fields, read_numbers, mov_read_stss, write_keys, mov_write_stss,
  mov_av_flag_keyframe,
}

-- The numbers, from `i + 1` on, of the samples that are key frames.
unfoldable pub key_numbers : ℕ → List MovSample → List ℕ
key_numbers i [] = []
key_numbers i (s ∷ samples) =
    let rest = key_numbers (i + 1) samples in
    if bit_and s.flags mov_av_flag_keyframe == 0 then rest else (i + 1) ∷ rest

unfoldable pub number_bytes : List ℕ → List ℕ
number_bytes [] = []
number_bytes (n ∷ numbers) = be32 n ++ number_bytes numbers

key_numbers-bound :
    (i : ℕ) (samples : List MovSample)
    → i + length samples < 2 ^ 32
    → All (λ n. n < 2 ^ 32) (key_numbers i samples)
unfolding key_numbers
key_numbers-bound i [] h = tt
key_numbers-bound i (s ∷ samples) h =
    elim (Bool-cases (bit_and s.flags mov_av_flag_keyframe == 0)) [
      | inl e ↦ rw e (key_numbers-bound (i + 1) samples (omega arith))
      | inr e ↦ rw e (omega arith, key_numbers-bound (i + 1) samples (omega arith))
    ]

length-key_numbers :
    (i : ℕ) (samples : List MovSample) → length (key_numbers i samples) ≤ length samples
unfolding key_numbers
length-key_numbers i [] = omega arith
length-key_numbers i (s ∷ samples) = ground (arith, length-key_numbers (i + 1) samples)

module _ (I : MovInput) where
  pub Reads-numbers :
      (numbers : List ℕ)
      → All (λ n. n < 2 ^ 32) numbers
      → Reads I (read_numbers I.buffer (length numbers)) (number_bytes numbers) numbers
  unfolding read_numbers number_bytes
  Reads-numbers [] h = Reads-pure I []
  Reads-numbers (n ∷ numbers) (h, hs) =
      Reads-cast I (number_bytes (n ∷ numbers)) (n ∷ numbers)
        (Reads-bind I _ (Reads-r32 I n h)
          (Reads-bind I _ (Reads-numbers numbers hs) (Reads-pure I _)))
        (rw append-nil) refl

  Reads-stss_fields :
      (numbers : List ℕ)
      → All (λ n. n < 2 ^ 32) numbers
      → Reads I
          (if no_table {A = ℕ} [] then stss_fields I.buffer (length numbers) else pure fault)
          (number_bytes numbers)
          (done (numbers, 0))
  unfolding stss_fields no_table
  Reads-stss_fields numbers h =
      Reads-cast I (number_bytes numbers) (done (numbers, 0))
        (Reads-bind I _ (Reads-numbers numbers h) (Reads-bind I _ (Reads-error I) (Reads-pure I _)))
        (rw append-nil refl) refl

  Reads-stss :
      (numbers : List ℕ)
      → length numbers < 2 ^ 32
      → All (λ n. n < 2 ^ 32) numbers
      → Reads I
          (mov_read_stss I.buffer [])
          (be32 0 ++ (be32 (length numbers) ++ number_bytes numbers))
          (done (numbers, 0))
  unfolding mov_read_stss be32 be16 be24
  Reads-stss numbers n h =
      Reads-cast I (be32 0 ++ (be32 (length numbers) ++ number_bytes numbers)) (done (numbers, 0))
        (Reads-bind I _ (Reads-r8 I 0) (
          Reads-bind I _ (Reads-r24 I 0 (omega arith))
            (Reads-bind I _ (Reads-r32 I (length numbers) n) (Reads-stss_fields numbers h))))
        refl refl

stss_tag : List ℕ
stss_tag = 0x73 ∷ 0x74 ∷ 0x73 ∷ 0x73 ∷ []

stss_size : List MovSample → ℕ
stss_size samples = u32 (12 + 4 + length (key_numbers 0 samples) * 4)

tag_length : length (stss_tag ++ be32 0) ≡ 8
unfolding stss_tag be32 be16
tag_length = refl

header_length : (size : ℕ) → length (be32 size ++ stss_tag) ≡ 8
unfolding stss_tag be32 be16
header_length size = refl

module _ (O : MovOutput) where
  Writes-keys :
      (i j : ℕ) (samples : List MovSample)
      → i + length samples < 2 ^ 32
      → Writes O
          (write_keys O.buffer i j samples)
          (number_bytes (key_numbers i samples))
          (j + length (key_numbers i samples))
  unfolding write_keys key_numbers number_bytes
  Writes-keys i j [] h = rw add-zero (Writes-pure O j)
  Writes-keys i j (s ∷ samples) h = elim (Bool-cases (bit_and s.flags mov_av_flag_keyframe == 0)) [
    | inl e ↦ rw e (Writes-keys (i + 1) j samples (omega arith))
    | inr e ↦
        let fits : u32 (i + 1) ≡ i + 1 = omega arith in
        let count : j + suc (length (key_numbers (i + 1) samples))
            ≡ j + 1 + length (key_numbers (i + 1) samples) =
          omega arith in
        rw (e, fits, count)
          (Writes-then O (Writes-w32 O (i + 1)) (Writes-keys (i + 1) (j + 1) samples (omega arith)))
  ]

  Writes-stss :
      (samples : List MovSample)
      → length samples < 2 ^ 32
      → Writes O
          (mov_write_stss O.buffer samples)
          ((be32 (stss_size samples) ++ stss_tag)
            ++ (be32 0
                ++ (be32 (length (key_numbers 0 samples)) ++ number_bytes (key_numbers 0 samples))))
          (stss_size samples)
  unfolding mov_write_stss stss_size stss_tag
  Writes-stss samples n =
      let numbers = key_numbers 0 samples in
      let none : 0 + length numbers ≡ length numbers = omega arith in
      Writes-cast O
        ((be32 (stss_size samples) ++ stss_tag)
          ++ (be32 0 ++ (be32 (length numbers) ++ number_bytes numbers)))
        (Writes-counted O
          (mov_buffer_w32 O.buffer 0
            >> (mov_buffer_write O.buffer stss_tag
                >> (mov_buffer_w32 O.buffer 0
                    >> (mov_buffer_w32 O.buffer 0 >> write_keys O.buffer 0 0 samples))))
          (stss_tag ++ be32 0) (number_bytes numbers) (length numbers) (λ j. u32 (12 + 4 + j * 4))
          (Writes-cast O (be32 0 ++ ((stss_tag ++ be32 0) ++ (be32 0 ++ number_bytes numbers)))
            (Writes-then O (Writes-w32 O 0) (
              Writes-then O (Writes-write O stss_tag) (
                Writes-then O (Writes-w32 O 0) (
                  Writes-then O (Writes-w32 O 0) (
                    subst (λ c. Writes O (write_keys O.buffer 0 0 samples) (number_bytes numbers) c)
                      none (Writes-keys 0 0 samples (omega (arith, n))))))))
            (ap (λ l. be32 0 ++ l) (sym (append_assoc stss_tag (be32 0) _))))
          tag_length)
        (ap (λ l. be32 (stss_size samples) ++ l) (append_assoc stss_tag (be32 0) _)
          ∙ sym (append_assoc (be32 (stss_size samples)) stss_tag _))

-- `fresh` with the samples marked that are key frames.
unfoldable pub mark_keys : List MovSample → List MovSample → List MovSample
mark_keys [] fresh = fresh
mark_keys (s ∷ samples) [] = []
mark_keys (s ∷ samples) (f ∷ fresh) =
    (if bit_and s.flags mov_av_flag_keyframe == 0
      then f
      else record f { flags = bit_or f.flags mov_av_flag_keyframe })
    ∷ mark_keys samples fresh

mark_key-append :
    (pre : List MovSample) (f : MovSample) (fresh : List MovSample)
    → mark_key (length pre) (pre ++ (f ∷ fresh))
      ≡ pre ++ (record f { flags = bit_or f.flags mov_av_flag_keyframe } ∷ fresh)
unfolding mark_key
mark_key-append [] f fresh = refl
mark_key-append (p ∷ pre) f fresh = ap (λ l. p ∷ l) (mark_key-append pre f fresh)

apply_key :
    (i : ℕ) (numbers : List ℕ) (pre : List MovSample) (f : MovSample) (fresh : List MovSample)
    → i ≡ length pre
    → mov_apply_stss ((i + 1) ∷ numbers) (pre ++ (f ∷ fresh))
      ≡ mov_apply_stss numbers
          ((pre ++ (record f { flags = bit_or f.flags mov_av_flag_keyframe } ∷ [])) ++ fresh)
unfolding mov_apply_stss
apply_key i numbers pre f fresh e =
    let g = record f { flags = bit_or f.flags mov_av_flag_keyframe } in
    let back : i + 1 - 1 ≡ length pre = omega arith in
    rw
      (
        lt→ltb 0 (i + 1) (omega arith),
        le→leb (i + 1) (length (pre ++ (f ∷ fresh))) (omega (arith, length-append pre (f ∷ fresh))),
        back,
        mark_key-append pre f fresh,
        append_assoc pre (g ∷ []) fresh,
      )
      refl

apply_none : (samples : List MovSample) → mov_apply_stss [] samples ≡ samples
unfolding mov_apply_stss
apply_none samples = refl

apply-keys :
    (i : ℕ) (pre samples fresh : List MovSample)
    → i ≡ length pre
    → length fresh ≡ length samples
    → mov_apply_stss (key_numbers i samples) (pre ++ fresh) ≡ pre ++ mark_keys samples fresh
unfolding key_numbers mark_keys
apply-keys i pre [] fresh e h = apply_none (pre ++ fresh)
apply-keys i pre (s ∷ samples) [] e h = absurd (omega arith)
apply-keys i pre (s ∷ samples) (f ∷ fresh) e h =
    let next : (g : MovSample)
        → mov_apply_stss (key_numbers (i + 1) samples) ((pre ++ (g ∷ [])) ++ fresh)
          ≡ pre ++ (g ∷ mark_keys samples fresh) =
      λ g.
        apply-keys (i + 1) (pre ++ (g ∷ [])) samples fresh
          (omega (arith, length-append pre (g ∷ []))) (omega arith)
        ∙ append_assoc pre (g ∷ []) (mark_keys samples fresh) in
    elim (Bool-cases (bit_and s.flags mov_av_flag_keyframe == 0)) [
      | inl t ↦ rw t (sym (ap (mov_apply_stss _) (append_assoc pre (f ∷ []) fresh)) ∙ next f)
      | inr t ↦ rw t (apply_key i _ pre f fresh e ∙ next _)
    ]

-- The key frames of fewer than 2^32 samples are written at the end of a file whose box has room,
-- and the list behind the box's size and type is read back from there, with no list before: no error is returned, and
-- the numbers, applied to an array of as many other samples, set the key frame flag of exactly
-- those that are key frames in the first and change nothing else.
pub mov_apply_stss-read :
    (O : MovOutput) (I : MovInput) (samples fresh : List MovSample) (out : MovIo O.State)
    (inp : MovIo I.State) (back : List ℕ)
    → length samples < 2 ^ 32
    → length fresh ≡ length samples
    → IsAtEnd O out
    → inp.error ≡ 0
    → I.remaining inp.param
      ≡ drop
          (length (O.contents out.param) + 8)
          (O.contents (mov_write_stss O.buffer samples out).1.param)
        ++ back
    → (((mov_read_stss I.buffer [] inp).0 >>= λ stss. done stss.1) ≡ done 0)
      × (((mov_read_stss I.buffer [] inp).0 >>= λ stss. done (mov_apply_stss stss.0 fresh))
          ≡ done (mark_keys samples fresh))
mov_apply_stss-read O I samples fresh out inp back n m e z h =
    let numbers = key_numbers 0 samples in
    let value : (mov_read_stss I.buffer [] inp).0 ≡ done (numbers, 0) =
      read-written O I (be32 (stss_size samples) ++ stss_tag)
        (be32 0 ++ (be32 (length numbers) ++ number_bytes numbers)) back out inp
        (Writes-stss O samples n)
        (Reads-stss I numbers (omega (arith, length-key_numbers 0 samples))
          (key_numbers-bound 0 samples (omega (arith, n))))
        e z (rw (header_length (stss_size samples)) h) in
    (rw value, rw value (ap (λ l. done l) (apply-keys 0 [] samples fresh refl m)))
