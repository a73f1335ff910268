-- ===== src/Mov/Memory.antt =====
-- Files in memory: an input that holds bytes, and an output with a position in what it holds.
use stream.Base.{
  ℕ, List, [], ◌++◌, ◌+◌, ◌≡◌, refl, sym, ◌∙◌, ap, length, take, drop, leb, if◌then◌else◌, le→leb,
  length-append, take-append, drop-append, drop-past, arith, zero, suc,
}
use mathlib.Core.List.{append-nil}
use stream.Mov.IoUtil.{MovBuffer}
use stream.Mov.Files.{MovInput, MovOutput}

-- Fewer bytes than asked for are an error, and none of them is taken.
abbrev read_bytes : List ℕ → ℕ → List ℕ × ℕ × List ℕ
read_bytes held n = if leb n (length held) then (drop n held, 0, take n held) else (held, 1, [])

abbrev source : MovBuffer (List ℕ)
source = record {
  read = read_bytes;
  write = λ held bytes. (held, 1);
  seek = λ held offset. (held, 1);
  tell = λ held. 0;
}

module _ (n : ℕ) (front back : List ℕ) (e : length front ≡ n) where
  pub read_bytes_lem : read_bytes (front ++ back) n ≡ (back, 0, front)
  read_bytes_lem = rw (
    le→leb n (length (front ++ back)) (omega (arith, length-append front back)),
    sym e,
    take-append front back,
    drop-append front back,
  )

abbrev pub memory_input : MovInput
memory_input = record {
  State = List ℕ;
  buffer = source;
  remaining = λ held. held;
  returns_ok = λ s n front back h e.
      ap (λ l. (read_bytes l n).1) h ∙ ap (λ r. r.1) (read_bytes_lem n front back e);
  delivers = λ s n front back h e.
      ap (λ l. (read_bytes l n).2) h ∙ ap (λ r. r.2) (read_bytes_lem n front back e);
  advances = λ s n front back h e.
      ap (λ l. (read_bytes l n).0) h ∙ ap (λ r. r.0) (read_bytes_lem n front back e);
}

-- The bytes, where they overwrite, and what is behind them.
abbrev put : List ℕ → ℕ → List ℕ → List ℕ
put held position bytes = take position held ++ (bytes ++ drop (position + length bytes) held)

abbrev file : MovBuffer (List ℕ × ℕ)
file = record {
  read = λ s n. (s, 1, []);
  write = λ s bytes. ((put s.0 s.1 bytes, s.1 + length bytes), 0);
  seek = λ s offset. ((s.0, offset), 0);
  tell = λ s. s.1;
}

drop-nil : (n : ℕ) → drop {A = ℕ} n [] ≡ []
drop-nil zero = refl
drop-nil (suc n) = refl

pub put-end : (held bytes : List ℕ) → put held (length held) bytes ≡ held ++ bytes
put-end held bytes =
    let front : take (length held) held ≡ held =
      ap (take (length held)) (sym (append-nil held)) ∙ take-append held [] in
    let back : drop (length held + length bytes) held ≡ [] =
      ap (drop (length held + length bytes)) (sym (append-nil held))
      ∙ drop-past held [] (length bytes)
      ∙ drop-nil (length bytes) in
    rw (front, back, append-nil) refl

pub put-inside :
    (front old back bytes : List ℕ)
    → length old ≡ length bytes
    → put (front ++ (old ++ back)) (length front) bytes ≡ front ++ (bytes ++ back)
put-inside front old back bytes e =
    rw
      (take-append front, drop-past front (old ++ back) (length bytes), sym e, drop-append old back)
      refl

abbrev pub memory_output : MovOutput
memory_output = record {
  State = List ℕ × ℕ;
  buffer = file;
  contents = λ s. s.0;
  position = λ s. s.1;
  takes_all = λ s bytes. refl;
  moves = λ s bytes. refl;
  appends = λ s bytes h. ap (λ p. put s.0 p bytes) h ∙ put-end s.0 bytes;
  overwrites = λ s front old back bytes c h e.
      ap (λ p. put s.0 p bytes) h
      ∙ ap (λ l. put l (length front) bytes) c
      ∙ put-inside front old back bytes e;
  tells = λ s. refl;
  seeks = λ s offset. refl;
  sought = λ s offset. refl;
  keeps = λ s offset. refl;
}
