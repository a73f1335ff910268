-- ===== src/Mov/Files.antt =====
-- What the callbacks of include/mov-buffer.h are relied on for: an input that delivers what it
-- holds, and a file that takes what is written at its end or over what stands there. A call over
-- them is described by the bytes that it takes or adds.
use stream.Base.{
  ℕ, List, [], ◌++◌, ◌+◌, ◌≡◌, refl, sym, ◌∙◌, ap, length, drop, drop-past, drop-append, ap,
}
use mathlib.Core.Path.{subst}
use mathlib.Core.List.{append_assoc, append-nil}
use stream.Mov.IoUtil.{MovBuffer, MovIo, Call, ◌>>=◌, ◌>>◌, pure}

pub record MovInput : Type 1 where
  pub State : Type 0
  pub buffer : MovBuffer State
  pub remaining : State → List ℕ
  pub returns_ok :
      (s : State) (n : ℕ) (front back : List ℕ)
      → remaining s ≡ front ++ back
      → length front ≡ n
      → (buffer.read s n).1 ≡ 0
  pub delivers :
      (s : State) (n : ℕ) (front back : List ℕ)
      → remaining s ≡ front ++ back
      → length front ≡ n
      → (buffer.read s n).2 ≡ front
  pub advances :
      (s : State) (n : ℕ) (front back : List ℕ)
      → remaining s ≡ front ++ back
      → length front ≡ n
      → remaining (buffer.read s n).0 ≡ back

-- A file with a position.
pub record MovOutput : Type 1 where
  pub State : Type 0
  pub buffer : MovBuffer State
  pub contents : State → List ℕ
  pub position : State → ℕ
  pub takes_all : (s : State) (bytes : List ℕ) → (buffer.write s bytes).1 ≡ 0
  pub moves :
      (s : State) (bytes : List ℕ) → position (buffer.write s bytes).0 ≡ position s + length bytes
  pub appends :
      (s : State) (bytes : List ℕ)
      → position s ≡ length (contents s)
      → contents (buffer.write s bytes).0 ≡ contents s ++ bytes
  pub overwrites :
      (s : State) (front old back bytes : List ℕ)
      → contents s ≡ front ++ (old ++ back)
      → position s ≡ length front
      → length old ≡ length bytes
      → contents (buffer.write s bytes).0 ≡ front ++ (bytes ++ back)
  pub tells : (s : State) → buffer.tell s ≡ position s
  pub seeks : (s : State) (offset : ℕ) → (buffer.seek s offset).1 ≡ 0
  pub sought : (s : State) (offset : ℕ) → position (buffer.seek s offset).0 ≡ offset
  pub keeps : (s : State) (offset : ℕ) → contents (buffer.seek s offset).0 ≡ contents s

module _ (I : MovInput) where
  -- Where no error stands and `bytes` come next, the call returns `a`, with no error, and leaves
  -- what is behind them.
  pub record Reads {ℓ} {A : Type ℓ} (m : Call I.State A) (bytes : List ℕ) (a : A) : Type ℓ where
    pub runs :
        (io : MovIo I.State) (back : List ℕ)
        → io.error ≡ 0
        → I.remaining io.param ≡ bytes ++ back
        → ((m io).0 ≡ a) × ((m io).1.error ≡ 0) × (I.remaining (m io).1.param ≡ back)

  pub Reads-bind {ℓ κ} :
      {A : Type ℓ} {B : Type κ} {m : Call I.State A} {front bytes : List ℕ} {a : A} {b : B}
      (f : A → Call I.State B)
      → Reads m front a
      → Reads (f a) bytes b
      → Reads (m >>= f) (front ++ bytes) b
  unfolding ◌>>=◌
  Reads-bind {m = m} {front = front} {bytes = bytes} {b = b} f p q = record {
    runs = λ io back e r.
        let (x, y, z) = p.runs io (bytes ++ back) e (r ∙ append_assoc front bytes back) in
        subst
          (λ c.
            ((f c (m io).1).0 ≡ b)
            × ((f c (m io).1).1.error ≡ 0)
            × (I.remaining (f c (m io).1).1.param ≡ back))
          (sym x) (q.runs (m io).1 back y z);
  }

  pub Reads-pure {ℓ} : {A : Type ℓ} (a : A) → Reads (pure a) [] a
  unfolding pure
  Reads-pure a = record { runs = λ io back e r. (refl, e, r) }

  pub Reads-cast {ℓ} :
      {A : Type ℓ} {m : Call I.State A} {bytes : List ℕ} {a : A} (bytes' : List ℕ) (a' : A)
      → Reads m bytes a
      → bytes ≡ bytes'
      → a ≡ a'
      → Reads m bytes' a'
  Reads-cast {m = m} {a = a} bytes' a' p e e' =
      subst (λ x. Reads m bytes' x) e' (subst (λ x. Reads m x a) e p)

module _ (O : MovOutput) where
  -- No error, and the position at the end of the file.
  abbrev pub IsAtEnd : MovIo O.State → Type 0
  IsAtEnd io = (io.error ≡ 0) × (O.position io.param ≡ length (O.contents io.param))

  -- At the end of the file the call returns `a` and adds `bytes`.
  pub record Writes {ℓ} {A : Type ℓ} (m : Call O.State A) (bytes : List ℕ) (a : A) : Type ℓ where
    pub runs :
        (io : MovIo O.State)
        → IsAtEnd io
        → ((m io).0 ≡ a)
          × IsAtEnd (m io).1
          × (O.contents (m io).1.param ≡ O.contents io.param ++ bytes)

  pub Writes-bind {ℓ κ} :
      {A : Type ℓ} {B : Type κ} {m : Call O.State A} {front bytes : List ℕ} {a : A} {b : B}
      (f : A → Call O.State B)
      → Writes m front a
      → Writes (f a) bytes b
      → Writes (m >>= f) (front ++ bytes) b
  unfolding ◌>>=◌
  Writes-bind {m = m} {front = front} {bytes = bytes} {b = b} f p q = record {
    runs = λ io e.
        let (x, y, z) = p.runs io e in
        let (x', y', z') = q.runs (m io).1 y in
        subst
          (λ c.
            ((f c (m io).1).0 ≡ b)
            × IsAtEnd (f c (m io).1).1
            × (O.contents (f c (m io).1).1.param ≡ O.contents io.param ++ (front ++ bytes)))
          (sym x)
          (x', y', z' ∙ ap (λ l. l ++ bytes) z ∙ append_assoc (O.contents io.param) front bytes);
  }

  -- The same for a call that returns nothing.
  pub Writes-then {ℓ} :
      {B : Type ℓ} {m : Call O.State (Unit {0})} {k : Call O.State B} {front bytes : List ℕ} {b : B}
      → Writes m front tt
      → Writes k bytes b
      → Writes (m >> k) (front ++ bytes) b
  unfolding ◌>>◌
  Writes-then p q = Writes-bind _ p q

  pub Writes-pure {ℓ} : {A : Type ℓ} (a : A) → Writes (pure a) [] a
  unfolding pure
  Writes-pure a = record { runs = λ io e. (refl, e, sym (append-nil (O.contents io.param))) }

  pub Writes-cast {ℓ} :
      {A : Type ℓ} {m : Call O.State A} {a : A} {bytes : List ℕ} (bytes' : List ℕ)
      → Writes m bytes a
      → bytes ≡ bytes'
      → Writes m bytes' a
  Writes-cast {m = m} {a = a} bytes' p e = subst (λ x. Writes m x a) e p

-- What a writer adds to a file, a reader that starts behind the header of it reads back.
pub read-written {ℓ κ} :
    (O : MovOutput) (I : MovInput) {A : Type ℓ} {B : Type κ} {write : Call O.State A}
    {read : Call I.State B} {a : A} {b : B} (header payload back : List ℕ) (out : MovIo O.State)
    (inp : MovIo I.State)
    → Writes O write (header ++ payload) a
    → Reads I read payload b
    → IsAtEnd O out
    → inp.error ≡ 0
    → I.remaining inp.param
      ≡ drop (length (O.contents out.param) + length header) (O.contents (write out).1.param)
        ++ back
    → (read inp).0 ≡ b
read-written O I {write = write} {read = read} header payload back out inp w r e z h =
    let before = O.contents out.param in
    let (x, y, added) = w.runs out e in
    let left : drop (length before + length header) (O.contents (write out).1.param) ≡ payload =
      ap (λ l. drop (length before + length header) l) added
      ∙ drop-past before (header ++ payload) (length header)
      ∙ drop-append header payload in
    let (v, f, g) = r.runs inp back z (h ∙ ap (λ l. l ++ back) left) in v
