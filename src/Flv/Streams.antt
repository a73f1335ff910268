-- ===== src/Flv/Streams.antt =====
-- The callbacks that flv-writer.c and flv-reader.c are given (`fwrite` and `fread` on a file): a
-- sink that takes all it is given, and a source that delivers what it holds.
use stream.Base.{ℕ, ◌<◌, ◌≡◌, List, [], ◌++◌, length, Option, some}
use stream.Flv.Reader.{ReadResult, got}

pub record ByteSink : Type 1 where
  pub State : Type 0
  pub write : State → List ℕ → State × Option ℕ
  pub contents : State → List ℕ
  pub takes_all : (s : State) (bytes : List ℕ) → (write s bytes).1 ≡ some (length bytes)
  pub appends : (s : State) (bytes : List ℕ) → contents (write s bytes).0 ≡ contents s ++ bytes

pub record ByteSource : Type 1 where
  pub State : Type 0
  pub read : State → ℕ → State × ReadResult
  pub remaining : State → List ℕ
  pub delivers :
      (s : State) (n : ℕ) (front back : List ℕ)
      → remaining s ≡ front ++ back
      → length front ≡ n
      → (read s n).1 ≡ got front
  pub advances :
      (s : State) (n : ℕ) (front back : List ℕ)
      → remaining s ≡ front ++ back
      → length front ≡ n
      → remaining (read s n).0 ≡ back
  pub ends : (s : State) (n : ℕ) → remaining s ≡ [] → 0 < n → (read s n).1 ≡ got []
