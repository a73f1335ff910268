-- ===== src/Base/Buffer.antt =====
-- C arrays of bytes as lists: reads and writes by index, a fault outside of the array.
use stream.Base.Tests.{leb, if◌then◌else◌}
use stream.Base.Lists.{length, get_elem?, take, drop}
use stream.Base.Outcomes.{Outcome, done, fault, at_index, ◌>>=◌}
use Prim.Native.Nat.{ℕ, zero, suc, ◌+◌, ◌≤◌}
use native.Mathlib.Nat.{zero-add, suc-add}
use mathlib.Core.Path.{◌≡◌, refl, sym, ap, ◌∙◌}
use mathlib.Core.List.{List, [], ◌∷◌, ◌++◌, append_assoc}
use native.Mathlib.Omega.{arith}

-- `data[i]`
abbrev pub load : List ℕ → ℕ → Outcome ℕ
load buf i = at_index (get_elem? buf i)

-- The bytes that `memcpy(p, xs, n)` reads.
abbrev pub first_bytes : ℕ → List ℕ → Outcome (List ℕ)
first_bytes n xs = if leb n (length xs) then done (take n xs) else fault

-- The buffer with `bytes` in place of what stands from an index on.
unfoldable pub patch : ℕ → List ℕ → List ℕ → List ℕ
patch (suc n) bytes (x ∷ buf) = x ∷ patch n bytes buf
patch zero (b ∷ bytes) (x ∷ buf) = b ∷ patch zero bytes buf
patch _ _ buf = buf

-- `data[i] = b0; data[i + 1] = b1; …`
unfoldable pub store : ℕ → List ℕ → List ℕ → Outcome (List ℕ)
store i bytes buf = if leb (i + length bytes) (length buf) then done (patch i bytes buf) else fault

pub patch-zero :
    (bytes buf : List ℕ)
    → length bytes ≤ length buf
    → patch zero bytes buf ≡ bytes ++ drop (length bytes) buf
unfolding patch
patch-zero [] [] h = refl
patch-zero [] (x ∷ buf) h = refl
patch-zero (b ∷ bytes) [] h = absurd (omega arith)
patch-zero (b ∷ bytes) (x ∷ buf) h = ap (λ l. b ∷ l) (patch-zero bytes buf (omega arith))

-- A store at the start of a buffer with enough room.
pub store-front :
    (bytes buf : List ℕ)
    → length bytes ≤ length buf
    → store 0 bytes buf ≡ done (bytes ++ drop (length bytes) buf)
unfolding store
store-front bytes buf h = ground (arith, patch-zero bytes buf)

store-suc :
    (i x : ℕ) (bytes buf : List ℕ)
    → store (suc i) bytes (x ∷ buf) ≡ (store i bytes buf >>= λ out. done (x ∷ out))
unfolding store patch
store-suc i x bytes buf = ground arith

-- A store behind the bytes `front`, with enough room.
pub store-behind :
    (front bytes buf : List ℕ)
    → length bytes ≤ length buf
    → store (length front) bytes (front ++ buf) ≡ done (front ++ (bytes ++ drop (length bytes) buf))
store-behind [] bytes buf h = store-front bytes buf h
store-behind (x ∷ front) bytes buf h =
    store-suc (length front) x bytes (front ++ buf) ∙ rw (store-behind front bytes buf h)

-- The same, for a buffer whose first part is given by its length.
pub store-extend :
    (i : ℕ) (front bytes room : List ℕ)
    → i ≡ length front
    → length bytes ≤ length room
    → store i bytes (front ++ room) ≡ done ((front ++ bytes) ++ drop (length bytes) room)
store-extend i front bytes room e h = rw e (
    store-behind front bytes room h
    ∙ ap (λ l. done l) (sym (append_assoc front bytes (drop (length bytes) room))))

get_elem?-append :
    (front xs : List ℕ) (k : ℕ) → get_elem? (front ++ xs) (length front + k) ≡ get_elem? xs k
get_elem?-append [] xs k = rw zero-add
get_elem?-append (x ∷ front) xs k = rw suc-add (get_elem?-append front xs k)

pub load-behind :
    (front xs : List ℕ) (i k : ℕ) → i ≡ length front + k → load (front ++ xs) i ≡ load xs k
load-behind front xs i k e = rw e (ap at_index (get_elem?-append front xs k))
