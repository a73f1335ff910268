-- ===== src/Flv/Reader.antt =====
-- src/media-server/libflv/source/flv-reader.c over a callback `read`, which takes the source's
-- state and the number of bytes wanted.
use stream.Base.{
  ℕ, zero, suc, List, ◌+◌, ◌-◌, ◌==◌, ltb, leb, if◌then◌else◌, ◌&&◌, u32, length, Bool, true, false,
  Outcome, done, ◌>>=◌, ◌>>◌, assert,
}
use stream.Flv.Proto.{flv_header_size, flv_tag_header_size}
use stream.Flv.Read.{flv_header_read, flv_tag_header_read, flv_tag_size_read}

-- What `read` returns: the bytes that it stored, or a negative number -(n + 1).
pub data ReadResult : Type 0 where
  got : List ℕ → ReadResult
  broken : ℕ → ReadResult

-- What `flv_reader_read` stores through its pointers.
pub record FlvTag : Type 0 where
  pub tagtype : ℕ
  pub timestamp : ℕ
  pub payload : List ℕ

-- What `flv_reader_read` returns: 1 with a tag, 0 at the end, or a negative number.
pub data ReaderResult : Type 0 where
  tag_read : FlvTag → ReaderResult
  end_of_file : ReaderResult
  negative : ℕ → ReaderResult

-- `r < 0 ? r : 0`, where the callback stored less than was wanted.
abbrev pub short_read : ReadResult → ReaderResult
short_read (got bytes) = end_of_file
short_read (broken n) = negative (suc n)

abbrev pub is_full : ℕ → ReadResult → Bool
is_full n (got bytes) = n == length bytes
is_full n (broken m) = false

abbrev pub stored : ReadResult → List ℕ
stored (got bytes) = bytes
stored (broken n) = List.[]

module _ {S : Type 0} (read : S → ℕ → S × ReadResult) where
  -- `for (n = …; n > 0 && n < 4096; n -= 9) read(…, n >= 9 ? 9 : n);`
  unfoldable pub skip_loop : ℕ → ℕ → S → S
  skip_loop zero n s = s
  skip_loop (suc fuel) n s =
      let s' = (read s (if leb flv_header_size n then flv_header_size else n)).0 in
      let rest = skip_loop fuel (n - flv_header_size) s' in
      if ltb 0 n && ltb n 4096 then rest else s

  unfoldable pub flv_read_header : S → Outcome (S × Bool)
  flv_read_header s = do
    let (s₁, r₁) = read s flv_header_size
    if is_full flv_header_size r₁
        then (do
          (n, h) ← flv_header_read (stored r₁) flv_header_size
          assert (leb flv_header_size h.offset && ltb h.offset (flv_header_size + 4096))
          let n = h.offset - flv_header_size
          let s₂ = skip_loop n n s₁
          let (s₃, r₃) = read s₂ 4
          if is_full 4 r₃
              then (do
                (_, size) ← flv_tag_size_read (stored r₃) 4
                assert (0 == size)
                done (s₃, true))
              else done (s₃, false))
        else done (s₁, false)

  -- The reader is the source; false where the header is refused and no reader is made.
  unfoldable pub flv_reader_create2 : S → Outcome (S × Bool)
  unfolding flv_read_header
  flv_reader_create2 s = flv_read_header s

  -- `bytes` is the room that the caller's buffer has.
  unfoldable pub flv_reader_read : S → ℕ → Outcome (S × ReaderResult)
  flv_reader_read s bytes = do
    let (s₁, r₁) = read s flv_tag_header_size
    if is_full flv_tag_header_size r₁
        then (do
          (_, tag) ← flv_tag_header_read (stored r₁) flv_tag_header_size
          let (s₂, r₂) = read s₁ tag.size
          let (s₃, r₃) = read s₂ 4
          if ltb bytes tag.size
              then done (s₁, negative 1)
              else if is_full tag.size r₂
              then (if is_full 4 r₃
                  then (do
                    (_, size) ← flv_tag_size_read (stored r₃) 4
                    assert (0 == tag.stream_id)
                    assert (size == u32 (tag.size + flv_tag_header_size))
                    done (
                      s₃,
                      tag_read (record {
                        tagtype = tag.type;
                        timestamp = tag.timestamp;
                        payload = stored r₂;
                      }),
                    ))
                  else done (s₃, short_read r₃))
              else done (s₂, short_read r₂))
        else done (s₁, short_read r₁)
