-- ===== src/Mpeg/SystemHeaderRoundTrip.antt =====
-- src/media-server/libmpeg/source/mpeg-system-header.c: system_header_read of what
-- system_header_write wrote.
use stream.Base.{
  ℕ, suc, List, [], ◌∷◌, ◌++◌, ◌+◌, ◌*◌, ◌/◌, ◌%◌, ◌^◌, ◌≤◌, ◌<◌, ◌≡◌, refl, sym, ◌≢◌, ◌==◌,
  bit_and, bit_or, ◌<<<◌, ◌>>>◌, false, length, drop, length-append, length-drop, drop-drop,
  drop-append, lt→ltb, All, arith, done, ◌>>=◌,
}
use mathlib.Core.List.{append_assoc, append-nil}
use native.Mathlib.Nat.{add-zero}
use mathlib.Core.Path.{subst}
use stream.Base.Bits.{mask_low, mask_field, or_low}
use stream.Base.Bytes.{byte_mask}
use stream.Base.Buffer.{store-extend, load-behind}
use stream.Mpeg.SystemHeader.{
  PsStreamHeader, pes_sid_extension, read_extid, read_stream, read_streams, stream_bytes,
  write_streams,
}

-- A stream that is written without an extension.
pub record IsPlainStream (s : PsStreamHeader) : Type 0 where
  pub id_high : 0x80 ≤ s.stream_id
  pub id_byte : s.stream_id < 0x100
  pub no_extension : s.stream_id ≢ pes_sid_extension
  pub scale_bit : s.buffer_bound_scale < 2
  pub size_bits : s.buffer_size_bound < 2 ^ 13

plain_bytes : PsStreamHeader → List ℕ
plain_bytes s =
    s.stream_id
    ∷ (0xC0 + s.buffer_bound_scale * 32 + s.buffer_size_bound / 256)
    ∷ (s.buffer_size_bound % 256)
    ∷ []

all_bytes : List PsStreamHeader → List ℕ
all_bytes [] = []
all_bytes (s ∷ ss) = plain_bytes s ++ all_bytes ss

bound_byte :
    (c z : ℕ)
    → c < 2
    → z < 2 ^ 13
    → bit_or (bit_or 0xC0 (bit_and c 0x01 <<< 5)) (bit_and (z >>> 8) 0x1F) ≡ 0xC0 + c * 32 + z / 256
bound_byte c z p q = ground (
  arith,
  mask_low 1 c,
  mask_low 5 (z >>> 8),
  or_low 6 0xC0 (c <<< 5),
  or_low 5 (0xC0 + c * 32) (z / 256),
)

not_extension : (n : ℕ) → n ≢ pes_sid_extension → (pes_sid_extension == n) ≡ false
not_extension n h = ground arith

stream_bytes-plain : (s : PsStreamHeader) → IsPlainStream s → stream_bytes s ≡ plain_bytes s
unfolding stream_bytes plain_bytes
stream_bytes-plain s h = rw (
  not_extension s.stream_id h.no_extension,
  bound_byte s.buffer_bound_scale s.buffer_size_bound h.scale_bit h.size_bits,
  byte_mask s.buffer_size_bound,
)

-- What the reader makes of a stream: the upper five bits of the size land on the lower eight.
unfoldable pub misread_stream : PsStreamHeader → PsStreamHeader → PsStreamHeader
misread_stream s old = record old {
  stream_id = s.stream_id;
  buffer_bound_scale = s.buffer_bound_scale;
  buffer_size_bound = bit_or (s.buffer_size_bound / 256) (s.buffer_size_bound % 256);
}

unfoldable pub misread_streams : List PsStreamHeader → List PsStreamHeader → List PsStreamHeader
misread_streams [] slots = slots
misread_streams (s ∷ ss) [] = []
misread_streams (s ∷ ss) (o ∷ slots) = misread_stream s o ∷ misread_streams ss slots

id_marker : (n : ℕ) → 0x80 ≤ n → n < 0x100 → bit_and n 0x80 ≡ 0x80
id_marker n p q = ground (arith, mask_field 7 1 n)

bound_marker : (c z : ℕ) → c < 2 → z < 32 → bit_and (0xC0 + c * 32 + z) 0xC0 ≡ 0xC0
bound_marker c z p q = ground (arith, mask_field 6 2 (0xC0 + c * 32 + z))

bound_scale : (c z : ℕ) → c < 2 → z < 32 → bit_and ((0xC0 + c * 32 + z) >>> 5) 0x1 ≡ c
bound_scale c z p q = ground (arith, mask_low 1 (6 + c))

bound_size : (c z : ℕ) → c < 2 → z < 32 → bit_and (0xC0 + c * 32 + z) 0x1F ≡ z
bound_size c z p q = ground (arith, mask_low 5 (0xC0 + c * 32 + z))

equal_tests : (n : ℕ) → n ≢ pes_sid_extension → (n == pes_sid_extension) ≡ false
equal_tests n h = ground arith

end_marker : (b : ℕ) → b < 0x80 → bit_and b 0x80 ≡ 0
end_marker b h = ground (arith, mask_field 7 1 b)

three_on : (i : ℕ) → i + 1 + 2 ≡ i + 3
three_on i = omega arith

read_stream-bytes :
    (s o : PsStreamHeader) (i : ℕ) (front rest : List ℕ)
    → i ≡ length front
    → IsPlainStream s
    → read_stream (front ++ (plain_bytes s ++ rest)) i o ≡ done (i + 3, misread_stream s o)
unfolding read_stream read_extid plain_bytes misread_stream
read_stream-bytes s o i front rest e c =
    let behind = plain_bytes s ++ rest in
    let z = s.buffer_size_bound / 256 in
    rw (load-behind front behind i 0 (omega arith), equal_tests s.stream_id c.no_extension)
      (rw (
        load-behind front behind (i + 1) 1 (omega arith),
        load-behind front behind (i + 1 + 1) 2 (omega arith),
        bound_marker s.buffer_bound_scale z c.scale_bit (omega arith),
        bound_scale s.buffer_bound_scale z c.scale_bit (omega arith),
        bound_size s.buffer_bound_scale z c.scale_bit (omega arith),
        three_on i,
      ))

read_streams-bytes :
    (ss slots : List PsStreamHeader) (bytes i b : ℕ) (front rest : List ℕ)
    → i ≡ length front
    → length ss ≤ length slots
    → All IsPlainStream ss
    → i + length ss * 3 ≤ bytes
    → b < 0x80
    → read_streams (front ++ (all_bytes ss ++ (b ∷ rest))) bytes i slots
      ≡ done (misread_streams ss slots)
unfolding read_streams all_bytes plain_bytes misread_streams
read_streams-bytes [] [] bytes i b front rest e h q r m =
    rw (load-behind front (b ∷ rest) i 0 (omega arith))
read_streams-bytes [] (o ∷ slots) bytes i b front rest e h q r m =
    rw (load-behind front (b ∷ rest) i 0 (omega arith), end_marker b m)
read_streams-bytes (s ∷ ss) [] bytes i b front rest e h q r m = absurd (omega arith)
read_streams-bytes (s ∷ ss) (o ∷ slots) bytes i b front rest e h (c, cs) r m =
    let tail = all_bytes ss ++ (b ∷ rest) in
    let behind = all_bytes (s ∷ ss) ++ (b ∷ rest) in
    let later : read_streams (front ++ behind) bytes (i + 3) slots
        ≡ done (misread_streams ss slots) =
      subst (λ l. read_streams l bytes (i + 3) slots ≡ done (misread_streams ss slots))
        (append_assoc front (plain_bytes s) tail)
        (read_streams-bytes ss slots bytes (i + 3) b (front ++ plain_bytes s) rest
          (omega (arith, length-append front (plain_bytes s))) (omega arith) cs (omega arith) m) in
    rw
      (
        load-behind front behind i 0 (omega arith),
        id_marker s.stream_id c.id_high c.id_byte,
        lt→ltb i bytes (omega arith),
        read_stream-bytes s o i front tail e c,
      )
      (rw later)

three_first : (n : ℕ) → 3 + n * 3 ≡ suc n * 3
three_first n = omega arith

three_more : (i n : ℕ) → i + 3 + n * 3 ≡ i + suc n * 3
three_more i n = omega arith

write_streams-bytes :
    (ss unused : List PsStreamHeader) (i : ℕ) (front room : List ℕ)
    → i ≡ length front
    → length ss * 3 ≤ length room
    → All IsPlainStream ss
    → write_streams (length ss) (ss ++ unused) i (front ++ room)
      ≡ done (i + length ss * 3, (front ++ all_bytes ss) ++ drop (length ss * 3) room)
unfolding write_streams all_bytes plain_bytes
write_streams-bytes [] unused i front room e h q = rw (append-nil, add-zero)
write_streams-bytes (s ∷ ss) unused i front room e h (c, cs) = rw (
  stream_bytes-plain s c,
  store-extend i front (plain_bytes s) room e (omega arith),
  write_streams-bytes ss unused (i + 3) (front ++ plain_bytes s) (drop 3 room)
      (omega (arith, length-append front (plain_bytes s))) (omega (arith, length-drop 3 room)) cs,
  drop-drop (length ss * 3) 3 room,
  append_assoc front (plain_bytes s) (all_bytes ss),
  three_more i (length ss),
  three_first (length ss),
)

-- Streams (with ids from 0x80 on but 0xB7, which announces an extension, a scale of one bit and a
-- size of 13 bits) that system_header_write puts behind the fixed part of the header, before a
-- byte below 0x80, are read by the loop of system_header_read into the first entries of an array
-- with room for them: id and scale as they were, but of the size only the lower eight bits with
-- the upper five laid over them.
pub read_streams-write :
    (ss unused slots : List PsStreamHeader) (bytes b : ℕ) (front room rest : List ℕ)
    → All IsPlainStream ss
    → length ss ≤ length slots
    → length room ≡ length ss * 3
    → length front + length ss * 3 ≤ bytes
    → b < 0x80
    → (write_streams (length ss) (ss ++ unused) (length front) (front ++ (room ++ (b ∷ rest)))
        >>= λ x. read_streams x.1 bytes (length front) slots)
      ≡ done (misread_streams ss slots)
read_streams-write ss unused slots bytes b front room rest c h e r m = rw (
  write_streams-bytes ss unused (length front) front (room ++ (b ∷ rest)) refl
      (omega (arith, e, length-append room (b ∷ rest))) c,
  sym e,
  drop-append room (b ∷ rest),
  append_assoc front (all_bytes ss) (b ∷ rest),
  read_streams-bytes ss slots bytes (length front) b front rest refl h c r m,
)
