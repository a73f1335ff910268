-- ===== src/Flv/FileRoundTrip.antt =====
-- src/media-server/libflv/source/flv-writer.c and flv-reader.c: a whole file, from the calls of the
-- writer to the calls of the reader.
use stream.Base.{
  ℕ, zero, suc, ◌^◌, ◌≤◌, ◌<◌, ◌≡◌, refl, sym, ◌∙◌, arith, List, [], ◌∷◌, ◌++◌, length,
  length-append, true, Option, Outcome, done, failed, ◌>>=◌, All, if◌then◌else◌,
}
use mathlib.Core.List.{append_assoc, append-nil}
use stream.Flv.Proto.{is_tag_type, flv_type_video}
use stream.Flv.Writer.{flv_writer_input, flv_writer_create2, flv_writer_destroy}
use stream.Flv.Reader.{
  FlvTag, ReaderResult, tag_read, end_of_file, negative, ReadResult, flv_reader_read,
  flv_reader_create2,
}
use stream.Flv.Streams.{ByteSink, ByteSource}
use stream.Flv.TagStream.{tag_image, flv_writer_input-tag_image, flv_reader_read-tag_image}
use stream.Flv.FileHeader.{
  file_header, eos_payload, flv_writer_create2-file_header, flv_writer_destroy-eos,
  flv_reader_create2-file_header,
}

-- The tags that a file can carry: known types, sizes of 24 bits that fit the reader's buffer.
pub record IsFileTag (room : ℕ) (tag : FlvTag) : Type 0 where
  pub known : is_tag_type tag.tagtype ≡ true
  pub timestamp_bits : tag.timestamp < 2 ^ 32
  pub size_bits : length tag.payload < 2 ^ 24
  pub fits : length tag.payload ≤ room

abbrev pub image_of : FlvTag → List ℕ
image_of tag = tag_image tag.tagtype tag.timestamp tag.payload

abbrev pub images : List FlvTag → List ℕ
images [] = []
images (tag ∷ tags) = image_of tag ++ images tags

-- A client that writes one tag after the other, until a call fails.
unfoldable pub write_tags : {S : Type 0} → (S → List ℕ → S × Option ℕ) → S → List FlvTag → Outcome S
write_tags write s [] = done s
write_tags write s (tag ∷ tags) = do
  (s', written) ←
      flv_writer_input write s tag.tagtype tag.payload (length tag.payload) tag.timestamp
  let rest = write_tags write s' tags
  if written then rest else failed 1

-- A client that creates a writer, writes the tags, and destroys the writer.
unfoldable pub write_file : {S : Type 0} → (S → List ℕ → S × Option ℕ) → S → List FlvTag → Outcome S
write_file write s tags = do
  (s₁, made) ← flv_writer_create2 write s
  if made then (do s₂ ← write_tags write s₁ tags; flv_writer_destroy write s₂) else failed 1

-- A client that reads at most `n` tags, and stops where `flv_reader_read` does not return 1.
unfoldable pub read_tags :
    {S : Type 0} → (S → ℕ → S × ReadResult) → ℕ → ℕ → S → Outcome (List FlvTag × ReaderResult)
read_tags read room zero s = do (_, last) ← flv_reader_read read s room; done ([], last)
read_tags read room (suc n) s = do
  (s', result) ← flv_reader_read read s room
  elim result [
    | tag_read tag ↦ (do (tags, last) ← read_tags read room n s'; done (tag ∷ tags, last))
    | end_of_file ↦ done ([], end_of_file)
    | negative m ↦ done ([], negative m)
  ]

unfoldable pub read_file :
    {S : Type 0} → (S → ℕ → S × ReadResult) → ℕ → ℕ → S → Outcome (List FlvTag × ReaderResult)
read_file read room n s = do
  (s', made) ← flv_reader_create2 read s
  if made then read_tags read room n s' else failed 1

write_tags-images :
    (k : ByteSink) (s : k.State) (room : ℕ) (tags : List FlvTag)
    → All (IsFileTag room) tags
    → (s' : k.State) × (write_tags k.write s tags ≡ done s')
      × (k.contents s' ≡ k.contents s ++ images tags)
unfolding write_tags
write_tags-images k s room [] v = (s, refl, sym (append-nil (k.contents s)))
write_tags-images k s room (tag ∷ tags) (v, vs) =
    let (s₁, e₁, c₁) =
      flv_writer_input-tag_image k s tag.tagtype tag.timestamp tag.payload [] v.known
        (omega (arith, v)) in
    let (s₂, e₂, c₂) = write_tags-images k s₁ room tags vs in
    (s₂, rw (rw append-nil at e₁) e₂, c₂ ∙ rw c₁ (simp append_assoc))

-- A file's header, tags and end mark.
abbrev pub file_image : List FlvTag → List ℕ
file_image tags = file_header ++ (images tags ++ tag_image flv_type_video 0 eos_payload)

-- On an empty sink the writer's calls all succeed and leave the image of the file.
pub write_file-file_image :
    (k : ByteSink) (s : k.State) (room : ℕ) (tags : List FlvTag)
    → All (IsFileTag room) tags
    → k.contents s ≡ []
    → (s' : k.State) × (write_file k.write s tags ≡ done s') × (k.contents s' ≡ file_image tags)
unfolding write_file
write_file-file_image k s room tags v empty =
    let (s₁, e₁, c₁) = flv_writer_create2-file_header k s in
    let (s₂, e₂, c₂) = write_tags-images k s₁ room tags v in
    let (s₃, e₃, c₃) = flv_writer_destroy-eos k s₂ in
    (s₃, rw (e₁, e₂) e₃, c₃ ∙ rw (c₂, c₁, empty) (simp append_assoc))

abbrev pub eos_tag : FlvTag
eos_tag = record { tagtype = flv_type_video; timestamp = 0; payload = eos_payload }

flv_reader_read-end :
    (r : ByteSource) (s : r.State) (room : ℕ)
    → r.remaining s ≡ []
    → (s' : r.State) × (flv_reader_read r.read s room ≡ done (s', end_of_file))
unfolding flv_reader_read
flv_reader_read-end r s room e = ((r.read s 11).0, rw (r.ends s 11 e (omega arith)))

read_tags-images :
    (r : ByteSource) (s : r.State) (room : ℕ) (tags : List FlvTag)
    → All (IsFileTag room) tags
    → r.remaining s ≡ images tags
    → read_tags r.read room (length tags) s ≡ done (tags, end_of_file)
unfolding read_tags
read_tags-images r s room [] v e = let (s', e') = flv_reader_read-end r s room e in rw e'
read_tags-images r s room (tag ∷ tags) (v, vs) e =
    let (s₁, e₁, c₁) =
      flv_reader_read-tag_image r s room tag.tagtype tag.timestamp tag.payload (images tags) v.known
        v.timestamp_bits v.size_bits v.fits e in
    rw (e₁, read_tags-images r s₁ room tags vs c₁)

images-append : (xs ys : List FlvTag) → images (xs ++ ys) ≡ images xs ++ images ys
images-append [] ys = refl
images-append (x ∷ xs) ys =
    rw (images-append xs ys) (sym (append_assoc (image_of x) (images xs) (images ys)))

All-append {ℓ κ} :
    {A : Type ℓ} (P : A → Type κ) (xs ys : List A) → All P xs → All P ys → All P (xs ++ ys)
All-append P [] ys p q = q
All-append P (x ∷ xs) ys (h, p) q = (h, All-append P xs ys p q)

-- The tags that the writer's calls put into an empty file are those that the reader's calls return
-- of it, in order and followed by the end of sequence; then the file ends.
pub read_file-write_file :
    (k : ByteSink) (r : ByteSource) (reopen : k.State → r.State)
    → ((s : k.State) → r.remaining (reopen s) ≡ k.contents s)
    → (s : k.State) (room : ℕ) (tags : List FlvTag) → k.contents s ≡ []
    → 5 ≤ room
    → All (IsFileTag room) tags
    → (write_file k.write s tags >>= λ s'. read_file r.read room (suc (length tags)) (reopen s'))
      ≡ done (tags ++ (eos_tag ∷ []), end_of_file)
unfolding read_file
read_file-write_file k r reopen same s room tags empty wide v =
    let eos : All (IsFileTag room) (eos_tag ∷ []) = (
      record { known = refl; timestamp_bits = omega arith; size_bits = omega arith; fits = wide },
      tt,
    ) in
    let (s', e', c') = write_file-file_image k s room tags v empty in
    let (t, e, c) =
      flv_reader_create2-file_header r (reopen s') (images tags ++ image_of eos_tag)
        (same s' ∙ c') in
    let all : List FlvTag = tags ++ (eos_tag ∷ []) in
    let remaining : r.remaining t ≡ images all =
      c ∙ rw (images-append tags (eos_tag ∷ []), append-nil (image_of eos_tag)) in
    let counted : suc (length tags) ≡ length all =
      omega (arith, length-append tags (eos_tag ∷ [])) in
    rw (e', e, counted)
      (read_tags-images r t room all (All-append (IsFileTag room) tags _ v eos) remaining)
