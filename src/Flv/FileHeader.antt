-- ===== src/Flv/FileHeader.antt =====
-- src/media-server/libflv/source/flv-writer.c and flv-reader.c: the file header and the end of
-- sequence, written and read.
use stream.Base.{arith, ℕ, ◌≡◌, refl, List, [], ◌∷◌, ◌++◌, true, done}
use stream.Base.Buffer.{store, patch}
use stream.Flv.Proto.{flv_type_video}
use stream.Flv.Read.{flv_header_read, flv_tag_size_read}
use stream.Flv.Write.{flv_header_write, flv_tag_size_write, flv_video_tag_header_write}
use stream.Flv.Writer.{
  flv_write_header, flv_writer_create2, flv_writer_destroy, flv_write_eos, local_array,
}
use stream.Flv.Reader.{flv_read_header, flv_reader_create2, skip_loop}
use stream.Flv.Streams.{ByteSink, ByteSource}
use stream.Flv.TagStream.{tag_image, flv_writer_input-tag_image}

-- The file header that the writer writes, and the size 0 behind it.
abbrev pub file_header : List ℕ
file_header = b'F' ∷ b'L' ∷ b'V' ∷ 1 ∷ 5 ∷ 0 ∷ 0 ∷ 0 ∷ 9 ∷ 0 ∷ 0 ∷ 0 ∷ 0 ∷ []

-- The end of sequence that `flv_write_eos` writes.
abbrev pub eos_payload : List ℕ
eos_payload = 0x17 ∷ 2 ∷ 0 ∷ 0 ∷ 0 ∷ []

pub flv_writer_create2-file_header :
    (k : ByteSink) (s : k.State)
    → (s' : k.State) × (flv_writer_create2 k.write s ≡ done (s', true))
      × (k.contents s' ≡ k.contents s ++ file_header)
unfolding flv_writer_create2 flv_write_header flv_header_write flv_tag_size_write store patch
flv_writer_create2-file_header k s =
    let (s', _) = k.write s file_header in
    (s', rw (k.takes_all s file_header), k.appends s file_header)

pub flv_writer_destroy-eos :
    (k : ByteSink) (s : k.State)
    → (s' : k.State) × (flv_writer_destroy k.write s ≡ done s')
      × (k.contents s' ≡ k.contents s ++ tag_image flv_type_video 0 eos_payload)
unfolding flv_writer_destroy flv_write_eos flv_video_tag_header_write store patch
flv_writer_destroy-eos k s =
    let (s', e, c) =
      flv_writer_input-tag_image k s flv_type_video 0 eos_payload (local_array 11) refl
        (omega arith) in
    (s', rw e, c)

pub flv_reader_create2-file_header :
    (r : ByteSource) (s : r.State) (back : List ℕ)
    → r.remaining s ≡ file_header ++ back
    → (s' : r.State) × (flv_reader_create2 r.read s ≡ done (s', true)) × (r.remaining s' ≡ back)
unfolding flv_reader_create2 flv_read_header flv_header_read flv_tag_size_read skip_loop
flv_reader_create2-file_header r s back e =
    let header : List ℕ = b'F' ∷ b'L' ∷ b'V' ∷ 1 ∷ 5 ∷ 0 ∷ 0 ∷ 0 ∷ 9 ∷ [] in
    let zeros : List ℕ = 0 ∷ 0 ∷ 0 ∷ 0 ∷ [] in
    let (s₁, _) = r.read s 9 in
    let (s₂, _) = r.read s₁ 4 in
    let e₁ : r.remaining s₁ ≡ zeros ++ back = r.advances s 9 header (zeros ++ back) e refl in
    (
      s₂,
      rw (r.delivers s 9 header (zeros ++ back) e refl, r.delivers s₁ 4 zeros back e₁ refl),
      r.advances s₁ 4 zeros back e₁ refl,
    )
