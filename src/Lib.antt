-- ===== src/Lib.antt =====
-- The container formats of the media server, modelled from their C sources.
--
-- Parts. media-server/libflv reads and writes FLV files, media-server/libmov MP4 files (modelled are
-- the tables of their samples) and media-server/libmpeg MPEG program and
-- transport streams; the C++ sessions of the server call both. (Paths are below src/ of the
-- repository.) Base holds the helpers: Tests (Boolean tests, casts, shifts), Lists, Outcomes (what
-- a call does), Buffer (arrays of bytes), Bits and Bytes (masks and `|` as arithmetic).
--
-- - Flv.Proto, Flv.Read, Flv.Write: flv-header.c. `flv_tag_header_read` and its like keep the C
--   names; a function that fills a structure returns it with the length. RoundTrip, AudioRoundTrip
--   and VideoRoundTrip hold the proofs.
-- - Flv.Parser: flv-parser.c, with the handler as a parameter. ParserDelivery holds the proofs.
-- - Flv.Writer and Flv.Reader: flv-writer.c and flv-reader.c, with the callbacks `write` and `read`
--   as parameters; Flv.Streams states what fwrite and fread are relied on for. TagStream, FileHeader,
--   SkipLoop and FileRoundTrip hold the proofs; FileRoundTrip also has the client loops that the statements
--   are about.
-- - Mpeg.Timestamp, Mpeg.Pes: mpeg-pes.c. PesBytes, PesRoundTrip, PesMpeg1 and PesStuffing hold the
--   proofs.
-- - Mpeg.Crc32: mpeg-crc32.c. CrcResidue holds the proof.
-- - Mpeg.Adaptation: `pcr_write` of mpeg-util.c and `adaptation_filed_read` of mpeg-ts-dec.c.
--   ClockRoundTrip holds the proofs.
-- - Mpeg.PackHeader: mpeg-pack-header.c. PackClock holds the proofs.
-- - Mpeg.SystemHeader: mpeg-system-header.c. SystemHeaderRoundTrip holds the proof.
-- - Mpeg.Pat: mpeg-pat.c, with the entries in use as a list. PatSection, PatRoundTrip, PatPrograms
--   and PatOverrun hold the proofs.
-- - Mov.IoUtil: mov-ioutil.h, over the callbacks of mov-buffer.h (libmov). Mov.Files states what the
--   callbacks are relied on for and what it means that a call reads or writes bytes; Words and
--   Patches prove it of the calls for numbers and of going back to fill in a size. Memory has
--   files in memory for it.
-- - Mov.Samples, Mov.TimeTables, Mov.TimeBoxes: mov-stts.c. TimeRuns, TimeKept, TimeApply,
--   OffsetApply and TimeFile hold the proofs.
-- - Mov.SizeTables, Mov.CompactSizes: mov-stsz.c and mov-stss.c. SizeFile and KeyFile hold the proofs,
--   CompactSizes its own.
-- - Mov.ChunkTables, Mov.ChunkBoxes: mov-stco.c and mov-stsc.c. ChunkBuild and ChunkLocated (what the
--   chunks stand for), ChunkCount (their numbers), ChunkApply, ChunkSpread and ChunkPlaces hold the
--   proofs of them in memory, ChunkFile and OffsetFile those of the boxes, and
--   ChunkMap joins them.
-- - Avc.Config, Avc.Load, Avc.Save, Avc.Nalu: struct mpeg4_avc_t, mpeg4-avc.c and mpeg4-mp4toannexb.c.
--   ParameterSets and RecordRoundTrip (the record, written and loaded), SaveBounds, SetNalus (the sets
--   behind start codes), AnnexB, AnnexBStream and AnnexBUnit (a whole access unit) and AnnexBLast (one
--   that ends with a byte on its own) hold the proofs.
-- - Mpeg.TsHeader, TsPacket, TsInput: ts_write_pes of mpeg-ts-enc.c, and of ts_demuxer_input of mpeg-ts-dec.c
--   what a packet of an elementary stream goes through. TsStuffing, TsStart, TsField, TsClock,
--   TsPayload, TsFinish and TsRound (one packet), TsChain (the loop), TsDelivery, TsRoundTrip and
--   TsStream (the reader over all packets) hold the proofs.
-- - Mpeg.Packet: mpeg-packet.c, but for H.264 and H.265. PacketFrames, TsFrames and TsFrameRoundTrip
--   (a frame from the writer to the handler of the reader) hold the proofs.
-- - Mpeg.TsSection: mpeg_ts_write_section_header of mpeg-ts-enc.c, and of ts_demuxer_input the branch of
--   the program association table; TsSectionRoundTrip has the proofs.
--
-- Conventions. A byte array is a list of numbers; a pointer into it is an index, or the list from
-- there on. `Outcome` has three cases: `done` with the result and what was stored through pointers,
-- `failed n` for the error value -n, and `fault` for a failed assertion or an access outside of
-- the array. Assertions count, as in the build without NDEBUG that CMakeLists.txt sets up. Numbers of a
-- fixed width are natural numbers with the wrap written out (u8, u16, u32, u64); an int32_t or
-- int64_t is its bit pattern. A length of type int is taken as not negative where a function gets it
-- as such; the cast in flv_writer_input is written out. A local array starts
-- with zeros where the code stores before it reads.
--
-- Loops. `skip_stuffing` has bytes + 1 rounds for fuel, and each round moves the index by one up to
-- `bytes`; `skip_loop` has as many rounds as bytes to skip, and each round skips nine.
-- `read_programs` has one round more than there are bytes: a round moves the index by four, and one
-- that starts behind the last byte is a fault.
-- The loops of the sample tables run over the samples or over the rounds that a table asks for; where
-- loops are nested, one function has the rounds that are left of each as arguments. `nalu_loop` has as
-- many rounds as there are bytes in the access unit, and each takes two at least.
-- `pes_loop` has one round more than there are bytes to send, and each packet takes one at least.
--
-- Not modelled: opening and closing files, allocation failures, and the parts of the three libraries
-- that have no module here (among them the box tree of libmov, AMF, the other codec configurations and
-- the multiplexers); the C++ sessions, which are sockets and timers; ZLToolKit, a network library
-- of its own.
pub mod Avc
pub mod Base
pub mod Flv
pub mod Mov
pub mod Mpeg
