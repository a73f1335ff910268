-- ===== src/Avc.antt =====
-- src/media-server/libflv: the H.264 decoder configuration record and the NAL units of MP4 files.
pub mod Config
pub mod Load
pub mod Save
pub mod ParameterSets
pub mod RecordRoundTrip
pub mod Nalu
pub mod SetNalus
pub mod AnnexB
pub mod AnnexBStream
pub mod AnnexBUnit
pub mod AnnexBLast
pub mod SaveBounds
mod Tests
