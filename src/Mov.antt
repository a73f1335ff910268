-- ===== src/Mov.antt =====
-- src/media-server/libmov: the sample tables of MP4 files.
pub mod IoUtil
pub mod Files
pub mod Words
pub mod Samples
pub mod SizeTables
pub mod Patches
pub mod TimeTables
pub mod TimeBoxes
pub mod TimeRuns
pub mod TimeApply
pub mod OffsetApply
pub mod TimeFile
pub mod SizeFile
pub mod KeyFile
pub mod TimeKept
pub mod ChunkTables
pub mod ChunkBoxes
pub mod ChunkBuild
pub mod ChunkLocated
pub mod ChunkApply
pub mod ChunkSpread
pub mod ChunkCount
pub mod ChunkPlaces
pub mod ChunkFile
pub mod OffsetFile
pub mod CompactSizes
pub mod ChunkMap
pub mod Memory
mod Tests
