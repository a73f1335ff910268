-- ===== src/Mpeg.antt =====
-- src/media-server/libmpeg: MPEG program and transport streams.
pub mod Timestamp
pub mod Pes
pub mod PesBytes
pub mod PesRoundTrip
pub mod PesMpeg1
pub mod PesStuffing
pub mod Crc32
pub mod CrcResidue
pub mod Adaptation
pub mod ClockRoundTrip
pub mod Pat
pub mod PatSection
pub mod PatRoundTrip
pub mod PatPrograms
pub mod PatOverrun
pub mod SystemHeader
pub mod SystemHeaderRoundTrip
pub mod PackHeader
pub mod PackClock
pub mod Packet
pub mod PacketFrames
pub mod TsHeader
pub mod TsPacket
pub mod TsStuffing
pub mod TsStart
pub mod TsInput
pub mod TsField
pub mod TsClock
pub mod TsPayload
pub mod TsFinish
pub mod TsRound
pub mod TsChain
pub mod TsDelivery
pub mod TsRoundTrip
pub mod TsStream
pub mod TsSection
pub mod TsSectionRoundTrip
pub mod TsFrames
pub mod TsFrameRoundTrip
mod Tests
mod TableTests
mod TsTests
