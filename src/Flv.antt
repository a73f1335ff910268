-- ===== src/Flv.antt =====
-- media-server/libflv: the FLV container.
pub mod Proto
pub mod Read
pub mod Write
pub mod RoundTrip
pub mod AudioRoundTrip
pub mod VideoRoundTrip
pub mod Parser
pub mod Writer
pub mod Reader
pub mod Streams
pub mod TagStream
pub mod FileHeader
pub mod SkipLoop
pub mod FileRoundTrip
pub mod ParserDelivery
mod Tests
