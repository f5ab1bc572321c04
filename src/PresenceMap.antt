-- ===== src/PresenceMap.antt =====
-- The presence maps of the two sides.
pub mod Decoder
pub mod Bits
pub mod Loading
pub mod DecoderBits
pub mod Encoder
pub mod EncoderSteps
pub mod SetNextBit
pub mod EncoderBits
pub mod EncoderRun
pub mod EncoderFlush
pub mod EncoderCommit
pub mod RoundTrip
mod Runs
