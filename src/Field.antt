-- ===== src/Field.antt =====
-- The field operators of the encoder and the decoder.
pub mod Storage
pub mod Decode
pub mod Encode
pub mod Ints
pub mod Agreement
pub mod Branches
pub mod CopyRoundTrip
pub mod IntRoundTrip
mod Runs
