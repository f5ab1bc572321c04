-- ===== src/Buffer.antt =====
-- The output buffer of the encoder.
pub mod Ostreambuf
pub mod Shrink
pub mod WriteBytes
pub mod Stripped
pub mod Put
pub mod Growth
mod Runs
