-- ===== src/Nested.antt =====
-- Groups and sequences, nested to any depth: src/mfast/coder/encoder/fast_encoder.cpp and
-- src/mfast/coder/decoder/fast_decoder.cpp.
pub mod Template
pub mod Encoder
pub mod Decoder
pub mod Plan
pub mod Carries
pub mod Leaf
pub mod AbsentLength
pub mod Segment
pub mod BitCount
pub mod RoundTrip
pub mod Message
pub mod MessageRun
pub mod Delivery
pub mod Runs
