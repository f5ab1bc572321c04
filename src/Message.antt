-- ===== src/Message.antt =====
-- Messages: src/mfast/coder/encoder/fast_encoder.cpp and src/mfast/coder/decoder/fast_decoder.cpp, for
-- templates whose fields are integers.
pub mod Template
pub mod Encoder
pub mod Decoder
pub mod Fields
pub mod Skipped
pub mod FieldsRoundTrip
pub mod Interleaving
pub mod Performs
pub mod Codec
pub mod BitCount
pub mod EncodeRun
pub mod RoundTrip
pub mod Transcript
pub mod Delivery
pub mod IntVector
mod Runs
mod TwoMessages
