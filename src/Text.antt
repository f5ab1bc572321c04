-- ===== src/Text.antt =====
-- Strings and byte vectors at the delta and tail operators of encoder_field_operator.cpp and
-- decoder_field_operator.cpp (src/mfast/coder).
pub mod Delta
pub mod Operators
pub mod Mismatch
pub mod DeltaRoundTrip
pub mod Outgrown
pub mod Bounds
pub mod Tail
pub mod TailJoin
pub mod TailRoundTrip
mod Runs
