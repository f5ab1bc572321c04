-- ===== src/Wire.antt =====
-- The transfer encoding: `fast_istream`, `fast_ostream` and their buffers.
pub mod Outcome
pub mod IntType
pub mod Istream
pub mod Ostream
pub mod Groups
pub mod ValueGroups
pub mod IntRoundTrip
pub mod StringRoundTrip
pub mod Decimal
pub mod Safety
pub mod Room
pub mod Bounds
mod Runs
