-- ===== src/V2.antt =====
-- The coders of the second version, whose operators are chosen when the program is compiled.
pub mod Ext
pub mod Decode
pub mod DecodeSame
pub mod Encode
pub mod EncodeSame
pub mod RoundTrip
mod Runs
