-- ===== src/Builder.antt =====
-- The dictionary of previous values that `dictionary_builder`
-- (src/mfast/coder/common/dictionary_builder.h and .cpp) lays out for the templates of a coder.
pub mod Dictionary
pub mod Groups
pub mod Index
pub mod Find
pub mod Invariant
pub mod Sharing
pub mod Agreement
pub mod Runs
