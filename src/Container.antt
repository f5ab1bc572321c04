-- ===== src/Container.antt =====
-- The storage of strings and byte vectors: `vector_mref_base` of src/mfast/vector_ref.h for elements
-- of one byte, and the allocators it calls.
pub mod Array
pub mod Allocators
pub mod Vector
pub mod Blocks
pub mod Reserve
pub mod Assign
pub mod Gap
pub mod Insert
pub mod Replace
pub mod ReplaceShorter
pub mod Overruns
pub mod Calls
pub mod Runs
