-- ===== src/Blocks.antt =====
-- Data blocks: BlockWriter of src/block_writer.cpp and BlockReader of src/block_reader.cpp.
pub mod Rows
pub mod Raw
pub mod Points
pub mod Writer
pub mod Reader
pub mod Stored
pub mod RoundTrip
pub mod Held
pub mod Compressed
