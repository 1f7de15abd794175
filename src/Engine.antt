-- ===== src/Engine.antt =====
-- StorageEngine of src/storage_engine.cpp: the write path from a point to a block on the disk, the
-- query path, and the maintenance of chunks.
pub mod State
pub mod Steps
pub mod Chunks
pub mod Single
pub mod Batches
pub mod Flush
pub mod Points
pub mod Replay
pub mod Query
pub mod Maintenance
pub mod Ranged
pub mod Remembered
pub mod Lost
pub mod Overfull
pub mod Replayed
pub mod Expired
pub mod Reclaimed
pub mod Flushed
