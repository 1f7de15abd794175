-- ===== src/Wal.antt =====
-- The write-ahead log: src/wal_writer.cpp, src/wal_reader.cpp and the loop of
-- StorageEngine::replayWAL in src/storage_engine.cpp that reads one segment.
pub mod Entry
pub mod Writer
pub mod Reader
pub mod Bound
pub mod Logged
pub mod RoundTrip
