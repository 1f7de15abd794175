-- ===== src/Metadata.antt =====
-- MetadataSync of src/metadata_sync.cpp: the tables in SQLite that index chunks and blocks.
pub mod Tables
pub mod Sync
pub mod Query
pub mod Ran
pub mod Synced
pub mod Found
