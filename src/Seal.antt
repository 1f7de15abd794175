-- ===== src/Seal.antt =====
-- Sealing a chunk and checking the seal: src/chunk_sealer.cpp and the header and checksum part of
-- src/raw_scanner.cpp.
pub mod Crc
pub mod Sealer
pub mod Scanner
pub mod Parts
pub mod Verified
