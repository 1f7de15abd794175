-- ===== src/Tests.antt =====
-- The theorems at concrete inputs, by the part of the program they are about.
mod Fixtures
mod Chunks
mod Logs
mod Buffers
mod Archive
mod Sorted
mod Store
mod Running
