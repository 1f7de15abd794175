-- ===== src/Rotating.antt =====
-- RotatingWAL of src/rotating_wal.cpp: segments of one container file, written in turn.
pub mod Segment
pub mod Container
pub mod Rotate
pub mod Append
pub mod Geometry
pub mod Kept
pub mod Cleared
pub mod Aliased
pub mod Reload
