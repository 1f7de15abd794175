-- ===== src/Compact.antt =====
-- Compact containers: CompactContainer of src/compact_container.cpp, its structs of
-- include/xTdb/struct_defs.h and the layout of include/xTdb/compact_layout.h.
pub mod Structs
pub mod Files
pub mod Transfer
pub mod Container
pub mod Kept
pub mod Written
pub mod Sealed
pub mod Ready
pub mod Reopen
pub mod Reopened
