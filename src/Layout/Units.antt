-- ===== src/Layout/Units.antt =====
-- include/xTdb/constants.h: extents and the RAW block classes.
use x_tdb.Base.{ℕ, ◌+◌, ◌-◌, ◌*◌, ◌/◌, ◌%◌, ◌^◌, Bool, ◌==◌}

abbrev pub u32 : ℕ → ℕ
u32 n = n % 2 ^ 32

abbrev pub u64 : ℕ → ℕ
u64 n = n % 2 ^ 64

-- kExtentSizeBytes
abbrev pub extent_size_bytes : ℕ
extent_size_bytes = 16384

abbrev pub extent_to_bytes : ℕ → ℕ
extent_to_bytes extent_count = u32 (extent_count * extent_size_bytes)

abbrev pub bytes_to_extent : ℕ → ℕ
bytes_to_extent bytes = u32 (bytes / extent_size_bytes)

abbrev pub is_extent_aligned : ℕ → Bool
is_extent_aligned bytes = bytes % extent_size_bytes == 0

-- `((bytes + kExtentSizeBytes - 1) / kExtentSizeBytes) * kExtentSizeBytes` in uint64_t
abbrev pub align_to_extent : ℕ → ℕ
align_to_extent bytes =
    u64 (u64 (bytes + extent_size_bytes - 1) / extent_size_bytes * extent_size_bytes)

-- RawBlockClass; `other` stands for a value outside the enumeration.
pub data RawBlockClass : Type 0 where
  raw_16k raw_64k raw_256k other : RawBlockClass

abbrev pub get_block_size_bytes : RawBlockClass → ℕ
get_block_size_bytes raw_16k = 16384
get_block_size_bytes raw_64k = 65536
get_block_size_bytes raw_256k = 262144
get_block_size_bytes other = 0

abbrev pub get_block_size_extents : RawBlockClass → ℕ
get_block_size_extents raw_16k = 1
get_block_size_extents raw_64k = 4
get_block_size_extents raw_256k = 16
get_block_size_extents other = 0

-- A 64-bit pattern, shifted so that the order of the int64_t it stands for is that of the numbers.
abbrev pub biased : ℕ → ℕ
biased a = (a + 2 ^ 63) % 2 ^ 64
