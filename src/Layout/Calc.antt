-- ===== src/Layout/Calc.antt =====
-- src/layout_calculator.cpp: the layout of a chunk and the offsets of its parts.
use x_tdb.Base.{
  ℕ, zero, suc, ◌+◌, ◌-◌, ◌*◌, ◌/◌, ◌^◌, Bool, false, not, ◌||◌, ◌==◌, ltb, leb, if◌then◌else◌,
}
use x_tdb.Layout.Units.{
  u32, u64, extent_to_bytes, is_extent_aligned, RawBlockClass, get_block_size_bytes,
  get_block_size_extents,
}

pub record ChunkLayout : Type 0 where
  pub chunk_size_extents : ℕ
  pub block_size_extents : ℕ
  pub blocks_per_chunk : ℕ
  pub meta_blocks : ℕ
  pub data_blocks : ℕ
  pub chunk_size_bytes : ℕ
  pub block_size_bytes : ℕ

-- kBlockDirEntrySize and kChunkHeaderSize
abbrev pub block_dir_entry_size : ℕ
block_dir_entry_size = 64

abbrev pub chunk_header_size : ℕ
chunk_header_size = 128

-- What the functions throw.
pub data LayoutError : Type 0 where
  invalid_block_class chunk_too_small unaligned_size no_room out_of_range : LayoutError

pub data Result {ℓ} (A : Type ℓ) : Type ℓ where
  ok : A → Result A
  err : LayoutError → Result A

-- `kChunkHeaderSize + data_blocks * kBlockDirEntrySize`, computed in uint32_t
unfoldable pub meta_bytes : ℕ → ℕ
meta_bytes data_blocks = u32 (chunk_header_size + u32 (data_blocks * block_dir_entry_size))

unfoldable pub calculate_meta_blocks : ℕ → ℕ → ℕ
unfolding meta_bytes
calculate_meta_blocks data_blocks_estimate block_size_bytes =
    u32 (u64 (meta_bytes data_blocks_estimate + block_size_bytes - 1) / block_size_bytes)

-- The loop `for (iter = 0; iter < 10; ++iter)`, by the rounds left. It yields the last
-- `meta_blocks`.
unfoldable pub solve : ℕ → ℕ → ℕ → ℕ → ℕ → ℕ
solve zero blocks_per_chunk block_size_bytes data_blocks_estimate meta_blocks = meta_blocks
solve (suc rounds) blocks_per_chunk block_size_bytes data_blocks_estimate meta_blocks =
    let meta = calculate_meta_blocks data_blocks_estimate block_size_bytes in
    let data_blocks_new = u32 (blocks_per_chunk + 2 ^ 32 - meta) in
    let rest = solve rounds blocks_per_chunk block_size_bytes data_blocks_new meta in
    if data_blocks_new == data_blocks_estimate then meta else rest

-- The check after the loop: one more meta block where the directory does not fit.
unfoldable pub settle : ℕ → ℕ → ℕ → ℕ × ℕ
unfolding meta_bytes
settle blocks_per_chunk block_size_bytes meta_blocks =
    let data_blocks = u32 (blocks_per_chunk + 2 ^ 32 - meta_blocks) in
    if ltb (u32 (meta_blocks * block_size_bytes)) (meta_bytes data_blocks)
    then (u32 (meta_blocks + 1), u32 (blocks_per_chunk + 2 ^ 32 - u32 (meta_blocks + 1)))
    else (meta_blocks, data_blocks)

-- What follows the checks of the arguments.
unfoldable pub lay_out : ℕ → ℕ → ℕ → ℕ → Result ChunkLayout
lay_out chunk_extents block_extents chunk_bytes block_bytes =
    let n = chunk_bytes / block_bytes in
    let (meta, data_blocks) = settle n block_bytes (solve 10 n block_bytes n 0) in
    if meta == 0 || data_blocks == 0
    then err no_room
    else ok (record {
      chunk_size_extents = chunk_extents;
      block_size_extents = block_extents;
      blocks_per_chunk = n;
      meta_blocks = meta;
      data_blocks = data_blocks;
      chunk_size_bytes = chunk_bytes;
      block_size_bytes = block_bytes;
    })

unfoldable pub calculate_layout : RawBlockClass → ℕ → Result ChunkLayout
unfolding lay_out
calculate_layout block_class chunk_extents =
    let block_extents = get_block_size_extents block_class in
    let block_bytes = get_block_size_bytes block_class in
    let chunk_bytes = extent_to_bytes chunk_extents in
    if block_extents == 0 || block_bytes == 0
    then err invalid_block_class
    else if ltb chunk_bytes block_bytes
    then err chunk_too_small
    else if not (is_extent_aligned chunk_bytes) || not (is_extent_aligned block_bytes)
    then err unaligned_size
    else lay_out chunk_extents block_extents chunk_bytes block_bytes

unfoldable pub calculate_chunk_offset : ℕ → ChunkLayout → ℕ → ℕ
calculate_chunk_offset chunk_id layout container_base =
    u64 (container_base + u64 (chunk_id * layout.chunk_size_bytes))

unfoldable pub calculate_block_offset : ℕ → ℕ → ChunkLayout → ℕ → Result ℕ
unfolding calculate_chunk_offset
calculate_block_offset chunk_id block_index layout container_base =
    if leb layout.blocks_per_chunk block_index
    then err out_of_range
    else ok (
        u64 (
          calculate_chunk_offset chunk_id layout container_base
          + u64 (block_index * layout.block_size_bytes)))

unfoldable pub calculate_block_dir_offset : ChunkLayout → ℕ
calculate_block_dir_offset layout = chunk_header_size

-- The product is one of uint32_t.
unfoldable pub calculate_data_region_offset : ChunkLayout → ℕ
calculate_data_region_offset layout = u32 (layout.meta_blocks * layout.block_size_bytes)

unfoldable pub validate_layout : ChunkLayout → Bool
unfolding meta_bytes
validate_layout layout =
    if not (is_extent_aligned layout.chunk_size_bytes)
      || not (is_extent_aligned layout.block_size_bytes)
    then false
    else if not (u32 (layout.meta_blocks + layout.data_blocks) == layout.blocks_per_chunk)
    then false
    else if ltb (u32 (layout.meta_blocks * layout.block_size_bytes)) (meta_bytes layout.data_blocks)
    then false
    else not (layout.meta_blocks == 0 || layout.data_blocks == 0)
