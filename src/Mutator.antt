-- ===== src/Mutator.antt =====
-- StateMutator of src/state_mutator.cpp: the read, check, change and write-back of the extent that
-- holds a chunk header or a block directory entry.
pub mod Effect
pub mod Chunk
pub mod Lifecycle
use x_tdb.Base.{
  ℕ, ◌+◌, ◌-◌, ◌*◌, ◌/◌, Bool, true, false, not, Bytes, load, store, copy, if◌then◌else◌,
}
use x_tdb.Layout.Units.{extent_size_bytes}
use x_tdb.Flags.{
  ChunkStateBit, chb_deprecated, chb_sealed, chb_allocated, chb_free_mark, BlockStateBit,
  blb_sealed, blb_monotonic_time, blb_no_time_gap, chunk_bit, block_bit, clear_bit,
  chunk_is_allocated, chunk_is_sealed, chunk_is_deprecated, block_is_sealed, validate_transition,
}
use x_tdb.Io.{IoResult, Os, File, Buffer, aligned_buffer, zero_buffer, write, read}
use x_tdb.Structs.{
  ChunkHeader, chunk_header_at, chunk_header_bytes, BlockDirEntry, entry_at, entry_bytes,
}

pub data MutateResult : Type 0 where
  success err_io_failed err_invalid_transition err_already_set err_invalid_offset err_read_failed
        err_write_failed :
      MutateResult

-- `io_result == IOResult::SUCCESS`
abbrev pub io_ok : IoResult → Bool
io_ok IoResult.success = true
io_ok _ = false

-- The last step: the changed flags and fields are written back.
unfoldable pub write_back : Os → File → Buffer → ℕ → MutateResult × File
write_back os f b offset =
    let (w, f') = write os f b extent_size_bytes offset in
    if io_ok w then (success, f') else (err_write_failed, f')

-- The checks and the change, once the extent is in the buffer: `flags_at` is where the flags lie in
-- it, `already` the check before the change, and `patch` the other fields that are set.
unfoldable pub change :
    Os → File → Buffer → ℕ → ℕ → ℕ → (ℕ → Bool) → (Bytes → Bytes) → MutateResult × File
change os f b offset flags_at position already patch =
    let flags = load b.cells flags_at 4 in
    let new_flags = clear_bit flags position in
    if already flags
    then (err_already_set, f)
    else if not (validate_transition flags new_flags)
    then (err_invalid_transition, f)
    else write_back os f (record b { cells = patch (store b.cells flags_at 4 new_flags) }) offset

-- The steps that all mutations share, on the extent at `offset`.
unfoldable pub mutate : Os → File → ℕ → ℕ → ℕ → (ℕ → Bool) → (Bytes → Bytes) → MutateResult × File
mutate os f offset flags_at position already patch =
    let (r, b, f') = read os f (aligned_buffer os extent_size_bytes) extent_size_bytes offset in
    if not (io_ok r)
    then (err_read_failed, f')
    else change os f' b offset flags_at position already patch

unfoldable pub allocate_chunk : Os → File → ℕ → MutateResult × File
allocate_chunk os f chunk_offset =
    mutate os f chunk_offset 32 (chunk_bit chb_allocated) chunk_is_allocated (λ m. m)

-- The fields of the header that sealing sets.
abbrev pub seal_fields : ℕ → ℕ → ℕ → Bytes → Bytes
seal_fields start_ts_us end_ts_us super_crc32 m =
    store (store (store m 52 8 start_ts_us) 60 8 end_ts_us) 68 4 super_crc32

unfoldable pub seal_chunk : Os → File → ℕ → ℕ → ℕ → ℕ → MutateResult × File
seal_chunk os f chunk_offset start_ts_us end_ts_us super_crc32 =
    mutate os f chunk_offset 32 (chunk_bit chb_sealed) chunk_is_sealed
      (seal_fields start_ts_us end_ts_us super_crc32)

unfoldable pub deprecate_chunk : Os → File → ℕ → MutateResult × File
deprecate_chunk os f chunk_offset =
    mutate os f chunk_offset 32 (chunk_bit chb_deprecated) chunk_is_deprecated (λ m. m)

unfoldable pub mark_chunk_free : Os → File → ℕ → MutateResult × File
mark_chunk_free os f chunk_offset =
    mutate os f chunk_offset 32 (chunk_bit chb_free_mark) (λ flags. false) (λ m. m)

-- The extent that holds an address, and the place of the address in it.
abbrev pub extent_of : ℕ → ℕ
extent_of offset = offset / extent_size_bytes * extent_size_bytes

abbrev pub within_extent : ℕ → ℕ
within_extent offset = offset - extent_of offset

abbrev pub seal_entry_fields : ℕ → ℕ → ℕ → ℕ → Bytes → Bytes
seal_entry_fields p end_ts_us record_count data_crc32 m =
    store (store (store m (p + 24) 8 end_ts_us) (p + 32) 4 record_count) (p + 36) 4 data_crc32

unfoldable pub seal_block : Os → File → ℕ → ℕ → ℕ → ℕ → MutateResult × File
seal_block os f entry_offset end_ts_us record_count data_crc32 =
    let p = within_extent entry_offset in
    mutate os f (extent_of entry_offset) (p + 12) (block_bit blb_sealed) block_is_sealed
      (seal_entry_fields p end_ts_us record_count data_crc32)

unfoldable pub assert_monotonic_time : Os → File → ℕ → MutateResult × File
assert_monotonic_time os f entry_offset =
    mutate os f (extent_of entry_offset) (within_extent entry_offset + 12)
      (block_bit blb_monotonic_time) (λ flags. false) (λ m. m)

unfoldable pub assert_no_time_gap : Os → File → ℕ → MutateResult × File
assert_no_time_gap os f entry_offset =
    mutate os f (extent_of entry_offset) (within_extent entry_offset + 12)
      (block_bit blb_no_time_gap) (λ flags. false) (λ m. m)

unfoldable pub init_chunk_header : Os → File → ℕ → ChunkHeader → MutateResult × File
unfolding write_back
init_chunk_header os f chunk_offset header =
    let b = zero_buffer (aligned_buffer os extent_size_bytes) in
    write_back os f (record b { cells = copy b.cells 0 (chunk_header_bytes header) 0 128 })
      chunk_offset

-- The result of the read is not looked at: a new file may have nothing there.
unfoldable pub init_block_dir_entry : Os → File → ℕ → BlockDirEntry → MutateResult × File
unfolding write_back
init_block_dir_entry os f entry_offset entry =
    let (r, b, f') =
      read os f (zero_buffer (aligned_buffer os extent_size_bytes)) extent_size_bytes
        (extent_of entry_offset) in
    write_back os f'
      (record b { cells = copy b.cells (within_extent entry_offset) (entry_bytes entry) 0 64 })
      (extent_of entry_offset)

-- The header comes out only when the read succeeds; the caller's is left alone otherwise.
unfoldable pub read_chunk_header : Os → File → ℕ → ChunkHeader → MutateResult × ChunkHeader × File
read_chunk_header os f chunk_offset header =
    let (r, b, f') =
      read os f (aligned_buffer os extent_size_bytes) extent_size_bytes chunk_offset in
    if not (io_ok r)
    then (err_read_failed, header, f')
    else (success, chunk_header_at b.cells 0, f')

unfoldable pub read_block_dir_entry :
    Os → File → ℕ → BlockDirEntry → MutateResult × BlockDirEntry × File
read_block_dir_entry os f entry_offset entry =
    let (r, b, f') =
      read os f (aligned_buffer os extent_size_bytes) extent_size_bytes (extent_of entry_offset) in
    if not (io_ok r)
    then (err_read_failed, entry, f')
    else (success, entry_at b.cells (within_extent entry_offset), f')
