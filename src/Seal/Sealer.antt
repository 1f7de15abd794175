-- ===== src/Seal/Sealer.antt =====
-- ChunkSealer of src/chunk_sealer.cpp.
use x_tdb.Base.{ℕ, ◌+◌, ◌*◌, Bool, true, false, not, if◌then◌else◌}
use x_tdb.Layout.Units.{u64, align_to_extent}
use x_tdb.Layout.Calc.{ChunkLayout}
use x_tdb.Flags.{chunk_is_sealed}
use x_tdb.Io.{Os, File, aligned_buffer, read}
use x_tdb.Structs.{default_chunk_header}
use x_tdb.Mutator.{MutateResult, io_ok, read_chunk_header}
use x_tdb.Mutator
use x_tdb.Seal.Crc.{calculate_crc32}

pub data SealResult : Type 0 where
  success err_io_failed err_invalid_chunk err_already_sealed err_crc_failed : SealResult

abbrev pub mutate_ok : MutateResult → Bool
mutate_ok MutateResult.success = true
mutate_ok _ = false

abbrev pub seal_ok : SealResult → Bool
seal_ok success = true
seal_ok _ = false

-- `data_blocks * sizeof(BlockDirEntryV16)`, the bytes that the checksum covers.
abbrev pub dir_size : ChunkLayout → ℕ
dir_size layout = u64 (layout.data_blocks * 64)

-- calculateSuperCRC starts one block behind the chunk's start.
abbrev pub crc_offset : ℕ → ChunkLayout → ℕ
crc_offset chunk_offset layout = u64 (chunk_offset + layout.block_size_bytes)

-- The checksum that is passed in comes back where the read fails.
unfoldable pub calculate_super_crc : Os → File → ℕ → ChunkLayout → ℕ → SealResult × ℕ × File
calculate_super_crc os f chunk_offset layout super_crc32 =
    let size = align_to_extent (dir_size layout) in
    let (r, b, f') = read os f (aligned_buffer os size) size (crc_offset chunk_offset layout) in
    if not (io_ok r)
    then (err_io_failed, super_crc32, f')
    else (success, calculate_crc32 b.cells (dir_size layout), f')

unfoldable pub seal_chunk : Os → File → ℕ → ChunkLayout → ℕ → ℕ → SealResult × File
seal_chunk os f chunk_offset layout start_ts_us end_ts_us =
    let (r, header, f₁) = read_chunk_header os f chunk_offset default_chunk_header in
    let (c, super_crc32, f₂) = calculate_super_crc os f₁ chunk_offset layout 0 in
    let (s, f₃) = Mutator.seal_chunk os f₂ chunk_offset start_ts_us end_ts_us super_crc32 in
    if not (mutate_ok r)
    then (err_io_failed, f₁)
    else if chunk_is_sealed header.flags
    then (err_already_sealed, f₁)
    else if not (seal_ok c)
    then (c, f₂)
    else if not (mutate_ok s)
    then (err_io_failed, f₃)
    else (success, f₃)
