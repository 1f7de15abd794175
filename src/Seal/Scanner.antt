-- ===== src/Seal/Scanner.antt =====
-- RawScanner of src/raw_scanner.cpp: the chunk header, the directory, the checksum and the checks.
use x_tdb.Base.{
  ℕ, zero, suc, ◌+◌, ◌*◌, Bool, true, false, not, List, [], ◌∷◌, Bytes, ◌==◌, if◌then◌else◌,
}
use x_tdb.Layout.Units.{u32, align_to_extent}
use x_tdb.Layout.Calc.{ChunkLayout}
use x_tdb.Flags.{chunk_is_sealed}
use x_tdb.Io.{Os, File, aligned_buffer, read}
use x_tdb.Structs.{
  ChunkHeader, default_chunk_header, chunk_header_at, raw_chunk_magic, BlockDirEntry, entry_at,
}
use x_tdb.Mutator.{io_ok}
use x_tdb.Seal.Crc.{calculate_crc32}
use x_tdb.Seal.Sealer.{dir_size, crc_offset}

pub data ScanResult : Type 0 where
  success err_io_failed err_invalid_chunk err_crc_mismatch err_not_sealed : ScanResult

abbrev pub scan_ok : ScanResult → Bool
scan_ok success = true
scan_ok _ = false

unfoldable pub read_chunk_header : Os → File → ℕ → ChunkHeader → ScanResult × ChunkHeader × File
read_chunk_header os f chunk_offset header =
    let (r, b, f') = read os f (aligned_buffer os 16384) 16384 chunk_offset in
    let h = chunk_header_at b.cells 0 in
    if not (io_ok r)
    then (err_io_failed, header, f')
    else if not (h.magic == raw_chunk_magic)
    then (err_invalid_chunk, h, f')
    else if not (h.version == 0x0106)
    then (err_invalid_chunk, h, f')
    else (success, h, f')

-- `memcpy` of `n` entries from `p` on.
unfoldable pub entries_at : ℕ → Bytes → ℕ → List BlockDirEntry
entries_at zero m p = []
entries_at (suc n) m p = entry_at m p ∷ entries_at n m (p + 64)

abbrev pub meta_region_size : ChunkLayout → ℕ
meta_region_size layout = u32 (layout.meta_blocks * layout.block_size_bytes)

unfoldable pub read_block_directory :
    Os → File → ℕ → ChunkLayout → List BlockDirEntry → ScanResult × List BlockDirEntry × File
read_block_directory os f chunk_offset layout entries =
    let size = meta_region_size layout in
    let (r, b, f') = read os f (aligned_buffer os size) size chunk_offset in
    if not (io_ok r)
    then (err_io_failed, entries, f')
    else (success, entries_at layout.data_blocks b.cells 128, f')

unfoldable pub calculate_super_crc : Os → File → ℕ → ChunkLayout → ℕ → ScanResult × ℕ × File
calculate_super_crc os f chunk_offset layout super_crc32 =
    let size = align_to_extent (dir_size layout) in
    let (r, b, f') = read os f (aligned_buffer os size) size (crc_offset chunk_offset layout) in
    if not (io_ok r)
    then (err_io_failed, super_crc32, f')
    else (success, calculate_crc32 b.cells (dir_size layout), f')

pub record ScannedBlock : Type 0 where
  pub block_index : ℕ
  pub tag_id : ℕ
  pub start_ts_us : ℕ
  pub end_ts_us : ℕ
  pub time_unit : ℕ
  pub value_type : ℕ
  pub record_count : ℕ
  pub data_crc32 : ℕ
  pub is_sealed : Bool

pub record ScannedChunk : Type 0 where
  pub chunk_id : ℕ
  pub start_ts_us : ℕ
  pub end_ts_us : ℕ
  pub super_crc32 : ℕ
  pub is_sealed : Bool
  pub blocks : List ScannedBlock

-- The loop over the entries, from index `i`.
unfoldable pub scan_entries : ℕ → List BlockDirEntry → List ScannedBlock
scan_entries i [] = []
scan_entries i (e ∷ entries) =
    let rest = scan_entries (i + 1) entries in
    if e.record_count == 0xFFFF_FFFF
    then rest
    else record {
      block_index = i;
      tag_id = e.tag_id;
      start_ts_us = e.start_ts_us;
      end_ts_us = e.end_ts_us;
      time_unit = e.time_unit;
      value_type = e.value_type;
      record_count = e.record_count;
      data_crc32 = e.data_crc32;
      is_sealed = true;
    }
      ∷ rest

unfoldable pub scan_chunk :
    Os → File → ℕ → ChunkLayout → ScannedChunk → ScanResult × ScannedChunk × File
unfolding scan_entries
scan_chunk os f chunk_offset layout chunk =
    let (r, h, f₁) = read_chunk_header os f chunk_offset default_chunk_header in
    let (d, entries, f₂) = read_block_directory os f₁ chunk_offset layout [] in
    let chunk' = record chunk {
      chunk_id = h.chunk_id;
      start_ts_us = h.start_ts_us;
      end_ts_us = h.end_ts_us;
      super_crc32 = h.super_crc32;
      is_sealed = chunk_is_sealed h.flags;
    } in
    if not (scan_ok r)
    then (r, chunk, f₁)
    else if not (scan_ok d)
    then (d, chunk', f₂)
    else (success, record chunk' { blocks = scan_entries 0 entries }, f₂)

unfoldable pub verify_chunk_integrity : Os → File → ℕ → ChunkLayout → ScanResult × File
verify_chunk_integrity os f chunk_offset layout =
    let (r, h, f₁) = read_chunk_header os f chunk_offset default_chunk_header in
    let (c, calculated_crc, f₂) = calculate_super_crc os f₁ chunk_offset layout 0 in
    if not (scan_ok r)
    then (r, f₁)
    else if not (chunk_is_sealed h.flags)
    then (err_not_sealed, f₁)
    else if not (scan_ok c)
    then (c, f₂)
    else if not (calculated_crc == h.super_crc32)
    then (err_crc_mismatch, f₂)
    else (success, f₂)
