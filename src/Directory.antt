-- ===== src/Directory.antt =====
-- DirectoryBuilder of src/directory_builder.cpp: the block directory of a chunk in memory, and its
-- way to and from the chunk's meta blocks.
pub mod Count
pub mod RoundTrip
pub mod Checksum
use x_tdb.Base.{
  ℕ, zero, suc, ◌+◌, ◌*◌, Bool, true, false, not, List, [], ◌∷◌, Option, length, get_elem?, get_or,
  set, Bytes, copy, ◌==◌, ltb, leb, if◌then◌else◌,
}
use x_tdb.Layout.Units.{u32}
use x_tdb.Layout.Calc.{ChunkLayout}
use x_tdb.Io.{Os, File, Buffer, aligned_buffer, read, write}
use x_tdb.Structs.{BlockDirEntry, default_entry, entry_bytes}
use x_tdb.Mutator.{io_ok}
use x_tdb.Seal.Scanner.{entries_at, meta_region_size}

pub data DirBuildResult : Type 0 where
  success err_io_failed err_invalid_block err_block_sealed err_crc_failed : DirBuildResult

pub record DirectoryBuilder : Type 0 where
  pub layout : ChunkLayout
  pub chunk_offset : ℕ
  pub entries : List BlockDirEntry
  pub sealed_block_count : ℕ

abbrev pub open_builder : ChunkLayout → ℕ → DirectoryBuilder
open_builder layout chunk_offset = record {
  layout = layout;
  chunk_offset = chunk_offset;
  entries = [];
  sealed_block_count = 0;
}

-- `entries_.resize(n)`: what is there stays, and new entries are the constructor's.
unfoldable pub resize : ℕ → List BlockDirEntry → List BlockDirEntry
resize zero es = []
resize (suc n) [] = default_entry ∷ resize n []
resize (suc n) (e ∷ es) = e ∷ resize n es

unfoldable pub initialize : DirectoryBuilder → DirBuildResult × DirectoryBuilder
initialize b =
    (success, record b { entries = resize b.layout.data_blocks b.entries; sealed_block_count = 0 })

abbrev pub entry_is_sealed : BlockDirEntry → Bool
entry_is_sealed e = not (e.record_count == 0xFFFF_FFFF)

-- The loop of load that counts the sealed blocks.
unfoldable pub count_sealed : List BlockDirEntry → ℕ
count_sealed [] = 0
count_sealed (e ∷ es) = let rest = count_sealed es in if entry_is_sealed e then suc rest else rest

unfoldable pub load_directory :
    Os → DirectoryBuilder → File → DirBuildResult × DirectoryBuilder × File
load_directory os b f =
    let size = meta_region_size b.layout in
    let (r, buffer, f') = read os f (aligned_buffer os size) size b.chunk_offset in
    let entries = entries_at b.layout.data_blocks buffer.cells 128 in
    if not (io_ok r) then (err_io_failed, b, f') else (
      success,
      record b { entries = entries; sealed_block_count = u32 (count_sealed entries) },
      f',
    )

-- The arguments of sealBlock that go into the entry.
pub record BlockSeal : Type 0 where
  pub tag_id : ℕ
  pub start_ts_us : ℕ
  pub end_ts_us : ℕ
  pub time_unit : ℕ
  pub value_type : ℕ
  pub record_count : ℕ
  pub data_crc32 : ℕ
  pub encoding_type : ℕ
  pub encoding_param1 : ℕ
  pub encoding_param2 : ℕ

abbrev pub sealed_entry : BlockSeal → BlockDirEntry → BlockDirEntry
sealed_entry s e = record e {
  tag_id = s.tag_id;
  start_ts_us = s.start_ts_us;
  end_ts_us = s.end_ts_us;
  time_unit = s.time_unit;
  value_type = s.value_type;
  encoding_type = s.encoding_type;
  record_count = s.record_count;
  data_crc32 = s.data_crc32;
  encoding_param1 = s.encoding_param1;
  encoding_param2 = s.encoding_param2;
}

-- `entries_[block_index]` is not checked against the size of `entries_`: a builder is initialized or
-- loaded first.
unfoldable pub seal_block : DirectoryBuilder → ℕ → BlockSeal → DirBuildResult × DirectoryBuilder
seal_block b block_index s =
    let e = get_or b.entries block_index default_entry in
    if leb b.layout.data_blocks block_index
    then (err_invalid_block, b)
    else if entry_is_sealed e
    then (err_block_sealed, b)
    else (
      success,
      record b {
        entries = set b.entries block_index (sealed_entry s e);
        sealed_block_count = u32 (b.sealed_block_count + 1);
      },
    )

-- `memcpy` of the entries to address `p`.
unfoldable pub store_entries : List BlockDirEntry → Bytes → ℕ → Bytes
store_entries [] m p = m
store_entries (e ∷ es) m p = copy (store_entries es m (p + 64)) p (entry_bytes e) 0 64

unfoldable pub write_directory : Os → DirectoryBuilder → File → DirBuildResult × File
write_directory os b f =
    let size = meta_region_size b.layout in
    let (r, buffer, f₁) = read os f (aligned_buffer os size) size b.chunk_offset in
    let (w, f₂) =
      write os f₁ (record buffer { cells = store_entries b.entries buffer.cells 128 }) size
        b.chunk_offset in
    if not (io_ok r)
    then (err_io_failed, f₁)
    else if not (io_ok w)
    then (err_io_failed, f₂)
    else (success, f₂)

abbrev pub get_entry : DirectoryBuilder → ℕ → Option BlockDirEntry
get_entry b block_index = get_elem? b.entries block_index
