-- ===== src/Compact/Structs.antt =====
-- CompactChunkHeader and CompactBlockIndex of include/xTdb/struct_defs.h, and their bytes. A field of
-- several bytes is its little-endian bit pattern; the arrays are taken as single fields.
pub mod RoundTrip
use x_tdb.Base.{
  ℕ, ◌+◌, ◌*◌, ◌^◌, ◌<◌, ◌≤◌, ◌≡◌, refl, arith, Bool, true, false, not, List, [], ◌∷◌, Bytes, load,
  ◌==◌, if◌then◌else◌,
}
use x_tdb.Flags.{flags_init}
use x_tdb.Structs.{store_fields}

pub record CompactHeader : Type 0 where
  pub magic : ℕ
  pub version : ℕ
  pub header_size : ℕ
  pub db_instance_id : ℕ
  pub chunk_id : ℕ
  pub flags : ℕ
  pub block_count : ℕ
  pub compression_type : ℕ
  pub reserved_u8 : ℕ
  pub index_offset : ℕ
  pub data_offset : ℕ
  pub total_compressed_size : ℕ
  pub total_original_size : ℕ
  pub start_ts_us : ℕ
  pub end_ts_us : ℕ
  pub super_crc32 : ℕ
  pub reserved1 : ℕ
  pub padding : ℕ

-- kCompactChunkMagic, "XTCPTCK", first character lowest
abbrev pub compact_magic : ℕ
compact_magic =
    b'X' + 256 * (b'T' + 256 * (b'C' + 256 * (b'P' + 256 * (b'T' + 256 * (b'C' + 256 * b'K')))))

-- CompactChunkHeader(), with the compression type that CompactContainer() sets.
abbrev pub default_header : ℕ → CompactHeader
default_header compression_type = record {
  magic = compact_magic;
  version = 1;
  header_size = 128;
  db_instance_id = 0;
  chunk_id = 0;
  flags = flags_init;
  block_count = 0;
  compression_type = compression_type;
  reserved_u8 = 0;
  index_offset = 0;
  data_offset = 0;
  total_compressed_size = 0;
  total_original_size = 0;
  start_ts_us = 0;
  end_ts_us = 0;
  super_crc32 = 0;
  reserved1 = 0;
  padding = 0;
}

unfoldable pub header_at : Bytes → ℕ → CompactHeader
header_at m p = record {
  magic = load m p 8;
  version = load m (p + 8) 2;
  header_size = load m (p + 10) 2;
  db_instance_id = load m (p + 12) 16;
  chunk_id = load m (p + 28) 4;
  flags = load m (p + 32) 4;
  block_count = load m (p + 36) 4;
  compression_type = load m (p + 40) 1;
  reserved_u8 = load m (p + 41) 3;
  index_offset = load m (p + 44) 8;
  data_offset = load m (p + 52) 8;
  total_compressed_size = load m (p + 60) 8;
  total_original_size = load m (p + 68) 8;
  start_ts_us = load m (p + 76) 8;
  end_ts_us = load m (p + 84) 8;
  super_crc32 = load m (p + 92) 4;
  reserved1 = load m (p + 96) 4;
  padding = load m (p + 100) 28;
}

abbrev header_fields : CompactHeader → List (ℕ × ℕ × ℕ)
header_fields h =
    (0, 8, h.magic)
    ∷ (8, 2, h.version)
    ∷ (10, 2, h.header_size)
    ∷ (12, 16, h.db_instance_id)
    ∷ (28, 4, h.chunk_id)
    ∷ (32, 4, h.flags)
    ∷ (36, 4, h.block_count)
    ∷ (40, 1, h.compression_type)
    ∷ (41, 3, h.reserved_u8)
    ∷ (44, 8, h.index_offset)
    ∷ (52, 8, h.data_offset)
    ∷ (60, 8, h.total_compressed_size)
    ∷ (68, 8, h.total_original_size)
    ∷ (76, 8, h.start_ts_us)
    ∷ (84, 8, h.end_ts_us)
    ∷ (92, 4, h.super_crc32)
    ∷ (96, 4, h.reserved1)
    ∷ (100, 28, h.padding)
    ∷ []

unfoldable pub header_bytes : CompactHeader → Bytes
header_bytes h = store_fields (header_fields h) (λ a. 0)

pub record CompactIndex : Type 0 where
  pub tag_id : ℕ
  pub original_block_index : ℕ
  pub data_offset : ℕ
  pub compressed_size : ℕ
  pub original_size : ℕ
  pub start_ts_us : ℕ
  pub end_ts_us : ℕ
  pub record_count : ℕ
  pub original_encoding : ℕ
  pub value_type : ℕ
  pub time_unit : ℕ
  pub reserved_u8 : ℕ
  pub block_crc32 : ℕ
  pub reserved1 : ℕ
  pub padding : ℕ

-- sizeof(CompactBlockIndex)
abbrev pub index_size : ℕ
index_size = 80

unfoldable pub index_at : Bytes → ℕ → CompactIndex
index_at m p = record {
  tag_id = load m p 4;
  original_block_index = load m (p + 4) 4;
  data_offset = load m (p + 8) 8;
  compressed_size = load m (p + 16) 4;
  original_size = load m (p + 20) 4;
  start_ts_us = load m (p + 24) 8;
  end_ts_us = load m (p + 32) 8;
  record_count = load m (p + 40) 4;
  original_encoding = load m (p + 44) 1;
  value_type = load m (p + 45) 1;
  time_unit = load m (p + 46) 1;
  reserved_u8 = load m (p + 47) 1;
  block_crc32 = load m (p + 48) 4;
  reserved1 = load m (p + 52) 4;
  padding = load m (p + 56) 24;
}

abbrev index_fields : CompactIndex → List (ℕ × ℕ × ℕ)
index_fields e =
    (0, 4, e.tag_id)
    ∷ (4, 4, e.original_block_index)
    ∷ (8, 8, e.data_offset)
    ∷ (16, 4, e.compressed_size)
    ∷ (20, 4, e.original_size)
    ∷ (24, 8, e.start_ts_us)
    ∷ (32, 8, e.end_ts_us)
    ∷ (40, 4, e.record_count)
    ∷ (44, 1, e.original_encoding)
    ∷ (45, 1, e.value_type)
    ∷ (46, 1, e.time_unit)
    ∷ (47, 1, e.reserved_u8)
    ∷ (48, 4, e.block_crc32)
    ∷ (52, 4, e.reserved1)
    ∷ (56, 24, e.padding)
    ∷ []

unfoldable pub index_bytes : CompactIndex → Bytes
index_bytes e = store_fields (index_fields e) (λ a. 0)

-- getCompactIndexOffset and getCompactDataOffset
abbrev pub compact_index_offset : ℕ
compact_index_offset = 128

abbrev pub compact_data_offset : ℕ → ℕ
compact_data_offset block_count = 128 + block_count * index_size

-- CompactLayoutCalculator::getMaxBlocksPerChunk
abbrev pub max_blocks_per_chunk : ℕ
max_blocks_per_chunk = 10000

-- validateCompactChunkHeader
unfoldable pub validate_header : CompactHeader → Bool
validate_header h =
    if not (h.magic == compact_magic)
    then false
    else if not (h.version == 1)
    then false
    else if not (h.header_size == 128)
    then false
    else true
