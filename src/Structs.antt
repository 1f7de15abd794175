-- ===== src/Structs.antt =====
-- RawChunkHeaderV16 and BlockDirEntryV16 of include/xTdb/struct_defs.h: the packed structs as
-- records, and their bytes. A multi-byte field is its little-endian bit pattern, signed or not;
-- `magic`, `db_instance_id`, `padding` and the reserved words are taken as single fields.
pub mod RoundTrip
use x_tdb.Base.{ℕ, ◌+◌, ◌*◌, ◌^◌, ◌<◌, List, [], ◌∷◌, Bytes, load, store}
use x_tdb.Flags.{flags_init}

pub record ChunkHeader : Type 0 where
  pub magic : ℕ
  pub version : ℕ
  pub header_size : ℕ
  pub db_instance_id : ℕ
  pub chunk_id : ℕ
  pub flags : ℕ
  pub chunk_size_extents : ℕ
  pub block_size_extents : ℕ
  pub meta_blocks : ℕ
  pub data_blocks : ℕ
  pub start_ts_us : ℕ
  pub end_ts_us : ℕ
  pub super_crc32 : ℕ
  pub reserved0 : ℕ
  pub padding : ℕ

-- kRawChunkMagic, "XTSRAWCK", first character lowest
abbrev pub raw_chunk_magic : ℕ
raw_chunk_magic =
    b'X'
    + 256
      * (b'T'
          + 256 * (b'S' + 256 * (b'R' + 256 * (b'A' + 256 * (b'W' + 256 * (b'C' + 256 * b'K'))))))

-- The constructor's defaults.
abbrev pub default_chunk_header : ChunkHeader
default_chunk_header = record {
  magic = raw_chunk_magic;
  version = 0x0106;
  header_size = 128;
  db_instance_id = 0;
  chunk_id = 0;
  flags = flags_init;
  chunk_size_extents = 0;
  block_size_extents = 0;
  meta_blocks = 0;
  data_blocks = 0;
  start_ts_us = 0x7FFF_FFFF_FFFF_FFFF;
  end_ts_us = 0x7FFF_FFFF_FFFF_FFFF;
  super_crc32 = 0xFFFF_FFFF;
  reserved0 = 0;
  padding = 0;
}

-- The struct at address `p`.
unfoldable pub chunk_header_at : Bytes → ℕ → ChunkHeader
chunk_header_at m p = record {
  magic = load m p 8;
  version = load m (p + 8) 2;
  header_size = load m (p + 10) 2;
  db_instance_id = load m (p + 12) 16;
  chunk_id = load m (p + 28) 4;
  flags = load m (p + 32) 4;
  chunk_size_extents = load m (p + 36) 4;
  block_size_extents = load m (p + 40) 4;
  meta_blocks = load m (p + 44) 4;
  data_blocks = load m (p + 48) 4;
  start_ts_us = load m (p + 52) 8;
  end_ts_us = load m (p + 60) 8;
  super_crc32 = load m (p + 68) 4;
  reserved0 = load m (p + 72) 4;
  padding = load m (p + 76) 52;
}

-- The bytes of a struct, as a source for `memcpy`: each field with its offset and width.
unfoldable pub store_fields : List (ℕ × ℕ × ℕ) → Bytes → Bytes
store_fields [] m = m
store_fields ((p, k, v) ∷ fields) m = store (store_fields fields m) p k v

abbrev pub chunk_header_fields : ChunkHeader → List (ℕ × ℕ × ℕ)
chunk_header_fields h =
    (0, 8, h.magic)
    ∷ (8, 2, h.version)
    ∷ (10, 2, h.header_size)
    ∷ (12, 16, h.db_instance_id)
    ∷ (28, 4, h.chunk_id)
    ∷ (32, 4, h.flags)
    ∷ (36, 4, h.chunk_size_extents)
    ∷ (40, 4, h.block_size_extents)
    ∷ (44, 4, h.meta_blocks)
    ∷ (48, 4, h.data_blocks)
    ∷ (52, 8, h.start_ts_us)
    ∷ (60, 8, h.end_ts_us)
    ∷ (68, 4, h.super_crc32)
    ∷ (72, 4, h.reserved0)
    ∷ (76, 52, h.padding)
    ∷ []

unfoldable pub chunk_header_bytes : ChunkHeader → Bytes
chunk_header_bytes h = store_fields (chunk_header_fields h) (λ a. 0)

pub record BlockDirEntry : Type 0 where
  pub tag_id : ℕ
  pub value_type : ℕ
  pub time_unit : ℕ
  pub encoding_type : ℕ
  pub reserved_u8 : ℕ
  pub record_size : ℕ
  pub reserved_u16 : ℕ
  pub flags : ℕ
  pub start_ts_us : ℕ
  pub end_ts_us : ℕ
  pub record_count : ℕ
  pub data_crc32 : ℕ
  pub encoding_param1 : ℕ
  pub encoding_param2 : ℕ
  pub reserved_u32 : ℕ

-- The constructor's defaults; 0xFFFFFFFF records mark a block that is not sealed.
abbrev pub default_entry : BlockDirEntry
default_entry = record {
  tag_id = 0;
  value_type = 0;
  time_unit = 0;
  encoding_type = 0;
  reserved_u8 = 0;
  record_size = 0;
  reserved_u16 = 0;
  flags = flags_init;
  start_ts_us = 0x7FFF_FFFF_FFFF_FFFF;
  end_ts_us = 0x7FFF_FFFF_FFFF_FFFF;
  record_count = 0xFFFF_FFFF;
  data_crc32 = 0xFFFF_FFFF;
  encoding_param1 = 0;
  encoding_param2 = 0;
  reserved_u32 = 0;
}

unfoldable pub entry_at : Bytes → ℕ → BlockDirEntry
entry_at m p = record {
  tag_id = load m p 4;
  value_type = load m (p + 4) 1;
  time_unit = load m (p + 5) 1;
  encoding_type = load m (p + 6) 1;
  reserved_u8 = load m (p + 7) 1;
  record_size = load m (p + 8) 2;
  reserved_u16 = load m (p + 10) 2;
  flags = load m (p + 12) 4;
  start_ts_us = load m (p + 16) 8;
  end_ts_us = load m (p + 24) 8;
  record_count = load m (p + 32) 4;
  data_crc32 = load m (p + 36) 4;
  encoding_param1 = load m (p + 40) 4;
  encoding_param2 = load m (p + 44) 4;
  reserved_u32 = load m (p + 48) 16;
}

abbrev pub entry_fields : BlockDirEntry → List (ℕ × ℕ × ℕ)
entry_fields e =
    (0, 4, e.tag_id)
    ∷ (4, 1, e.value_type)
    ∷ (5, 1, e.time_unit)
    ∷ (6, 1, e.encoding_type)
    ∷ (7, 1, e.reserved_u8)
    ∷ (8, 2, e.record_size)
    ∷ (10, 2, e.reserved_u16)
    ∷ (12, 4, e.flags)
    ∷ (16, 8, e.start_ts_us)
    ∷ (24, 8, e.end_ts_us)
    ∷ (32, 4, e.record_count)
    ∷ (36, 4, e.data_crc32)
    ∷ (40, 4, e.encoding_param1)
    ∷ (44, 4, e.encoding_param2)
    ∷ (48, 16, e.reserved_u32)
    ∷ []

unfoldable pub entry_bytes : BlockDirEntry → Bytes
entry_bytes e = store_fields (entry_fields e) (λ a. 0)

-- Each field fits its width.
pub record IsChunkHeader (h : ChunkHeader) : Type 0 where
  pub magic : h.magic < 256 ^ 8
  pub version : h.version < 256 ^ 2
  pub header_size : h.header_size < 256 ^ 2
  pub db_instance_id : h.db_instance_id < 256 ^ 16
  pub chunk_id : h.chunk_id < 256 ^ 4
  pub flags : h.flags < 256 ^ 4
  pub chunk_size_extents : h.chunk_size_extents < 256 ^ 4
  pub block_size_extents : h.block_size_extents < 256 ^ 4
  pub meta_blocks : h.meta_blocks < 256 ^ 4
  pub data_blocks : h.data_blocks < 256 ^ 4
  pub start_ts_us : h.start_ts_us < 256 ^ 8
  pub end_ts_us : h.end_ts_us < 256 ^ 8
  pub super_crc32 : h.super_crc32 < 256 ^ 4
  pub reserved0 : h.reserved0 < 256 ^ 4
  pub padding : h.padding < 256 ^ 52

pub record IsEntry (e : BlockDirEntry) : Type 0 where
  pub tag_id : e.tag_id < 256 ^ 4
  pub value_type : e.value_type < 256 ^ 1
  pub time_unit : e.time_unit < 256 ^ 1
  pub encoding_type : e.encoding_type < 256 ^ 1
  pub reserved_u8 : e.reserved_u8 < 256 ^ 1
  pub record_size : e.record_size < 256 ^ 2
  pub reserved_u16 : e.reserved_u16 < 256 ^ 2
  pub flags : e.flags < 256 ^ 4
  pub start_ts_us : e.start_ts_us < 256 ^ 8
  pub end_ts_us : e.end_ts_us < 256 ^ 8
  pub record_count : e.record_count < 256 ^ 4
  pub data_crc32 : e.data_crc32 < 256 ^ 4
  pub encoding_param1 : e.encoding_param1 < 256 ^ 4
  pub encoding_param2 : e.encoding_param2 < 256 ^ 4
  pub reserved_u32 : e.reserved_u32 < 256 ^ 16
