-- ===== src/Compact/Structs/RoundTrip.antt =====
-- Compact headers and indices whose fields fit their widths are read back from their bytes.
use x_tdb.Base.{ℕ, ◌+◌, ◌^◌, ◌≤◌, ◌<◌, ◌≡◌, refl, arith, Bytes, load, load_shift, ap, ◌∙◌}
use x_tdb.Structs.RoundTrip.{load_field}
use x_tdb.Compact.Structs.{
  CompactHeader, header_at, header_fields, header_bytes, CompactIndex, index_at, index_fields,
  index_bytes,
}

pub record IsCompactHeader (h : CompactHeader) : Type 0 where
  pub magic : h.magic < 256 ^ 8
  pub version : h.version < 256 ^ 2
  pub header_size : h.header_size < 256 ^ 2
  pub db_instance_id : h.db_instance_id < 256 ^ 16
  pub chunk_id : h.chunk_id < 256 ^ 4
  pub flags : h.flags < 256 ^ 4
  pub block_count : h.block_count < 256 ^ 4
  pub compression_type : h.compression_type < 256 ^ 1
  pub reserved_u8 : h.reserved_u8 < 256 ^ 3
  pub index_offset : h.index_offset < 256 ^ 8
  pub data_offset : h.data_offset < 256 ^ 8
  pub total_compressed_size : h.total_compressed_size < 256 ^ 8
  pub total_original_size : h.total_original_size < 256 ^ 8
  pub start_ts_us : h.start_ts_us < 256 ^ 8
  pub end_ts_us : h.end_ts_us < 256 ^ 8
  pub super_crc32 : h.super_crc32 < 256 ^ 4
  pub reserved1 : h.reserved1 < 256 ^ 4
  pub padding : h.padding < 256 ^ 28

pub header_at-bytes : (h : CompactHeader) → IsCompactHeader h → header_at (header_bytes h) 0 ≡ h
unfolding header_at header_bytes
header_at-bytes h f = λ i. record {
  magic = load_field (header_fields h) (λ a. 0) 0 8 h.magic refl f.magic i;
  version = load_field (header_fields h) (λ a. 0) 8 2 h.version refl f.version i;
  header_size = load_field (header_fields h) (λ a. 0) 10 2 h.header_size refl f.header_size i;
  db_instance_id =
      load_field (header_fields h) (λ a. 0) 12 16 h.db_instance_id refl f.db_instance_id i;
  chunk_id = load_field (header_fields h) (λ a. 0) 28 4 h.chunk_id refl f.chunk_id i;
  flags = load_field (header_fields h) (λ a. 0) 32 4 h.flags refl f.flags i;
  block_count = load_field (header_fields h) (λ a. 0) 36 4 h.block_count refl f.block_count i;
  compression_type =
      load_field (header_fields h) (λ a. 0) 40 1 h.compression_type refl f.compression_type i;
  reserved_u8 = load_field (header_fields h) (λ a. 0) 41 3 h.reserved_u8 refl f.reserved_u8 i;
  index_offset = load_field (header_fields h) (λ a. 0) 44 8 h.index_offset refl f.index_offset i;
  data_offset = load_field (header_fields h) (λ a. 0) 52 8 h.data_offset refl f.data_offset i;
  total_compressed_size =
      load_field (header_fields h) (λ a. 0) 60 8 h.total_compressed_size refl
        f.total_compressed_size i;
  total_original_size =
      load_field (header_fields h) (λ a. 0) 68 8 h.total_original_size refl f.total_original_size i;
  start_ts_us = load_field (header_fields h) (λ a. 0) 76 8 h.start_ts_us refl f.start_ts_us i;
  end_ts_us = load_field (header_fields h) (λ a. 0) 84 8 h.end_ts_us refl f.end_ts_us i;
  super_crc32 = load_field (header_fields h) (λ a. 0) 92 4 h.super_crc32 refl f.super_crc32 i;
  reserved1 = load_field (header_fields h) (λ a. 0) 96 4 h.reserved1 refl f.reserved1 i;
  padding = load_field (header_fields h) (λ a. 0) 100 28 h.padding refl f.padding i;
}

pub header_shift :
    (m n : Bytes) (p q : ℕ)
    → ((i k : ℕ) → i + k ≤ 128 → load m (p + i) k ≡ load n (q + i) k)
    → header_at m p ≡ header_at n q
unfolding header_at
header_shift m n p q h = ground (
  arith,
  h 0 8,
  h 8 2,
  h 10 2,
  h 12 16,
  h 28 4,
  h 32 4,
  h 36 4,
  h 40 1,
  h 41 3,
  h 44 8,
  h 52 8,
  h 60 8,
  h 68 8,
  h 76 8,
  h 84 8,
  h 92 4,
  h 96 4,
  h 100 28,
)

pub record IsCompactIndex (e : CompactIndex) : Type 0 where
  pub tag_id : e.tag_id < 256 ^ 4
  pub original_block_index : e.original_block_index < 256 ^ 4
  pub data_offset : e.data_offset < 256 ^ 8
  pub compressed_size : e.compressed_size < 256 ^ 4
  pub original_size : e.original_size < 256 ^ 4
  pub start_ts_us : e.start_ts_us < 256 ^ 8
  pub end_ts_us : e.end_ts_us < 256 ^ 8
  pub record_count : e.record_count < 256 ^ 4
  pub original_encoding : e.original_encoding < 256 ^ 1
  pub value_type : e.value_type < 256 ^ 1
  pub time_unit : e.time_unit < 256 ^ 1
  pub reserved_u8 : e.reserved_u8 < 256 ^ 1
  pub block_crc32 : e.block_crc32 < 256 ^ 4
  pub reserved1 : e.reserved1 < 256 ^ 4
  pub padding : e.padding < 256 ^ 24

pub index_at-bytes : (e : CompactIndex) → IsCompactIndex e → index_at (index_bytes e) 0 ≡ e
unfolding index_at index_bytes
index_at-bytes e f = λ i. record {
  tag_id = load_field (index_fields e) (λ a. 0) 0 4 e.tag_id refl f.tag_id i;
  original_block_index =
      load_field (index_fields e) (λ a. 0) 4 4 e.original_block_index refl f.original_block_index i;
  data_offset = load_field (index_fields e) (λ a. 0) 8 8 e.data_offset refl f.data_offset i;
  compressed_size =
      load_field (index_fields e) (λ a. 0) 16 4 e.compressed_size refl f.compressed_size i;
  original_size = load_field (index_fields e) (λ a. 0) 20 4 e.original_size refl f.original_size i;
  start_ts_us = load_field (index_fields e) (λ a. 0) 24 8 e.start_ts_us refl f.start_ts_us i;
  end_ts_us = load_field (index_fields e) (λ a. 0) 32 8 e.end_ts_us refl f.end_ts_us i;
  record_count = load_field (index_fields e) (λ a. 0) 40 4 e.record_count refl f.record_count i;
  original_encoding =
      load_field (index_fields e) (λ a. 0) 44 1 e.original_encoding refl f.original_encoding i;
  value_type = load_field (index_fields e) (λ a. 0) 45 1 e.value_type refl f.value_type i;
  time_unit = load_field (index_fields e) (λ a. 0) 46 1 e.time_unit refl f.time_unit i;
  reserved_u8 = load_field (index_fields e) (λ a. 0) 47 1 e.reserved_u8 refl f.reserved_u8 i;
  block_crc32 = load_field (index_fields e) (λ a. 0) 48 4 e.block_crc32 refl f.block_crc32 i;
  reserved1 = load_field (index_fields e) (λ a. 0) 52 4 e.reserved1 refl f.reserved1 i;
  padding = load_field (index_fields e) (λ a. 0) 56 24 e.padding refl f.padding i;
}

pub index_shift :
    (m n : Bytes) (p q : ℕ)
    → ((i k : ℕ) → i + k ≤ 80 → load m (p + i) k ≡ load n (q + i) k)
    → index_at m p ≡ index_at n q
unfolding index_at
index_shift m n p q h = ground (
  arith,
  h 0 4,
  h 4 4,
  h 8 8,
  h 16 4,
  h 20 4,
  h 24 8,
  h 32 8,
  h 40 4,
  h 44 1,
  h 45 1,
  h 46 1,
  h 47 1,
  h 48 4,
  h 52 4,
  h 56 24,
)

-- A struct is read from bytes that agree with its own.
pub header_at-copied :
    (m : Bytes) (p : ℕ) (h : CompactHeader)
    → IsCompactHeader h
    → ((a : ℕ) → a < 128 → m (p + a) ≡ header_bytes h a)
    → header_at m p ≡ h
header_at-copied m p h f same =
    header_shift m (header_bytes h) p 0 (λ i k l.
      load_shift m (header_bytes h) (p + i) (0 + i) k (λ j u.
        ap m {x = p + i + j} {y = p + (i + j)} (omega arith)
        ∙ same (i + j) (omega arith)
        ∙ ap (header_bytes h) (omega arith)))
    ∙ header_at-bytes h f

pub index_at-copied :
    (m : Bytes) (p : ℕ) (e : CompactIndex)
    → IsCompactIndex e
    → ((a : ℕ) → a < 80 → m (p + a) ≡ index_bytes e a)
    → index_at m p ≡ e
index_at-copied m p e f same =
    index_shift m (index_bytes e) p 0 (λ i k l.
      load_shift m (index_bytes e) (p + i) (0 + i) k (λ j u.
        ap m {x = p + i + j} {y = p + (i + j)} (omega arith)
        ∙ same (i + j) (omega arith)
        ∙ ap (index_bytes e) (omega arith)))
    ∙ index_at-bytes e f
