-- ===== src/Compact/Ready.antt =====
-- What a compact container's header and indices satisfy while blocks are written.
use x_tdb.Base.{
  All, ℕ, ◌+◌, ◌^◌, ◌<◌, ◌≡◌, ap, arith, true, false, inl, inr, List, [], ◌∷◌, ◌++◌, length,
  length-append, All-append, Bool-cases,
}
use x_tdb.Layout.Units.{u64}
use x_tdb.Flags.{clear_bit, is_bit_set, chunk_is_sealed}
use x_tdb.Flags.Laws.{bit-clear_bit, clear_bit-lt, is_bit_set-true}
use x_tdb.Io.{File}
use x_tdb.Compact.Structs.{CompactHeader, compact_magic}
use x_tdb.Compact.Structs.RoundTrip.{IsCompactHeader, IsCompactIndex}
use x_tdb.Compact.Files.{success, Calls}
use x_tdb.Compact.Container.{
  Compressor, CompactContainer, is_success, Checksum, BlockMeta, new_index, counted_header,
  store_block, sealed_header,
}
use x_tdb.Compact.Kept.{IsChecksum, Block, write, write_block_lem}
use x_tdb.Compact.Written.{is_success→success, write_blocks}

pub record IsBlockMeta (b : BlockMeta) : Type 0 where
  pub tag_id : b.tag_id < 256 ^ 4
  pub block_index : b.block_index < 256 ^ 4
  pub start_ts_us : b.start_ts_us < 256 ^ 8
  pub end_ts_us : b.end_ts_us < 256 ^ 8
  pub record_count : b.record_count < 256 ^ 4
  pub original_encoding : b.original_encoding < 256 ^ 1
  pub value_type : b.value_type < 256 ^ 1
  pub time_unit : b.time_unit < 256 ^ 1

-- A block whose arguments fit their types.
pub record IsBlock (b : Block) : Type 0 where
  pub meta : IsBlockMeta b.meta
  pub size : b.size < 2 ^ 31

pub record IsReady (c : CompactContainer) : Type 0 where
  pub writable : c.read_only ≡ false
  pub unsealed : c.is_sealed ≡ false
  pub magic : c.header.magic ≡ compact_magic
  pub version : c.header.version ≡ 1
  pub header_size : c.header.header_size ≡ 128
  pub header : IsCompactHeader c.header
  pub count : c.header.block_count ≡ length c.block_indices
  pub total : c.header.total_compressed_size ≡ c.current_data_offset
  pub offset : c.current_data_offset < 2 ^ 64
  pub indices : All IsCompactIndex c.block_indices

counted_header-IsCompactHeader :
    (h : CompactHeader) (b : BlockMeta) (count k size : ℕ)
    → IsCompactHeader h
    → IsBlockMeta b
    → IsCompactHeader (counted_header h b count k size)
unfolding counted_header
counted_header-IsCompactHeader h b count k size v m = record {
  magic = v.magic;
  version = v.version;
  header_size = v.header_size;
  db_instance_id = v.db_instance_id;
  chunk_id = v.chunk_id;
  flags = v.flags;
  block_count = omega arith;
  compression_type = v.compression_type;
  reserved_u8 = v.reserved_u8;
  index_offset = v.index_offset;
  data_offset = v.data_offset;
  total_compressed_size = omega arith;
  total_original_size = omega arith;
  start_ts_us = ground (arith, v.start_ts_us, m.start_ts_us);
  end_ts_us = ground (arith, v.end_ts_us, m.end_ts_us);
  super_crc32 = v.super_crc32;
  reserved1 = v.reserved1;
  padding = v.padding;
}

module _ (os : Calls) (crc32 : Checksum) (z : Compressor) (checks : IsChecksum crc32) where
  new_index-IsCompactIndex :
      (b : Block) (k end : ℕ)
      → IsBlock b
      → end < 2 ^ 64
      → IsCompactIndex (new_index crc32 b.meta b.source b.size k end)
  unfolding new_index
  new_index-IsCompactIndex b k end v l = record {
    tag_id = v.meta.tag_id;
    original_block_index = v.meta.block_index;
    data_offset = l;
    compressed_size = omega arith;
    original_size = omega (arith, v.size);
    start_ts_us = v.meta.start_ts_us;
    end_ts_us = v.meta.end_ts_us;
    record_count = v.meta.record_count;
    original_encoding = v.meta.original_encoding;
    value_type = v.meta.value_type;
    time_unit = v.meta.time_unit;
    reserved_u8 = omega arith;
    block_crc32 = omega (arith, checks.bounded b.source b.size);
    reserved1 = omega arith;
    padding = omega arith;
  }

  write_block-IsReady :
      (c : CompactContainer) (f : File) (b : Block)
      → IsReady c
      → IsBlock b
      → (write os crc32 z c f b).0 ≡ success
      → IsReady (write os crc32 z c f b).1
  unfolding store_block
  write_block-IsReady c f b v m ok =
      let (x, n, compressed, fine, room, pos, eq) = write_block_lem os crc32 z c f b ok in
      let e = new_index crc32 b.meta b.source b.size n c.current_data_offset in
      let longer = length-append c.block_indices (e ∷ []) in
      rw (eq, ap is_success fine)
        (record {
          writable = v.writable;
          unsealed = v.unsealed;
          magic = v.magic;
          version = v.version;
          header_size = v.header_size;
          header =
              counted_header-IsCompactHeader c.header b.meta (length (c.block_indices ++ e ∷ [])) n
                b.size v.header m.meta;
          count = omega (arith, longer, room);
          total = ap (λ t. u64 (t + n)) v.total;
          offset = omega arith;
          indices =
              All-append IsCompactIndex c.block_indices e v.indices
                (new_index-IsCompactIndex b n c.current_data_offset m v.offset);
        })

  pub write_blocks-IsReady :
      (c : CompactContainer) (f : File) (bs : List Block)
      → IsReady c
      → All IsBlock bs
      → (write_blocks os crc32 z c f bs).0 ≡ true
      → IsReady (write_blocks os crc32 z c f bs).1
  unfolding write_blocks
  write_blocks-IsReady c f [] v m ok = v
  write_blocks-IsReady c f (b ∷ bs) v m ok =
      let (r, c', f') = write os crc32 z c f b in
      elim (Bool-cases (is_success r)) [
        | inl fine ↦
            let rest : (write_blocks os crc32 z c' f' bs).0 ≡ true = ground (arith, fine) in
            rw fine (
              write_blocks-IsReady c' f' bs
                (write_block-IsReady c f b v m.0 (is_success→success r fine)) m.1 rest)
        | inr failed ↦ absurd (ground (arith, failed))
      ]

  -- The header that seal writes can be read back, and says that the container is sealed.
  pub sealed_header-IsCompactHeader :
      (h : CompactHeader)
      → IsCompactHeader h
      → IsCompactHeader (sealed_header crc32 h)
        × (chunk_is_sealed (sealed_header crc32 h).flags ≡ true)
  unfolding sealed_header
  sealed_header-IsCompactHeader h v = (
    record {
      magic = v.magic;
      version = v.version;
      header_size = v.header_size;
      db_instance_id = v.db_instance_id;
      chunk_id = v.chunk_id;
      flags = omega (arith, clear_bit-lt h.flags 1 (omega (arith, v.flags)));
      block_count = v.block_count;
      compression_type = v.compression_type;
      reserved_u8 = v.reserved_u8;
      index_offset = omega arith;
      data_offset = omega arith;
      total_compressed_size = v.total_compressed_size;
      total_original_size = v.total_original_size;
      start_ts_us = v.start_ts_us;
      end_ts_us = v.end_ts_us;
      super_crc32 = omega (arith, checks.bounded _ 92);
      reserved1 = v.reserved1;
      padding = v.padding;
    },
    elim (Bool-cases (is_bit_set (clear_bit h.flags 1) 1)) [
      | inl set ↦ absurd (
          omega (
            arith,
            is_bit_set-true (clear_bit h.flags 1) 1
                (clear_bit-lt h.flags 1 (omega (arith, v.flags))) set,
            bit-clear_bit h.flags 1 1 (omega (arith, v.flags)) (omega arith),
          ))
      | inr clear ↦ rw clear
    ],
  )
