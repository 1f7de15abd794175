-- ===== src/Blocks/RoundTrip.antt =====
-- Records of a tag buffer that go to an uncompressed block and come back.
use x_tdb.Base.{
  All, ℕ, zero, suc, ◌+◌, ◌*◌, ◌^◌, ◌≤◌, ◌<◌, ◌≡◌, ◌≢◌, refl, ap, ap₂, ◌∙◌, arith, true, false,
  some, List, [], ◌∷◌, length, Bytes, ltb, le→ltb, ◌==◌,
}
use x_tdb.Layout.Units.{u32}
use x_tdb.Io.{Os, File, aligned_buffer, zero_buffer}
use x_tdb.Io.Laws.{IsReliable}
use x_tdb.Mutator.{io_ok}
use x_tdb.Records.{
  ValueType, value_type_of, MemRecord, TagBuffer, enc_swinging_door, enc_quantized_16,
}
use x_tdb.Encoding.{Doubles}
use x_tdb.Seal.Crc.{calculate_crc32}
use x_tdb.Blocks.Rows.{write_rows, read_rows, read_rows_ext, read_rows-write_rows}
use x_tdb.Blocks.Raw.{
  value_size, calculate_record_size, get_record_size, write_record, read_record, raw_format,
  FitsRaw, raw_format-IsFormat,
}
use x_tdb.Blocks.Writer.{success, BlockWriter, Written, serialize_from, block_content, write_block}
use x_tdb.Blocks.Reader.{
  ReadResult, BlockReader, BlockRead, parse_from, parse_records, parsed, read_block,
  verify_block_integrity,
}
use x_tdb.Blocks.Stored.{
  IsBlock, block_read, block_read-ok, block_read-cells, write_block-ok, verify_block-ok,
}

-- A type of the enumeration has records of one size for the writer and the reader.
abbrev pub IsKnown : ValueType → Type 0
IsKnown ValueType.other = ⊥
IsKnown _ = Unit {0}

get_record_size-eq : (t : ValueType) → IsKnown t → get_record_size t ≡ 4 + value_size t
unfolding get_record_size
get_record_size-eq ValueType.bool k = refl
get_record_size-eq ValueType.i32 k = refl
get_record_size-eq ValueType.f32 k = refl
get_record_size-eq ValueType.f64 k = refl
get_record_size-eq ValueType.other k = absurd k

suc_mul : (n k : ℕ) → suc n * k ≡ k + n * k
suc_mul n k = grind arith

add_mul : (i n k : ℕ) → (i + n) * k ≡ i * k + n * k
add_mul i n k = grind arith

module _ (t : ValueType) where
  abbrev row : ℕ
  row = 4 + value_size t

  -- With room for all of them, every record is written.
  pub serialize_from-write_rows :
      (limit : ℕ) (m : Bytes) (offset n : ℕ) (rs : List MemRecord)
      → offset + length rs * row ≤ limit
      → serialize_from t limit m offset n rs
        ≡ (write_rows (raw_format t) m offset rs, offset + length rs * row, n + length rs)
  unfolding serialize_from write_rows raw_format calculate_record_size
  serialize_from-write_rows limit m offset n [] h = ground arith
  serialize_from-write_rows limit m offset n (r ∷ rs) h =
      let split = suc_mul (length rs) row in
      rw (le→ltb limit (offset + row) (omega (arith, split))) (
        serialize_from-write_rows limit (write_record t m offset r) (offset + row) (n + 1) rs
          (omega (arith, split))
        ∙ ground (arith, split))

  parse_from-read_rows :
      (m : Bytes) (left i : ℕ)
      → IsKnown t
      → (i + left) * row < 2 ^ 32
      → parse_from t m left i ≡ read_rows (raw_format t) left m (i * row)
  unfolding parse_from read_rows raw_format
  parse_from-read_rows m zero i k h = refl
  parse_from-read_rows m (suc left) i k h =
      let whole = add_mul i (suc left) row in
      let split = suc_mul left row in
      let next = add_mul i 1 row in
      let at : u32 (i * get_record_size t) ≡ i * row =
        ap (λ s. u32 (i * s)) (get_record_size-eq t k) ∙ omega (arith, whole, split) in
      ap₂ (λ (x : MemRecord) (xs : List MemRecord). x ∷ xs) (ap (read_record t m) at)
        (parse_from-read_rows m left (i + 1) k
            (omega (arith, whole, split, next, add_mul (i + 1) left row))
          ∙ ap (read_rows (raw_format t) left m) {x = (i + 1) * row} {y = i * row + row}
              (omega (arith, next)))

  -- Parsing what was serialized gives the records back.
  pub parse_records-serialized :
      (m k : Bytes) (size : ℕ) (rs records : List MemRecord)
      → IsKnown t
      → All (FitsRaw t) rs
      → size < 2 ^ 32
      → length rs * row ≤ size
      → ((a : ℕ) → a < size → k a ≡ write_rows (raw_format t) m 0 rs a)
      → parse_records k size t (length rs) records ≡ (ReadResult.success, rs)
  unfolding parse_records raw_format
  parse_records-serialized m k size rs records known fits small room same =
      let eq = get_record_size-eq t known in
      let positive : (4 + value_size t == 0) ≡ false = ground arith in
      let enough : ltb size (u32 (length rs * row)) ≡ false =
        le→ltb size (u32 (length rs * row)) (omega arith) in
      rw (eq, positive, enough)
        (ap (λ (xs : List MemRecord). (ReadResult.success, xs))
          (parse_from-read_rows k (length rs) 0 known (omega arith)
            ∙ ap (read_rows (raw_format t) (length rs) k) {x = 0 * row} {y = 0} (omega arith)
            ∙ read_rows_ext (raw_format t) (FitsRaw t) (raw_format-IsFormat t) (length rs) k
                (write_rows (raw_format t) m 0 rs) 0 (λ a l u. same a (omega arith))
            ∙ read_rows-write_rows (raw_format t) (FitsRaw t) (raw_format-IsFormat t) m 0 rs fits))

module _ (os : Os) (d : Doubles) (w : BlockWriter) (rd : BlockReader) (f : File)
    (chunk_offset index : ℕ) (b : TagBuffer) where
  abbrev pub raw_type : ValueType
  raw_type = value_type_of b.value_type

  -- What writeBlock leaves for a buffer of records, and what readBlock then makes of it.
  abbrev pub done_write : Written
  done_write = write_block os d w f chunk_offset index b true

  abbrev pub done_read : BlockRead
  done_read = read_block os rd done_write.3 chunk_offset index raw_type (length b.records) []

  -- The records of a tag buffer with no compression, whose type is of the enumeration, each of which
  -- fits its fields, and all of which fit the block together, are written and read back unchanged,
  -- and the block passes the check against the checksum that the write has returned. The layout is
  -- one of whole extents below 2^32 bytes a block, the block index is in range, and the system calls
  -- are assumed to do what they are asked.
  pub read_block-write_block :
      IsReliable os
      → f.is_open ≡ true
      → IsBlock w.layout chunk_offset index
      → rd.layout ≡ w.layout
      → w.layout.block_size_bytes < 2 ^ 32
      → b.encoding_type ≢ enc_swinging_door
      → b.encoding_type ≢ enc_quantized_16
      → IsKnown raw_type
      → All (FitsRaw raw_type) b.records
      → length b.records * (4 + value_size raw_type) ≤ w.layout.block_size_bytes
      → (done_write.0 ≡ success)
        × (done_read.0 ≡ ReadResult.success)
        × (done_read.1 ≡ b.records)
        × ((crc : ℕ) × (done_write.1 ≡ some crc)
            × ((verify_block_integrity os rd done_write.3 chunk_offset index crc).0
                ≡ ReadResult.success))
  unfolding block_content read_block parsed
  read_block-write_block r o v same small no_door no_quantized known fits room =
      let size = w.layout.block_size_bytes in
      let start = (zero_buffer (aligned_buffer os size)).cells in
      let m = write_rows (raw_format raw_type) start 0 b.records in
      let not_door : (b.encoding_type == enc_swinging_door) ≡ false = ground arith in
      let not_quantized : (b.encoding_type == enc_quantized_16) ≡ false = ground arith in
      let content : block_content d b start size
          ≡ some (m, 0 + length b.records * (4 + value_size raw_type), 0 + length b.records) =
        rw (not_door, not_quantized)
          (ap (λ x. some x)
            (serialize_from-write_rows raw_type size start 0 0 b.records (omega arith))) in
      let (ok, crc, file) =
        write_block-ok os f w chunk_offset index m r o v d b _ _ content (omega arith) in
      let io = ap io_ok (block_read-ok os f w chunk_offset index m r o v) in
      let back =
        parse_records-serialized raw_type start
          (block_read os f w chunk_offset index m r o v).1.cells size b.records [] known fits small
          room (block_read-cells os f w chunk_offset index m r o v) in
      (
        ok,
        rw (file, same, io, back),
        rw (file, same, io, back),
        (
          calculate_crc32 m size,
          crc,
          ap (λ g. (verify_block_integrity os rd g chunk_offset index (calculate_crc32 m size)).0)
                file
              ∙ verify_block-ok os f w chunk_offset index m r o v rd same,
        ),
      )
