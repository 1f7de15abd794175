-- ===== src/Blocks/Reader.antt =====
-- BlockReader of src/block_reader.cpp.
use x_tdb.Base.{
  ℕ, zero, suc, ◌+◌, ◌*◌, List, [], ◌∷◌, map, length, Bytes, load, ltb, ◌==◌, if◌then◌else◌,
}
use x_tdb.Layout.Units.{u32, u64}
use x_tdb.Layout.Calc.{ChunkLayout}
use x_tdb.Io.{Os, File, aligned_buffer, read}
use x_tdb.Structs.{BlockDirEntry}
use x_tdb.Mutator.{io_ok}
use x_tdb.Seal.Crc.{calculate_crc32}
use x_tdb.Records.{ValueType, value_type_of, MemRecord, enc_swinging_door, enc_quantized_16}
use x_tdb.Encoding.{Doubles}
use x_tdb.Encoding.Door.{Point}
use x_tdb.Encoding.Quantized.{DequantizeResult, QuantizedPoint, decode_quantized}
use x_tdb.Blocks.Rows.{read_rows}
use x_tdb.Blocks.Raw.{get_record_size, read_record}
use x_tdb.Blocks.Points.{point_format, quantized_format}
use x_tdb.Blocks.Writer.{block_offset}

pub data ReadResult : Type 0 where
  success err_io_failed err_invalid_block err_crc_mismatch err_parse_failed : ReadResult

-- BlockReader with its ReadStats.
pub record BlockReader : Type 0 where
  pub layout : ChunkLayout
  pub blocks_read : ℕ
  pub bytes_read : ℕ
  pub records_read : ℕ

-- The loop of parseRecords, by the records left and `i`, whose product with the size is a uint32_t.
unfoldable pub parse_from : ValueType → Bytes → ℕ → ℕ → List MemRecord
parse_from value_type m zero i = []
parse_from value_type m (suc left) i =
    read_record value_type m (u32 (i * get_record_size value_type))
    ∷ parse_from value_type m left (i + 1)

-- The records are those in the output vector, which the caller passes in. The size of the records is
-- a uint32_t too.
unfoldable pub parse_records :
    Bytes → ℕ → ValueType → ℕ → List MemRecord → ReadResult × List MemRecord
unfolding parse_from
parse_records m size value_type record_count records =
    if get_record_size value_type == 0
    then (err_invalid_block, records)
    else if ltb size (u32 (record_count * get_record_size value_type))
    then (err_parse_failed, records)
    else (success, parse_from value_type m record_count 0)

unfoldable pub count_read : BlockReader → ℕ → BlockReader
count_read r records = record r {
  blocks_read = u64 (r.blocks_read + 1);
  bytes_read = u64 (r.bytes_read + r.layout.block_size_bytes);
  records_read = u64 (r.records_read + records);
}

-- A call's result, the output vector, the reader and the file.
abbrev pub BlockRead : Type 0
BlockRead = ReadResult × List MemRecord × BlockReader × File

-- After parseRecords: an error is passed on, and success counted.
unfoldable pub parsed : BlockReader → File → ℕ → ReadResult × List MemRecord → BlockRead
parsed r f record_count (success, records) = (success, records, count_read r record_count, f)
parsed r f record_count (e, records) = (e, records, r, f)

-- readBlock by value type and record count. Its tag, start time and time unit are not used.
unfoldable pub read_block :
    Os → BlockReader → File → ℕ → ℕ → ValueType → ℕ → List MemRecord → BlockRead
unfolding parsed count_read
read_block os r f chunk_offset index value_type record_count records =
    let size = r.layout.block_size_bytes in
    let offset = block_offset r.layout chunk_offset index in
    let (io, buffer, f') = read os f (aligned_buffer os size) size offset in
    if io_ok io
    then parsed r f' record_count (parse_records buffer.cells size value_type record_count records)
    else (err_io_failed, records, r, f')

unfoldable pub verify_block_integrity : Os → BlockReader → File → ℕ → ℕ → ℕ → ReadResult × File
verify_block_integrity os r f chunk_offset index expected_crc32 =
    let size = r.layout.block_size_bytes in
    let offset = block_offset r.layout chunk_offset index in
    let (io, buffer, f') = read os f (aligned_buffer os size) size offset in
    if io_ok io
    then (if calculate_crc32 buffer.cells size == expected_crc32
        then (success, f')
        else (err_crc_mismatch, f'))
    else (err_io_failed, f')

-- A record of a point of the swinging door, which is not interpolated.
unfoldable pub record_of_point : Point → MemRecord
record_of_point c = record { time_offset = c.time_offset; quality = c.quality; value = c.value }

-- The conversion of the bits of a float to those of a double is the processor's too.
unfoldable pub dequantized :
    BlockReader → File → List QuantizedPoint → DequantizeResult × List MemRecord → BlockRead
dequantized r f points (DequantizeResult.success, records) =
    (success, records, count_read r (u32 (length points)), f)
dequantized r f points (_, records) = (err_parse_failed, records, r, f)

-- The branches over the encoding, for a block in memory.
unfoldable pub decode_block :
    Doubles → (ℕ → ℕ) → BlockReader → File → BlockDirEntry → Bytes → BlockRead
unfolding dequantized count_read parsed
decode_block d double_of r f entry m =
    if entry.encoding_type == enc_swinging_door
    then (let points = read_rows point_format (load m 0 4) m 4 in
        (success, map record_of_point points, count_read r (u32 (length points)), f))
    else if entry.encoding_type == enc_quantized_16
    then (let points = read_rows quantized_format (load m 0 4) m 4 in
        dequantized r f points (
          decode_quantized d (double_of entry.encoding_param1) (double_of entry.encoding_param2)
            points))
    else parsed r f entry.record_count (
        parse_records m r.layout.block_size_bytes (value_type_of entry.value_type)
          entry.record_count [])

-- readBlock by a directory entry; `double_of` gives the double of a float's bits.
unfoldable pub read_entry :
    Os → Doubles → (ℕ → ℕ) → BlockReader → File → ℕ → ℕ → BlockDirEntry → List MemRecord → BlockRead
unfolding decode_block
read_entry os d double_of r f chunk_offset index entry records =
    let size = r.layout.block_size_bytes in
    let offset = block_offset r.layout chunk_offset index in
    let (io, buffer, f') = read os f (aligned_buffer os size) size offset in
    if io_ok io
    then decode_block d double_of r f' entry buffer.cells
    else (err_io_failed, records, r, f')
