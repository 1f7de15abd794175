-- ===== src/Blocks/Writer.antt =====
-- BlockWriter::writeBlock of src/block_writer.cpp. What the memcpy calls put behind the end of the
-- buffer is kept in the bytes of the model; the file gets the first block_size_bytes of them.
use x_tdb.Base.{
  ℕ, ◌+◌, ◌*◌, Bool, Option, none, some, List, [], ◌∷◌, length, Bytes, store, ltb, leb, ◌==◌,
  if◌then◌else◌,
}
use x_tdb.Layout.Units.{u32, u64}
use x_tdb.Layout.Calc.{ChunkLayout}
use x_tdb.Io.{Os, File, Buffer, aligned_buffer, zero_buffer, write}
use x_tdb.Mutator.{io_ok}
use x_tdb.Seal.Crc.{calculate_crc32}
use x_tdb.Records.{
  ValueType, value_type_of, MemRecord, TagBuffer, enc_swinging_door, enc_quantized_16,
}
use x_tdb.Encoding.{Doubles}
use x_tdb.Encoding.Door.{DoorResult, Point, encode}
use x_tdb.Encoding.Quantized.{QuantizeResult, QuantizedPoint, encode_quantized}
use x_tdb.Blocks.Rows.{Format, write_rows}
use x_tdb.Blocks.Raw.{calculate_record_size, write_record}
use x_tdb.Blocks.Points.{point_format, quantized_format}

pub data BlockWriteResult : Type 0 where
  success err_io_failed err_buffer_too_large err_invalid_layout err_invalid_block_index :
      BlockWriteResult

-- BlockWriter with its BlockWriteStats; container_base_ is kept and never read.
pub record BlockWriter : Type 0 where
  pub layout : ChunkLayout
  pub blocks_written : ℕ
  pub bytes_written : ℕ
  pub records_written : ℕ

-- The loop of serializeRecords: the bytes, the final offset and the records written.
unfoldable pub serialize_from : ValueType → ℕ → Bytes → ℕ → ℕ → List MemRecord → Bytes × ℕ × ℕ
serialize_from value_type buffer_size m offset written [] = (m, offset, written)
serialize_from value_type buffer_size m offset written (r ∷ rs) =
    let size = calculate_record_size value_type in
    let rest =
      serialize_from value_type buffer_size (write_record value_type m offset r) (offset + size)
        (written + 1) rs in
    if ltb buffer_size (offset + size) then (m, offset, written) else rest

-- What the encodings leave: the bytes, data_size and the records counted, or nothing where the
-- encoder failed.
abbrev pub Content : Type 0
Content = Option (Bytes × ℕ × ℕ)

-- The count of points, then the points.
unfoldable pub counted_rows : {X : Type 0} → Format X → Bytes → List X → Content
counted_rows format m xs =
    some (write_rows format (store m 0 4 (u32 (length xs))) 4 xs, 4 + length xs * format.size, 0)

unfoldable pub door_content : DoorResult × List Point → Bytes → Content
unfolding counted_rows
door_content (DoorResult.success, points) m = counted_rows point_format m points
door_content (_, points) m = none

unfoldable pub quantized_content : QuantizeResult × List QuantizedPoint → Bytes → Content
unfolding counted_rows
quantized_content (QuantizeResult.success, points) m = counted_rows quantized_format m points
quantized_content (_, points) m = none

unfoldable pub block_content : Doubles → TagBuffer → Bytes → ℕ → Content
unfolding door_content quantized_content
block_content d b m buffer_size =
    if b.encoding_type == enc_swinging_door
    then door_content (encode d b.encoding_tolerance b.encoding_compression_factor b.records) m
    else if b.encoding_type == enc_quantized_16
    then quantized_content
        (encode_quantized d b.encoding_tolerance b.encoding_compression_factor b.records) m
    else some (serialize_from (value_type_of b.value_type) buffer_size m 0 0 b.records)

-- `chunk_offset + (uint64_t)(meta_blocks + index) * block_size_bytes`
unfoldable pub block_offset : ChunkLayout → ℕ → ℕ → ℕ
block_offset layout chunk_offset index =
    u64 (chunk_offset + u32 (layout.meta_blocks + index) * layout.block_size_bytes)

-- A call's result, what it puts into *out_crc32, the writer and the file.
abbrev pub Written : Type 0
Written = BlockWriteResult × Option ℕ × BlockWriter × File

-- The end of writeBlock: the size check, the checksum and the write.
unfoldable pub write_content : Os → BlockWriter → File → Buffer → ℕ → Bool → Content → Written
write_content os w f buffer offset wants_crc none = (err_io_failed, none, w, f)
write_content os w f buffer offset wants_crc (some (m, data_size, records)) =
    let size = w.layout.block_size_bytes in
    let counted = record w { records_written = u64 (w.records_written + records) } in
    let crc = if wants_crc then some (calculate_crc32 m size) else none in
    let (r, f') = write os f (record buffer { cells = m }) size offset in
    if ltb size data_size
    then (err_buffer_too_large, none, counted, f)
    else if io_ok r
    then (
      success,
      crc,
      record counted {
        blocks_written = u64 (w.blocks_written + 1);
        bytes_written = u64 (w.bytes_written + size);
      },
      f',
    )
    else (err_io_failed, crc, counted, f')

unfoldable pub write_block : Os → Doubles → BlockWriter → File → ℕ → ℕ → TagBuffer → Bool → Written
unfolding write_content block_content
write_block os d w f chunk_offset index b wants_crc =
    let buffer = zero_buffer (aligned_buffer os w.layout.block_size_bytes) in
    if leb w.layout.data_blocks index
    then (err_invalid_block_index, none, w, f)
    else write_content os w f buffer (block_offset w.layout chunk_offset index) wants_crc
        (block_content d b buffer.cells buffer.length)
