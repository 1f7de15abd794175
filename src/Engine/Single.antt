-- ===== src/Engine/Single.antt =====
-- flushSingleTag, and the callback of the log for a segment that is full.
use x_tdb.Base.{
  ℕ, ◌+◌, ◌*◌, Bool, true, false, not, Option, none, some, List, [], ◌∷◌, length, ltb, ◌==◌,
  if◌then◌else◌,
}
use x_tdb.Layout.Units.{u32, u64}
use x_tdb.Layout.Calc.{ChunkLayout}
use x_tdb.Io.{File}
use x_tdb.Rotating.Segment.{RotatingWal, rotating_ok}
use x_tdb.Rotating.Rotate.{clear_segment}
use x_tdb.Directory.{DirectoryBuilder, BlockSeal, seal_block, write_directory}
use x_tdb.Records.{MemRecord, TagBuffer}
use x_tdb.MemBuffer.{find, put}
use x_tdb.Blocks.Writer.{BlockWriteResult, BlockWriter, write_block}
use x_tdb.Engine.State.{success, err_invalid_data, engine_ok, dir_ok, Engine, Platform, Step, ◌>>◌}
use x_tdb.Engine.Chunks.{roll_over_single}

-- The BlockWriter that each write makes.
abbrev pub new_writer : ChunkLayout → BlockWriter
new_writer layout = record {
  layout = layout;
  blocks_written = 0;
  bytes_written = 0;
  records_written = 0;
}

abbrev pub write_ok : BlockWriteResult → Bool
write_ok BlockWriteResult.success = true
write_ok _ = false

-- The loop for the greatest time offset.
unfoldable pub max_offset_from : ℕ → List MemRecord → ℕ
max_offset_from m [] = m
max_offset_from m (r ∷ rs) = max_offset_from (if ltb m r.time_offset then r.time_offset else m) rs

-- `start_ts_us + max_offset * 1000`
abbrev pub block_end_ts : TagBuffer → ℕ
block_end_ts b = u64 (b.start_ts_us + max_offset_from 0 b.records * 1000)

-- The directory entry of a buffer that is written, under its key in the map.
abbrev pub block_seal : Platform → ℕ → TagBuffer → ℕ → BlockSeal
block_seal p tag_id b crc = record {
  tag_id = tag_id;
  start_ts_us = b.start_ts_us;
  end_ts_us = block_end_ts b;
  time_unit = b.time_unit;
  value_type = b.value_type;
  record_count = u32 (length b.records);
  data_crc32 = crc;
  encoding_type = b.encoding_type;
  encoding_param1 = p.float_of_double b.encoding_tolerance;
  encoding_param2 = p.float_of_double b.encoding_compression_factor;
}

abbrev pub crc_or_zero : Option ℕ → ℕ
crc_or_zero none = 0
crc_or_zero (some crc) = crc

abbrev pub count_flushed : Engine → Engine
count_flushed e = record e {
  write_stats = record e.write_stats { blocks_flushed = u64 (e.write_stats.blocks_flushed + 1) };
}

-- The entry is set, the directory written, and the chunk and the buffer brought up to date.
unfoldable pub seal_single : Platform → ℕ → TagBuffer → ℕ → Option DirectoryBuilder → Step
seal_single p tag_id b crc none e = (err_invalid_data, e)
seal_single p tag_id b crc (some builder) e =
    let (s, builder') = seal_block builder e.active.blocks_used (block_seal p tag_id b crc) in
    let (d, f) = write_directory p.os builder' e.io in
    let a = e.active in
    if not (dir_ok s)
    then (err_invalid_data, record e { dir_builder = some builder' })
    else if not (dir_ok d)
    then (err_invalid_data, record e { dir_builder = some builder'; io = f })
    else (
      success,
      record e {
        dir_builder = some builder';
        io = f;
        active = record a {
          blocks_used = u32 (a.blocks_used + 1);
          start_ts_us = if a.start_ts_us == 0 then b.start_ts_us else a.start_ts_us;
          end_ts_us = block_end_ts b;
        };
        buffers = put tag_id (record b { records = [] }) e.buffers;
      },
    )

-- The block's write and what follows it.
unfoldable pub write_single : Platform → ℕ → TagBuffer → Step
unfolding seal_single
write_single p tag_id b e =
    let (r, crc, w, f) =
      write_block p.os p.doubles (new_writer e.config.layout) e.io e.active.chunk_offset
        e.active.blocks_used b true in
    let e' = record e { io = f } in
    if not (write_ok r)
    then (err_invalid_data, e')
    else seal_single p tag_id b (crc_or_zero crc) e.dir_builder (count_flushed e')

unfoldable pub flush_single_tag : Platform → ℕ → TagBuffer → Step
unfolding ◌>>◌
flush_single_tag p tag_id b e =
    if length b.records == 0
    then (success, e)
    else (roll_over_single p >> write_single p tag_id b) e

unfoldable pub flush_found : Platform → ℕ → Option TagBuffer → Step
flush_found p tag_id none e = (success, e)
flush_found p tag_id (some b) e = flush_single_tag p tag_id b e

-- The loop over the tags of the segment.
unfoldable pub flush_segment_tags : Platform → List ℕ → Engine → Bool × Engine
unfolding flush_found
flush_segment_tags p [] e = (true, e)
flush_segment_tags p (t ∷ ts) e =
    let (r, e') = flush_found p t (find t e.buffers) e in
    let rest = flush_segment_tags p ts e' in if engine_ok r then rest else (false, e')

-- handleSegmentFull. While it runs, the log and its file are with the caller.
unfoldable pub handle_segment_full :
    Platform → ℕ → List ℕ → RotatingWal → File → Engine → Bool × RotatingWal × File × Engine
unfolding flush_segment_tags
handle_segment_full p segment_id tags w f e =
    let (flushed, e') = flush_segment_tags p tags e in
    let (r, w', f') = clear_segment p.os segment_id w f in
    if not flushed then (false, w, f, e') else (rotating_ok r, w', f', e')
