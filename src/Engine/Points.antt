-- ===== src/Engine/Points.antt =====
-- The two forms of writePoint.
use x_tdb.Base.{ℕ, ◌+◌, Option, none, some, [], ◌∷◌, ◌++◌, length, leb, ◌==◌, if◌then◌else◌}
use x_tdb.Layout.Units.{u32, u64}
use x_tdb.Wal.Entry.{WalEntry}
use x_tdb.Rotating.Segment.{RotatingWal}
use x_tdb.Records.{MemRecord, TagBuffer, default_tag_buffer}
use x_tdb.MemBuffer.{find, put, signed_sub, signed_div, push_record}
use x_tdb.Engine.State.{success, err_invalid_data, Engine, Platform, Step, ◌>>◌, guard_open}
use x_tdb.Engine.Batches.{batch_of}
use x_tdb.Engine.Flush.{flush}

-- TagConfig but for the name, which is for debugging.
pub record TagConfig : Type 0 where
  pub tag_id : ℕ
  pub value_type : ℕ
  pub time_unit : ℕ
  pub encoding_type : ℕ
  pub encoding_param1 : ℕ
  pub encoding_param2 : ℕ

pub record DataPoint : Type 0 where
  pub timestamp_us : ℕ
  pub value : ℕ
  pub quality : ℕ

abbrev pub entry_of : ℕ → ℕ → DataPoint → WalEntry
entry_of tag_id value_type q = record {
  tag_id = tag_id;
  timestamp_us = q.timestamp_us;
  value_type = value_type;
  quality = q.quality;
  reserved = 0;
  value = q.value;
}

-- The entry goes to the batch of its tag; the background thread that may be notified is
-- `background_round`.
unfoldable pub add_to_batch : Option RotatingWal → WalEntry → Engine → Engine
add_to_batch none entry e = e
add_to_batch (some w) entry e =
    let batch = batch_of (find entry.tag_id e.wal_batches) in
    record e { wal_batches = put entry.tag_id (batch ++ entry ∷ []) e.wal_batches }

-- The buffer of the tag; an empty one starts at the point's time, with `fresh` made of it.
unfoldable pub buffer_at : (TagBuffer → TagBuffer) → ℕ → Option TagBuffer → ℕ → TagBuffer
buffer_at fresh tag_id none timestamp_us = record (fresh default_tag_buffer) {
  tag_id = tag_id;
  start_ts_us = timestamp_us;
}
buffer_at fresh tag_id (some b) timestamp_us =
    if length b.records == 0 then record (fresh b) { start_ts_us = timestamp_us } else b

-- `static_cast<uint32_t>((timestamp_us - start_ts_us) / 1000)`
abbrev pub record_at : ℕ → DataPoint → MemRecord
record_at start_ts_us q = record {
  time_offset = u32 (signed_div (signed_sub q.timestamp_us start_ts_us) 1000);
  quality = q.quality;
  value = q.value;
}

abbrev pub flush_limit : ℕ
flush_limit = 1000

abbrev pub count_point : Engine → Engine
count_point e = record e {
  write_stats = record e.write_stats { points_written = u64 (e.write_stats.points_written + 1) };
}

-- The point goes to its buffer, and a buffer that is full is flushed with all others.
unfoldable pub add_point : Platform → (TagBuffer → TagBuffer) → ℕ → DataPoint → Step
unfolding buffer_at
add_point p fresh tag_id q e =
    let b = buffer_at fresh tag_id (find tag_id e.buffers) q.timestamp_us in
    let b' = push_record b (record_at b.start_ts_us q) in
    let e' = record (count_point e) { buffers = put tag_id b' e.buffers } in
    if leb flush_limit (length b'.records) then flush p e' else (success, e')

-- A new buffer has the default type and unit, and an emptied one keeps what it has.
unfoldable pub write_point : Platform → ℕ → DataPoint → Step
unfolding ◌>>◌ add_to_batch add_point
write_point p tag_id q =
    guard_open >> λ e. add_point p (λ b. b) tag_id q (add_to_batch e.wal (entry_of tag_id 4 q) e)

abbrev pub configured : TagConfig → TagBuffer → TagBuffer
configured c b = record b {
  value_type = c.value_type;
  time_unit = c.time_unit;
  encoding_type = c.encoding_type;
  encoding_tolerance = c.encoding_param1;
  encoding_compression_factor = c.encoding_param2;
}

-- `none` is a null pointer.
unfoldable pub write_configured : Platform → Option TagConfig → DataPoint → Step
unfolding ◌>>◌ add_to_batch add_point
write_configured p none q = guard_open >> λ e. (err_invalid_data, e)
write_configured p (some c) q = guard_open >> λ e.
    add_point p (configured c) c.tag_id q (add_to_batch e.wal (entry_of c.tag_id c.value_type q) e)
