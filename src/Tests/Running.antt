-- ===== src/Tests/Running.antt =====
-- The storage engine: the theorems at the fixtures.
use mathlib.Core.List.{Mem}
use x_tdb.Base.{
  ℕ, ◌+◌, ◌≤◌, ◌<◌, ◌≡◌, ◌⊎◌, inl, inr, refl, arith, true, false, none, some, [], ◌∷◌, All,
}
use x_tdb.Io.{File}
use x_tdb.Wal.Entry.{WalEntry}
use x_tdb.Wal.RoundTrip.{log_and_sync}
use x_tdb.Rotating.Segment.{RotatingWal, new_wal, default_segment}
use x_tdb.Directory.{open_builder, initialize}
use x_tdb.Records.{value_type_of, TagBuffer, default_tag_buffer}
use x_tdb.Metadata.Tables.{Ascending, ChunkRow}
use x_tdb.Engine.State.{
  success, err_invalid_data, err_engine_not_open, QueryPoint, Engine, Platform, Sorts,
}
use x_tdb.Engine.Flush.{flush}
use x_tdb.Engine.Batches.{flush_batches}
use x_tdb.Engine.Points.{DataPoint, write_point}
use x_tdb.Engine.Query.{new_reader, query_points}
use x_tdb.Engine.Replay.{collect_entries, replay_wal}
use x_tdb.Engine.Maintenance.{run_retention_service, reclaim_deprecated_chunks}
use x_tdb.Engine.Ranged.{InRange, Reports, query_points-InRange}
use x_tdb.Engine.Remembered.{query_points-write_point}
use x_tdb.Engine.Lost.{AllEmpty, flush-AllEmpty}
use x_tdb.Engine.Overfull.{flush_overfull}
use x_tdb.Engine.Replayed.{replay_wal-closed}
use x_tdb.Engine.Expired.{run_retention_service_outside}
use x_tdb.Engine.Single.{flush_single_tag}
use x_tdb.Engine.Flushed.{read_block-flush_single_tag}
use x_tdb.Blocks.Reader.{ReadResult, read_block}
use x_tdb.Blocks.Stored.{IsBlock}
use x_tdb.Engine.Reclaimed.{reclaim_deprecated_chunks_outside}
use x_tdb.Tests.Fixtures.{disk, disk-IsReliable, small_layout, new_file}
use x_tdb.Tests.Buffers.{plain, some_records, raw_buffer, raw-IsKnown, raw-FitsRaw, raw_room}
use x_tdb.Tests.Sorted.{sort_by, sort_by-Permᴰ, sort_by-Ascending}
use x_tdb.Tests.Store.{sqlite, sqlite-IsSqlite, empty_store}

abbrev machine : Platform
machine = record {
  os = disk;
  doubles = plain;
  sqlite = sqlite;
  float_of_double = λ v. v;
  double_of_float = λ v. v;
  double_of_i32 = λ v. v;
  sort_points = λ xs. sort_by QueryPoint.timestamp_us xs;
  sort_entries = λ xs. sort_by WalEntry.timestamp_us xs;
}

machine-Sorts : Sorts machine
machine-Sorts = record {
  points_kept = λ xs. sort_by-Permᴰ QueryPoint.timestamp_us xs;
  points_sorted = λ xs. sort_by-Ascending QueryPoint.timestamp_us xs;
}

abbrev gathering : ℕ → TagBuffer
gathering tag_id = record default_tag_buffer {
  tag_id = tag_id;
  start_ts_us = 1000000;
  records = record { time_offset = 0; quality = 192; value = 1 } ∷ [];
}

-- Two of the three blocks of the chunk are used, and two buffers have records.
abbrev engine : Engine
engine = record {
  config = record { layout = small_layout; retention_days = 1 };
  is_open = true;
  io = new_file;
  dir_builder = some (open_builder small_layout 0);
  wal = none;
  wal_file = new_file;
  metadata = empty_store;
  capacity_bytes = 1048576;
  wal_batches = [];
  active = record {
    chunk_id = 0;
    chunk_offset = 0;
    blocks_used = 2;
    blocks_total = 3;
    start_ts_us = 0;
    end_ts_us = 0;
  };
  buffers = (7, gathering 7) ∷ (8, gathering 8) ∷ [];
  write_stats = record {
    points_written = 2;
    blocks_flushed = 0;
    chunks_sealed = 0;
    chunks_allocated = 1;
  };
  read_stats = record {
    queries_executed = 0;
    blocks_read = 0;
    points_read_disk = 0;
    points_read_memory = 0;
  };
  maintenance_stats = record { chunks_deprecated = 0; chunks_freed = 0; last_retention_run_ts = 0 };
  wal_entries_since_sync = 0;
}

query_points-InRange_example :
    ((query_points machine 7 0 2000000 [] engine).0 ≡ success)
    × All (InRange 0 2000000) (query_points machine 7 0 2000000 [] engine).1
    × Ascending QueryPoint.timestamp_us (query_points machine 7 0 2000000 [] engine).1
    × Reports 0 2000000 (some (gathering 7)) (query_points machine 7 0 2000000 [] engine).1
unfolding x_tdb.MemBuffer.find
query_points-InRange_example = query_points-InRange machine 7 0 2000000 [] engine machine-Sorts refl

abbrev point : DataPoint
point = record { timestamp_us = 1500700; value = 2; quality = 192 }

query_points-write_point_example :
    let (r, e') = write_point machine 7 point engine in
    let (r', found, e'') = query_points machine 7 0 2000000 [] e' in
    (r ≡ success)
    × ((x : QueryPoint) × Mem x found
        × (x.value ≡ 2)
        × (x.quality ≡ 192)
        × (x.timestamp_us ≤ 1500700)
        × (1500700 < x.timestamp_us + 1000))
unfolding x_tdb.Engine.Points.buffer_at x_tdb.MemBuffer.find
query_points-write_point_example =
    query_points-write_point machine 7 point engine refl 0 2000000 [] machine-Sorts (omega arith)
      (omega arith) (omega arith) (omega arith) (omega arith) (omega arith)

batches_flushed : flush_batches machine engine ≡ (success, engine)
unfolding flush_batches x_tdb.Engine.Batches.flush_tags x_tdb.Engine.Batches.tags_with
batches_flushed = refl

flush-AllEmpty_example : AllEmpty (flush machine engine).1.buffers
unfolding flush_batches x_tdb.Engine.Batches.flush_tags x_tdb.Engine.Batches.tags_with
flush-AllEmpty_example = flush-AllEmpty machine engine refl refl

flush_overfull_example :
    ((flush machine engine).0 ≡ err_invalid_data) × AllEmpty (flush machine engine).1.buffers
unfolding flush_batches x_tdb.Engine.Batches.flush_tags x_tdb.Engine.Batches.tags_with
    x_tdb.Engine.Flush.full_buffers
flush_overfull_example =
    flush_overfull machine engine refl refl (omega arith) refl (omega arith) (omega arith)

abbrev reading : WalEntry
reading = record {
  tag_id = 7;
  timestamp_us = 1500700;
  value_type = 4;
  quality = 192;
  reserved = 0;
  value = 2;
}

-- A log with one segment, which has an entry.
abbrev log : RotatingWal
log =
    record (new_wal record {
      num_segments = 1;
      segment_size_bytes = 65536;
      auto_grow = false;
      max_segments = 1;
    }) {
      is_open = true;
      segments =
          record default_segment {
            start_offset = 16384;
            segment_size = 65536;
            write_position = 24;
            entry_count = 1;
          }
          ∷ [];
    }

abbrev log_file : File
log_file = log_and_sync disk 16384 65536 new_file (reading ∷ [])

abbrev opening : Engine
opening = record engine { is_open = false; wal = some log }

replay_wal-closed_example :
    ((collect_entries machine 2 log_file log.segments [] ≡ [])
      × (replay_wal machine 2 (some log_file) opening ≡ (success, opening)))
    ⊎ (replay_wal machine 2 (some log_file) opening ≡ (err_engine_not_open, opening))
replay_wal-closed_example = replay_wal-closed machine opening 2 log_file log refl refl

-- A sealed chunk that ended two hours before now.
abbrev recent : ChunkRow
recent = record {
  chunk_id = 0;
  container_id = 0;
  chunk_offset = 0;
  start_ts_us = 1000;
  end_ts_us = 194_400_000_000;
  super_crc32 = 1;
  is_sealed = true;
  block_count = 3;
}

abbrev aging : Engine
aging = record engine { metadata = record empty_store { chunks = recent ∷ [] } }

run_retention_service_outside_example :
    (run_retention_service machine 0 201_600_000_000 aging).1.io.bytes 32 ≡ new_file.bytes 32
run_retention_service_outside_example =
    run_retention_service_outside machine 0 201_600_000_000 aging 32 sqlite-IsSqlite (omega arith)
      (omega arith) (omega arith) (inl (inr (inr (omega arith, omega arith))), tt)

-- Chunks of 300 extents; byte 32 of the second one is in its flags.
abbrev wide : Engine
wide = record engine {
  config = record engine.config {
    layout = record small_layout { chunk_size_extents = 300; chunk_size_bytes = 4_915_200 };
  };
  capacity_bytes = 32_768_000;
}

reclaim_deprecated_chunks_outside_example :
    (reclaim_deprecated_chunks machine 7 wide).1.io.bytes 9_125_920 ≡ new_file.bytes 9_125_920
reclaim_deprecated_chunks_outside_example =
    reclaim_deprecated_chunks_outside machine 7 300 1 9_125_920 wide (omega arith) refl
      (omega arith) refl

abbrev ready : Engine
ready = record engine { dir_builder = some (initialize (open_builder small_layout 0)).1 }

third-IsBlock : IsBlock small_layout 0 2
third-IsBlock = record {
  within = omega arith;
  block_aligned = omega arith;
  block_size = omega arith;
  chunk_aligned = omega arith;
}

builder_is_placed :
    ((initialize (open_builder small_layout 0)).1.layout ≡ small_layout)
    × ((initialize (open_builder small_layout 0)).1.chunk_offset ≡ 0)
unfolding initialize
builder_is_placed = (refl, refl)

single_flushed : (flush_single_tag machine 7 raw_buffer ready).0 ≡ success
unfolding flush_single_tag x_tdb.Engine.Single.write_single x_tdb.Engine.Single.seal_single
    x_tdb.Engine.Chunks.roll_over_single x_tdb.Engine.State.◌>>◌ x_tdb.Blocks.Writer.write_block
    x_tdb.Blocks.Writer.write_content x_tdb.Blocks.Writer.block_content
    x_tdb.Blocks.Writer.serialize_from x_tdb.Blocks.Raw.calculate_record_size
    x_tdb.Records.value_type_of x_tdb.Io.aligned_buffer x_tdb.Io.zero_buffer x_tdb.Io.write
    x_tdb.Io.validate_alignment x_tdb.Io.written x_tdb.Io.read x_tdb.Io.fetched
    x_tdb.Directory.seal_block x_tdb.Directory.write_directory initialize x_tdb.Directory.resize
    x_tdb.Blocks.Writer.block_offset
single_flushed = refl

read_block-flush_single_tag_example :
    let back =
      read_block disk
        (new_reader small_layout)
        (flush_single_tag machine 7 raw_buffer ready).1.io
        0
        2
        (value_type_of 4)
        4
        [] in
    (back.0 ≡ ReadResult.success) × (back.1 ≡ some_records)
unfolding x_tdb.Blocks.Writer.block_offset
read_block-flush_single_tag_example =
    read_block-flush_single_tag machine 7 raw_buffer ready
      (initialize (open_builder small_layout 0)).1 (new_reader small_layout) disk-IsReliable refl
      refl builder_is_placed.0 builder_is_placed.1 (omega arith) (omega arith) third-IsBlock
      (omega arith) refl (omega arith) (λ h. absurd (omega (arith, h)))
      (λ h. absurd (omega (arith, h))) raw-IsKnown raw-FitsRaw raw_room single_flushed
