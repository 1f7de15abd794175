-- ===== src/Tests/Logs.antt =====
-- The write-ahead log and the rotating container: the theorems at the fixtures.
use x_tdb.Base.{ℕ, ◌+◌, ◌≤◌, ◌≡◌, refl, arith, true, false, [], ◌∷◌, none, some, length, get_or}
use x_tdb.Io.{Os, File}
use x_tdb.Wal.Entry.{WalEntry, IsWalEntry}
use x_tdb.Wal.Writer.{open_writer}
use x_tdb.Wal.Reader.{replay_segment}
use x_tdb.Wal.Logged.{IsAppendable}
use x_tdb.Wal.Bound.{replay_segment-le}
use x_tdb.Wal.RoundTrip.{log_and_sync, replay_segment-log_and_sync}
use x_tdb.Rotating.Segment.{
  WalSegment, default_segment, success, rotating_ok, RotatingWalConfig, RotatingWal, new_wal,
  FlushCallback,
}
use x_tdb.Rotating.Container.{initialize_container, load_container}
use x_tdb.Rotating.Rotate.{clear_segment, rotate_segment}
use x_tdb.Rotating.Append.{append}
use x_tdb.Rotating.Aliased.{append_aliased}
use x_tdb.Rotating.Reload.{load_container-initialize_container}
use x_tdb.Tests.Fixtures.{disk, disk-IsReliable, new_file}

-- The log.
abbrev reading : WalEntry
reading = record {
  tag_id = 7;
  timestamp_us = 1000;
  value_type = 3;
  quality = 1;
  reserved = 0;
  value = 42;
}

reading-IsWalEntry : IsWalEntry reading
reading-IsWalEntry = record {
  tag_id = omega arith;
  timestamp_us = omega arith;
  value_type = omega arith;
  quality = omega arith;
  reserved = omega arith;
  value = omega arith;
}

reading-IsAppendable : IsAppendable reading
reading-IsAppendable = record {
  shape = reading-IsWalEntry;
  tagged = λ h. absurd (omega (arith, h));
}

reading_is_valid : x_tdb.Wal.Reader.is_valid_entry reading ≡ true
unfolding x_tdb.Wal.Reader.is_valid_entry
reading_is_valid = refl

replay_segment-log_and_sync_example :
    replay_segment disk 3
      (log_and_sync disk 16384 65536 new_file (reading ∷ reading ∷ []))
      16384
      65536
    ≡ reading ∷ reading ∷ []
replay_segment-log_and_sync_example =
    replay_segment-log_and_sync disk 16384 65536 3 new_file (reading ∷ reading ∷ []) disk-IsReliable
      (record { aligned = refl; extent = omega arith; in_range = omega arith }) refl (omega arith)
      (omega arith) (reading-IsAppendable, (reading-IsAppendable, tt))
      (reading_is_valid, (reading_is_valid, tt)) (omega arith)

replay_segment-le_example : length (replay_segment disk 1000000 new_file 16384 65536) ≤ 682
replay_segment-le_example = replay_segment-le disk 1000000 new_file 16384 65536 refl (omega arith)

-- The container.
abbrev config : RotatingWalConfig
config = record {
  num_segments = 2;
  segment_size_bytes = 32768;
  auto_grow = false;
  max_segments = 2;
}

created : (initialize_container disk (new_wal config) new_file).0 ≡ success
unfolding initialize_container x_tdb.Rotating.Container.init_segments
    x_tdb.Rotating.Container.resize_segments x_tdb.Rotating.Container.write_header
    x_tdb.Rotating.Container.write_zeros x_tdb.Io.aligned_buffer x_tdb.Io.zero_buffer x_tdb.Io.write
    x_tdb.Io.validate_alignment x_tdb.Io.written
created = refl

load_container-initialize_container_example :
    let (r, w, f') = initialize_container disk (new_wal config) new_file in
    let (r', w', f'') = load_container disk (new_wal config) f' in (r' ≡ success) × (w' ≡ w)
load_container-initialize_container_example =
    load_container-initialize_container disk config new_file disk-IsReliable (omega arith)
      (omega arith) (omega arith) created

abbrev full_segment : WalSegment
full_segment = record {
  segment_id = 0;
  start_offset = 16384;
  segment_size = 32768;
  write_position = 32768;
  min_timestamp_us = 1000;
  max_timestamp_us = 2000;
  entry_count = 1364;
  tag_ids = 7 ∷ [];
}

abbrev next_segment : WalSegment
next_segment = record default_segment { segment_id = 1; start_offset = 49152; segment_size = 32768 }

abbrev full_wal : RotatingWal
full_wal = record (new_wal config) {
  is_open = true;
  segments = full_segment ∷ next_segment ∷ [];
  current_writer = some (open_writer disk 49152 0);
}

-- A flush callback that clears the segment and counts its calls.
abbrev clearing : FlushCallback ℕ
clearing old tags w f n =
    let (r, w', f') = clear_segment disk old w f in (rotating_ok r, w', f', n + 1)

rotates :
    ((rotate_segment {S = ℕ} disk none full_wal new_file 0).0 ≡ success)
    × ((rotate_segment {S = ℕ} disk none full_wal new_file 0).1.current_segment_id ≡ 1)
    × (length (rotate_segment {S = ℕ} disk none full_wal new_file 0).1.segments ≡ 2)
unfolding rotate_segment x_tdb.Rotating.Rotate.choose_segment x_tdb.Rotating.Rotate.flush_segment
    x_tdb.Rotating.Rotate.start_writer x_tdb.Rotating.Container.sync_writer
    x_tdb.Rotating.Container.drop_current x_tdb.Wal.Writer.drop_writer
rotates = (refl, refl, refl)

append_aliased_example :
    let w' = (append {S = ℕ} disk none full_wal new_file 0 reading).1 in
    (w'.current_segment_id
      ≡ (rotate_segment {S = ℕ} disk none full_wal new_file 0).1.current_segment_id)
    × ((get_or w'.segments 0 default_segment).start_offset
        ≡ (get_or w'.segments w'.current_segment_id default_segment).start_offset)
append_aliased_example =
    append_aliased disk none full_wal new_file 0 reading refl (λ h. absurd (omega (arith, h)))
      (omega arith) rotates.0 (omega (arith, rotates.2)) (λ h. absurd (omega (arith, h, rotates.1)))
