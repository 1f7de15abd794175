-- ===== src/Engine/Replay.antt =====
-- replayWAL: the entries of all segments, by tag, are written again as points.
use x_tdb.Base.{ℕ, ◌%◌, ◌||◌, Option, none, some, List, [], ◌∷◌, ◌++◌, length, ◌==◌, if◌then◌else◌}
use x_tdb.Io.{File}
use x_tdb.Wal.Entry.{WalEntry}
use x_tdb.Wal.Reader.{replay_segment}
use x_tdb.Rotating.Segment.{WalSegment, RotatingWal}
use x_tdb.Records.{ValueType, value_type_of}
use x_tdb.MemBuffer.{find, put}
use x_tdb.Engine.State.{success, err_wal_open_failed, Engine, Platform, Step}
use x_tdb.Engine.Batches.{batch_of}
use x_tdb.Engine.Flush.{flush}
use x_tdb.Engine.Points.{DataPoint, write_point}

abbrev pub Entries : Type 0
Entries = List (ℕ × List WalEntry)

-- The entries of a segment, each behind those of its tag.
unfoldable pub group_entries : List WalEntry → Entries → Entries
group_entries [] m = m
group_entries (w ∷ ws) m = group_entries ws (put w.tag_id (batch_of (find w.tag_id m) ++ w ∷ []) m)

-- The loop over the segments; `fuel` bounds the calls of readNext in each.
unfoldable pub collect_entries : Platform → ℕ → File → List WalSegment → Entries → Entries
unfolding group_entries
collect_entries p fuel f [] m = m
collect_entries p fuel f (s ∷ ss) m =
    let entries = replay_segment p.os fuel f s.start_offset s.segment_size in
    collect_entries p fuel f ss
      (if s.entry_count == 0 || s.write_position == 0 then m else group_entries entries m)

-- The value as a double; 1.0 and 0.0 for a bool.
unfoldable pub double_of : Platform → ValueType → ℕ → ℕ
double_of p ValueType.bool v = if v % 256 == 0 then 0 else 0x3FF0_0000_0000_0000
double_of p ValueType.i32 v = p.double_of_i32 (v % 4_294_967_296)
double_of p ValueType.f32 v = p.double_of_float (v % 4_294_967_296)
double_of p ValueType.f64 v = v
double_of p ValueType.other v = 0

-- A point that is refused is logged and passed over.
unfoldable pub write_entries : Platform → ℕ → List WalEntry → Engine → Engine
unfolding double_of
write_entries p tag_id [] e = e
write_entries p tag_id (w ∷ ws) e =
    let q : DataPoint = record {
      timestamp_us = w.timestamp_us;
      value = double_of p (value_type_of w.value_type) w.value;
      quality = w.quality;
    } in
    write_entries p tag_id ws (write_point p tag_id q e).1

unfoldable pub write_groups : Platform → Entries → Engine → Engine
unfolding write_entries
write_groups p [] e = e
write_groups p ((t, ws) ∷ m) e = write_groups p m (write_entries p t (p.sort_entries ws) e)

-- The entries once they are collected: with none there is nothing to do.
unfoldable pub replay_entries : Platform → Entries → Step
unfolding write_groups
replay_entries p m e = if length m == 0 then (success, e) else flush p (write_groups p m e)

-- `opened` is the log's file as the AlignedIO of replayWAL opens it, if it can.
unfoldable pub replay_log : Platform → ℕ → Option RotatingWal → Option File → Step
unfolding collect_entries replay_entries
replay_log p fuel none opened e = (err_wal_open_failed, e)
replay_log p fuel (some w) none e = (success, e)
replay_log p fuel (some w) (some f) e = replay_entries p (collect_entries p fuel f w.segments []) e

unfoldable pub replay_wal : Platform → ℕ → Option File → Step
unfolding replay_log
replay_wal p fuel opened e = replay_log p fuel e.wal opened e
