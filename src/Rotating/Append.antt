-- ===== src/Rotating/Append.antt =====
-- append, batchAppend and sync.
use x_tdb.Base.{
  ℕ, ◌+◌, ◌-◌, not, ◌||◌, List, [], ◌∷◌, Option, none, some, get_or, set, ◌==◌, ltb, leb,
  if◌then◌else◌,
}
use x_tdb.Layout.Units.{u64, extent_size_bytes}
use x_tdb.Io.{Os, File}
use x_tdb.Wal.Entry.{WalEntry, entry_size}
use x_tdb.Wal.Writer.{WalWriter, wal_ok}
use x_tdb.Wal.Writer
use x_tdb.Rotating.Segment.{
  WalSegment, default_segment, available_space, insert_tag, signed_lt, RotatingWalResult, success,
  err_io_failed, err_invalid_entry, rotating_ok, RotatingWal, FlushCallback, WithState, beside,
}
use x_tdb.Rotating.Rotate.{rotate_segment}

-- The metadata of the segment after an entry, with the writer's offset.
abbrev pub segment_after : WalEntry → ℕ → WalSegment → WalSegment
segment_after e writer_offset s = record s {
  write_position = writer_offset - s.start_offset;
  entry_count = s.entry_count + 1;
  tag_ids = insert_tag e.tag_id s.tag_ids;
  min_timestamp_us =
      if signed_lt e.timestamp_us s.min_timestamp_us then e.timestamp_us else s.min_timestamp_us;
  max_timestamp_us =
      if signed_lt s.max_timestamp_us e.timestamp_us then e.timestamp_us else s.max_timestamp_us;
}

-- The write of the entry and the update of the segment in slot `slot`.
unfoldable pub put_entry :
    Os → ℕ → WalWriter → RotatingWal → File → WalEntry → RotatingWalResult × RotatingWal × File
put_entry os slot writer w f e =
    let (r, writer', f') = Writer.append os writer f e in
    let w' = record w { current_writer = some writer' } in
    let s = get_or w.segments slot default_segment in
    if not (wal_ok r)
    then (err_io_failed, w', f')
    else if ltb writer'.current_offset s.start_offset
        || leb (u64 (s.start_offset + s.segment_size)) writer'.current_offset
    then (err_io_failed, w', f')
    else (
      success,
      record w' {
        segments = set w.segments slot (segment_after e writer'.current_offset s);
        stats = record w.stats {
          total_entries_written = w.stats.total_entries_written + 1;
          total_bytes_written = w.stats.total_bytes_written + entry_size;
        };
      },
      f',
    )

-- A log without a writer, which no open log is, is an error here.
unfoldable pub put_with :
    Os
    → ℕ
    → Option WalWriter
    → RotatingWal
    → File
    → WalEntry
    → RotatingWalResult × RotatingWal × File
put_with os slot none w f e = (err_io_failed, w, f)
put_with os slot (some writer) w f e = put_entry os slot writer w f e

-- `segment = segments_[current_segment_id_]` where `segment` is a reference to slot `slot`: C++
-- assigns to what the reference is bound to, so the current segment is copied into that slot.
unfoldable pub refetch : ℕ → RotatingWal → RotatingWal
refetch slot w = record w {
  segments = set w.segments slot (get_or w.segments w.current_segment_id default_segment);
}

-- The body that append and the loop of batchAppend share. A reference into `segments_` is the index
-- of its slot, also where growContainer moves the vector.
unfoldable pub append_body :
    {S : Type 0} → Os → Option (FlushCallback S) → RotatingWal → File → S → WalEntry → WithState S
append_body os callback w f s e =
    let slot = w.current_segment_id in
    let (r, w₁, f₁, s₁) = rotate_segment os callback w f s in
    if e.tag_id == 0
    then (err_invalid_entry, w, f, s)
    else if ltb (available_space (get_or w.segments slot default_segment))
        (entry_size + extent_size_bytes)
    then if not (rotating_ok r)
      then (r, w₁, f₁, s₁)
      else beside s₁ (put_with os slot w₁.current_writer (refetch slot w₁) f₁ e)
    else beside s (put_with os slot w.current_writer w f e)

unfoldable pub append :
    {S : Type 0} → Os → Option (FlushCallback S) → RotatingWal → File → S → WalEntry → WithState S
append os callback w f s e =
    if not w.is_open then (err_io_failed, w, f, s) else append_body os callback w f s e

-- The loop of batchAppend: it stops at the first entry that fails.
unfoldable pub append_entries :
    {S : Type 0}
    → Os
    → Option (FlushCallback S)
    → RotatingWal
    → File
    → S
    → List WalEntry
    → WithState S
append_entries os callback w f s [] = (success, w, f, s)
append_entries os callback w f s (e ∷ es) =
    let (r, w₁, f₁, s₁) = append_body os callback w f s e in
    let rest = append_entries os callback w₁ f₁ s₁ es in
    if not (rotating_ok r) then (r, w₁, f₁, s₁) else rest

unfoldable pub batch_append :
    {S : Type 0}
    → Os
    → Option (FlushCallback S)
    → RotatingWal
    → File
    → S
    → List WalEntry
    → WithState S
batch_append os callback w f s es =
    if not w.is_open then (err_io_failed, w, f, s) else append_entries os callback w f s es

unfoldable pub sync_with :
    Os → Option WalWriter → RotatingWal → File → RotatingWalResult × RotatingWal × File
sync_with os none w f = (err_io_failed, w, f)
sync_with os (some writer) w f =
    let (r, writer', f') = Writer.sync os writer f in
    let w' = record w { current_writer = some writer' } in
    if not (wal_ok r) then (err_io_failed, w', f') else (
      success,
      record w' { stats = record w.stats { sync_operations = w.stats.sync_operations + 1 } },
      f',
    )

unfoldable pub sync : Os → RotatingWal → File → RotatingWalResult × RotatingWal × File
sync os w f = if not w.is_open then (err_io_failed, w, f) else sync_with os w.current_writer w f
