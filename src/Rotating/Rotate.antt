-- ===== src/Rotating/Rotate.antt =====
-- Growing the container, clearing a segment and switching to the next one.
use x_tdb.Base.{
  ℕ, ◌+◌, ◌-◌, ◌*◌, ◌%◌, not, ◌&&◌, List, [], ◌∷◌, ◌++◌, Option, none, some, length, get_or, set,
  ◌==◌, ltb, leb, if◌then◌else◌,
}
use x_tdb.Layout.Units.{u32, u64, extent_size_bytes}
use x_tdb.Io.{Os, File}
use x_tdb.Mutator.{io_ok}
use x_tdb.Rotating.Segment.{
  default_segment, reset_segment, RotatingWalResult, success, err_io_failed, err_all_segments_full,
  err_segment_not_cleared, err_callback_failed, rotating_ok, RotatingWal, FlushCallback, WithState,
  beside,
}
use x_tdb.Rotating.Container.{write_zeros, segment_writer, sync_writer, drop_current}

unfoldable pub grow_container : Os → RotatingWal → File → RotatingWalResult × RotatingWal × File
grow_container os w f =
    let offset = u64 (extent_size_bytes + length w.segments * w.config.segment_size_bytes) in
    let (r, f') = write_zeros os f offset in
    let new_segment = record default_segment {
      segment_id = u32 (length w.segments);
      start_offset = offset;
      segment_size = w.config.segment_size_bytes;
    } in
    if not w.config.auto_grow
    then (err_io_failed, w, f)
    else if leb w.config.max_segments (length w.segments)
    then (err_io_failed, w, f)
    else if not (io_ok r)
    then (err_io_failed, w, f')
    else (success, record w { segments = w.segments ++ new_segment ∷ [] }, f')

-- clearSegmentUnlocked
unfoldable pub clear_segment : Os → ℕ → RotatingWal → File → RotatingWalResult × RotatingWal × File
clear_segment os segment_id w f =
    let s = get_or w.segments segment_id default_segment in
    let (r, f') = write_zeros os f s.start_offset in
    if leb (length w.segments) segment_id
    then (err_io_failed, w, f)
    else if segment_id == w.current_segment_id
    then (err_io_failed, w, f)
    else if not (io_ok r)
    then (err_io_failed, w, f')
    else (success, record w { segments = set w.segments segment_id (reset_segment s) }, f')

-- The choice of the next segment: the one behind the current one if it is cleared, or a new one.
unfoldable pub choose_segment : Os → RotatingWal → File → RotatingWalResult × ℕ × RotatingWal × File
choose_segment os w f =
    let next = u32 (u32 (w.current_segment_id + 1) % length w.segments) in
    let s = get_or w.segments next default_segment in
    let (r, w', f') = grow_container os w f in
    if ltb 0 s.entry_count && ltb 0 s.write_position
    then if w.config.auto_grow && ltb (length w.segments) w.config.max_segments
      then if not (rotating_ok r)
        then (err_all_segments_full, next, w', f')
        else (success, u32 (length w'.segments - 1), w', f')
      else (err_segment_not_cleared, next, w, f)
    else (success, next, w, f)

-- The end of rotateSegment: a writer for the segment `next` replaces the old one.
unfoldable pub start_writer : Os → ℕ → RotatingWal → File → RotatingWalResult × RotatingWal × File
start_writer os next w f = (
  success,
  record w {
    current_writer = some (segment_writer os (get_or w.segments next default_segment));
    stats = record w.stats { segment_rotations = w.stats.segment_rotations + 1 };
  },
  drop_current os w.current_writer f,
)

-- The flush callback, if there is one, before the new writer.
unfoldable pub flush_segment :
    {S : Type 0}
    → Os
    → Option (FlushCallback S)
    → ℕ
    → List ℕ
    → ℕ
    → RotatingWal
    → File
    → S
    → WithState S
flush_segment os none old tags next w f s = beside s (start_writer os next w f)
flush_segment os (some callback) old tags next w f s =
    let (ok, w', f', s') = callback old tags w f s in
    if not ok
    then (err_callback_failed, w', f', s')
    else beside s' (
        start_writer os next
          (record w' { stats = record w'.stats { segment_flushes = w'.stats.segment_flushes + 1 } })
          f')

unfoldable pub rotate_segment :
    {S : Type 0} → Os → Option (FlushCallback S) → RotatingWal → File → S → WithState S
rotate_segment os callback w f s =
    let (writer, f₁) = sync_writer os w.current_writer f in
    let old = w.current_segment_id in
    let tags = (get_or w.segments old default_segment).tag_ids in
    let (r, next, w₂, f₂) = choose_segment os (record w { current_writer = writer }) f₁ in
    if not w.is_open
    then (err_io_failed, w, f, s)
    else if not (rotating_ok r)
    then (r, w₂, f₂, s)
    else flush_segment os callback old tags next (record w₂ { current_segment_id = next }) f₂ s
