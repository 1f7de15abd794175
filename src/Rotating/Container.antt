-- ===== src/Rotating/Container.antt =====
-- The container: its header, its creation, its loading, and open and close.
use x_tdb.Base.{
  ℕ, zero, suc, ◌+◌, Bool, true, false, not, List, [], ◌∷◌, Option, none, some, length, get_or,
  Bytes, load, copy, ◌==◌, leb, if◌then◌else◌,
}
use x_tdb.Layout.Units.{u32, u64, extent_size_bytes}
use x_tdb.Io.{IoResult, Os, File, Buffer, aligned_buffer, zero_buffer, read, write}
use x_tdb.Io
use x_tdb.Structs.{store_fields}
use x_tdb.Mutator.{io_ok}
use x_tdb.Wal.Writer.{WalWriter, WalResult, open_writer}
use x_tdb.Wal.Writer
use x_tdb.Rotating.Segment.{
  int64_max, int64_min, WalSegment, default_segment, available_space, RotatingWalResult, success,
  err_io_failed, err_container_open_failed, rotating_ok, RotatingWal,
}

-- "XTDB-WAL"
abbrev pub container_magic : ℕ
container_magic = 0x4C41_572D_4244_5458

-- WALContainerHeader with its version, the two counts and the size; the rest is zero.
abbrev pub container_fields : ℕ → ℕ → ℕ → List (ℕ × ℕ × ℕ)
container_fields num_segments segment_size current_segment =
    (0, 8, container_magic)
    ∷ (8, 4, 1)
    ∷ (12, 4, num_segments)
    ∷ (16, 8, segment_size)
    ∷ (24, 4, current_segment)
    ∷ []

unfoldable pub container_header_bytes : ℕ → ℕ → ℕ → Bytes
container_header_bytes num_segments segment_size current_segment =
    store_fields (container_fields num_segments segment_size current_segment) (λ a. 0)

-- The header's bytes in a new extent buffer, and the write of it.
unfoldable pub write_header : Os → File → ℕ → ℕ → ℕ → IoResult × File
write_header os f num_segments segment_size current_segment =
    let b = aligned_buffer os extent_size_bytes in
    let header = container_header_bytes num_segments segment_size current_segment in
    write os f (record b { cells = copy b.cells 0 header 0 4096 }) extent_size_bytes 0

-- The write of an extent of zeros, which marks a segment as empty.
unfoldable pub write_zeros : Os → File → ℕ → IoResult × File
write_zeros os f offset =
    write os f (zero_buffer (aligned_buffer os extent_size_bytes)) extent_size_bytes offset

-- `segments_.resize(n)`
unfoldable pub resize_segments : ℕ → List WalSegment → List WalSegment
resize_segments zero ss = []
resize_segments (suc n) [] = default_segment ∷ resize_segments n []
resize_segments (suc n) (s ∷ ss) = s ∷ resize_segments n ss

-- The fields that both loops over the segments set; the tags are left alone.
abbrev pub placed_segment : ℕ → ℕ → ℕ → WalSegment → WalSegment
placed_segment segment_id offset size s = record s {
  segment_id = segment_id;
  start_offset = offset;
  segment_size = size;
  write_position = 0;
  min_timestamp_us = int64_max;
  max_timestamp_us = int64_min;
  entry_count = 0;
}

-- The loop of initializeContainer, from segment `i` at `offset`.
unfoldable pub init_segments :
    Os → ℕ → ℕ → ℕ → List WalSegment → File → RotatingWalResult × List WalSegment × File
init_segments os size i offset [] f = (success, [], f)
init_segments os size i offset (s ∷ ss) f =
    let (r, f') = write_zeros os f offset in
    let (r', ss', f'') = init_segments os size (i + 1) (u64 (offset + size)) ss f' in
    if not (io_ok r)
    then (err_io_failed, placed_segment i offset size s ∷ ss, f')
    else (r', placed_segment i offset size s ∷ ss', f'')

unfoldable pub initialize_container :
    Os → RotatingWal → File → RotatingWalResult × RotatingWal × File
initialize_container os w f =
    let (h, f₁) = write_header os f w.config.num_segments w.config.segment_size_bytes 0 in
    let (r, ss, f₂) =
      init_segments os w.config.segment_size_bytes 0 extent_size_bytes
        (resize_segments w.config.num_segments w.segments) f₁ in
    if not (io_ok h)
    then (err_io_failed, w, f₁)
    else if not (rotating_ok r)
    then (r, record w { segments = ss }, f₂)
    else (success, record w { segments = ss; current_segment_id = 0 }, f₂)

-- The loop of loadContainer.
unfoldable pub load_segments : ℕ → ℕ → ℕ → List WalSegment → List WalSegment
load_segments size i offset [] = []
load_segments size i offset (s ∷ ss) =
    placed_segment i offset size s ∷ load_segments size (i + 1) (u64 (offset + size)) ss

unfoldable pub load_container : Os → RotatingWal → File → RotatingWalResult × RotatingWal × File
load_container os w f =
    let (r, b, f') = read os f (aligned_buffer os extent_size_bytes) extent_size_bytes 0 in
    let num_segments = load b.cells 12 4 in
    let segment_size = load b.cells 16 8 in
    let current_segment = load b.cells 24 4 in
    let ss =
      load_segments segment_size 0 extent_size_bytes (resize_segments num_segments w.segments) in
    if not (io_ok r)
    then (err_io_failed, w, f')
    else if not (load b.cells 0 8 == container_magic)
    then (err_container_open_failed, w, f')
    else if not (load b.cells 8 4 == 1)
    then (err_container_open_failed, w, f')
    else (
      success,
      record w {
        segments = ss;
        current_segment_id = if leb num_segments current_segment then 0 else current_segment;
      },
      f',
    )

-- A writer at the segment's position, for the rest of the segment.
abbrev pub segment_writer : Os → WalSegment → WalWriter
segment_writer os s = open_writer os (u64 (s.start_offset + s.write_position)) (available_space s)

-- `exists` is what stat says of the path, and `opened` what AlignedIO::open returns, with `f` as it
-- leaves the file. A container without segments, which open asserts away, is read as a default one.
unfoldable pub open_wal :
    Os → Bool → IoResult → RotatingWal → File → RotatingWalResult × RotatingWal × File
open_wal os exists opened w f =
    let (r, w', f') = if exists then load_container os w f else initialize_container os w f in
    if w.is_open
    then (err_container_open_failed, w, f)
    else if not (io_ok opened)
    then (err_container_open_failed, w, f)
    else if not (rotating_ok r)
    then (r, w', record f' { is_open = false })
    else (
      success,
      record w' {
        is_open = true;
        current_writer =
            some (segment_writer os (get_or w'.segments w'.current_segment_id default_segment));
      },
      f',
    )

-- The sync of the current writer, whose result nobody looks at.
unfoldable pub sync_writer : Os → Option WalWriter → File → Option WalWriter × File
sync_writer os none f = (none, f)
sync_writer os (some writer) f =
    let (r, writer', f') = Writer.sync os writer f in (some writer', f')

-- current_writer_ is reset, or is given another writer: the old one is destroyed.
unfoldable pub drop_current : Os → Option WalWriter → File → File
drop_current os none f = f
drop_current os (some writer) f = Writer.drop_writer os writer f

unfoldable pub close_wal : Os → RotatingWal → File → RotatingWal × File
close_wal os w f =
    let (writer, f₀) = sync_writer os w.current_writer f in
    let f₁ = drop_current os writer f₀ in
    let (r, f₂) =
      write_header os f₁ (u32 (length w.segments)) w.config.segment_size_bytes
        w.current_segment_id in
    let (s, f₃) = Io.sync os f₂ in
    let closed = record w { is_open = false; segments = []; current_writer = none } in
    if not w.is_open
    then (w, f)
    else if f₁.is_open
    then (closed, record f₃ { is_open = false })
    else (closed, f₁)
