-- ===== src/Compact/Container.antt =====
-- CompactContainer of src/compact_container.cpp. The compressor of the container's type and zlib's
-- crc32 are parameters. Of a container that is not open nothing but its header's defaults matters.
use x_tdb.Base.{
  ℕ, zero, suc, ◌+◌, ◌*◌, Bool, true, false, not, Option, none, some, List, [], ◌∷◌, ◌++◌, length,
  get_elem?, Bytes, ltb, leb, ◌==◌, ◌&&◌, ◌||◌, if◌then◌else◌,
}
use x_tdb.Layout.Units.{u32, u64}
use x_tdb.Flags.{flags_init, chb_sealed, chunk_clear_bit, chunk_is_sealed}
use x_tdb.Rotating.Segment.{signed_lt}
use x_tdb.Io.{File}
use x_tdb.Compact.Structs.{
  CompactHeader, default_header, header_at, header_bytes, CompactIndex, index_at, index_bytes,
  index_size, compact_index_offset, compact_data_offset, max_blocks_per_chunk, validate_header,
}
use x_tdb.Compact.Files.{
  ContainerResult, success, err_create_failed, err_read_failed, err_write_failed,
  err_invalid_header, err_invalid_offset, err_invalid_size, err_openfd_failed, err_not_open,
  err_already_open, Calls, write_file, read_file, sync_file,
}

-- ICompressor: the result and its size, or nothing where the call fails. `decompress` also takes the
-- size of the output buffer.
pub record Compressor : Type 0 where
  pub compress : Bytes → ℕ → Option (Bytes × ℕ)
  pub decompress : Bytes → ℕ → ℕ → Option (Bytes × ℕ)

-- CompactContainer with its ContainerStats. `compressor` is empty where the factory has none.
pub record CompactContainer : Type 0 where
  pub compressor : Option Compressor
  pub read_only : Bool
  pub is_open : Bool
  pub is_sealed : Bool
  pub header : CompactHeader
  pub block_indices : List CompactIndex
  pub current_data_offset : ℕ
  pub bytes_written : ℕ
  pub bytes_read : ℕ
  pub write_operations : ℕ
  pub read_operations : ℕ
  pub sync_operations : ℕ

-- CompactContainer(...)
abbrev pub new_container : Option Compressor → ℕ → Bool → CompactContainer
new_container compressor compression_type read_only = record {
  compressor = compressor;
  read_only = read_only;
  is_open = false;
  is_sealed = false;
  header = default_header compression_type;
  block_indices = [];
  current_data_offset = 0;
  bytes_written = 0;
  bytes_read = 0;
  write_operations = 0;
  read_operations = 0;
  sync_operations = 0;
}

abbrev pub is_success : ContainerResult → Bool
is_success success = true
is_success _ = false

-- A call's result, the container and the file.
abbrev pub Outcome : Type 0
Outcome = ContainerResult × CompactContainer × File

unfoldable pub write_header : Calls → CompactContainer → File → ContainerResult × File
write_header os c f = write_file os c.read_only f (header_bytes c.header) 128 0

-- What initializeNewContainer puts into the header.
unfoldable pub initial_header : CompactHeader → CompactHeader
initial_header h = record h {
  chunk_id = 0;
  flags = flags_init;
  block_count = 0;
  index_offset = compact_index_offset;
  data_offset = compact_data_offset max_blocks_per_chunk;
  total_compressed_size = 0;
  total_original_size = 0;
  start_ts_us = 0;
  end_ts_us = 0;
  super_crc32 = 0;
}

unfoldable pub initialize_new_container : Calls → CompactContainer → File → Outcome
unfolding initial_header write_header
initialize_new_container os c f =
    let c' = record c { header = initial_header c.header; current_data_offset = 0 } in
    let (r, f') = write_header os c' f in (r, c', f')

-- The header is read over the one in memory, whatever readFile returns.
unfoldable pub read_and_validate_header : Calls → CompactContainer → File → Outcome
read_and_validate_header os c f =
    let (r, m, f') = read_file os f (header_bytes c.header) 128 0 in
    let h = header_at m 0 in
    if not (is_success r)
    then (r, record c { header = h }, f')
    else if not (validate_header h)
    then (err_invalid_header, record c { header = h }, f')
    else (
      success,
      record c {
        header = h;
        is_sealed = chunk_is_sealed h.flags;
        current_data_offset = if ltb 0 h.block_count then h.total_compressed_size else 0;
      },
      f',
    )

unfoldable pub indices_at : ℕ → Bytes → ℕ → List CompactIndex
indices_at zero m p = []
indices_at (suc n) m p = index_at m p ∷ indices_at n m (p + index_size)

unfoldable pub read_block_indices : Calls → CompactContainer → File → Outcome
unfolding indices_at
read_block_indices os c f =
    let n = c.header.block_count in
    let (r, m, f') = read_file os f (λ a. 0) (n * index_size) c.header.index_offset in
    if n == 0
    then (success, c, f)
    else if is_success r
    then (success, record c { block_indices = indices_at n m 0 }, f')
    else (r, record c { block_indices = [] }, f')

abbrev pub closed : File → File
closed f = record f { is_open = false }

-- open after readAndValidateHeader has failed.
-- `stats` is whether fstat gives the size; a file without one is taken for a new one.
unfoldable pub open_new : Calls → Bool → Bool → CompactContainer → File → Outcome
unfolding initialize_new_container
open_new os stats create_if_not_exists c f =
    let (r, c', f') = initialize_new_container os c f in
    if not create_if_not_exists
    then (err_invalid_header, c, closed f)
    else if not stats || leb f.size 128
    then (if is_success r then (success, record c' { is_open = true }, f') else (r, c', closed f'))
    else (err_invalid_header, c, closed f)

unfoldable pub open_existing : Calls → CompactContainer → File → Outcome
unfolding read_block_indices
open_existing os c f =
    let (r, c', f') = read_block_indices os c f in
    if is_success r then (success, record c' { is_open = true }, f') else (r, c', closed f')

-- open; `opens` is whether open(2) gives a descriptor, and `stats` whether fstat gives a size.
unfoldable pub open_container : Calls → Bool → Bool → Bool → CompactContainer → File → Outcome
unfolding read_and_validate_header open_existing open_new
open_container os opens stats create_if_not_exists c f =
    let f₀ = record f { is_open = true } in
    let (r, c', f') = read_and_validate_header os c f₀ in
    let existing = open_existing os c' f' in
    let fresh = open_new os stats create_if_not_exists c' f' in
    if c.is_open then (err_already_open, c, f) else elim c.compressor [
      | none ↦ (err_create_failed, c, f)
      | some z ↦
          if f.is_open
          then (err_already_open, c, f)
          else if not opens
          then (err_openfd_failed, c, f)
          else if is_success r
          then existing
          else fresh
    ]

unfoldable pub close_container : Calls → CompactContainer → File → CompactContainer × File
unfolding write_header
close_container os c f =
    let (r, f₁) = write_header os c f in
    let (s, f₂) = sync_file os c.read_only f₁ in
    (
      record c { block_indices = []; is_open = false; is_sealed = false },
      closed (if c.is_open && not c.read_only && not c.is_sealed then f₂ else f),
    )

unfoldable pub sync_container : Calls → CompactContainer → File → Outcome
sync_container os c f =
    let (r, f') = sync_file os c.read_only f in
    if not c.is_open
    then (err_not_open, c, f)
    else if c.read_only
    then (success, c, f)
    else if is_success r
    then (r, record c { sync_operations = u64 (c.sync_operations + 1) }, f')
    else (r, c, f')

-- The arguments of writeBlock that go into the index as they are.
pub record BlockMeta : Type 0 where
  pub tag_id : ℕ
  pub block_index : ℕ
  pub start_ts_us : ℕ
  pub end_ts_us : ℕ
  pub record_count : ℕ
  pub original_encoding : ℕ
  pub value_type : ℕ
  pub time_unit : ℕ

-- The header after a block has been added.
unfoldable pub counted_header : CompactHeader → BlockMeta → ℕ → ℕ → ℕ → CompactHeader
counted_header h meta count compressed_size size = record h {
  block_count = u32 count;
  total_compressed_size = u64 (h.total_compressed_size + compressed_size);
  total_original_size = u64 (h.total_original_size + size);
  start_ts_us =
      if u32 count == 1
      then meta.start_ts_us
      else if signed_lt meta.start_ts_us h.start_ts_us
      then meta.start_ts_us
      else h.start_ts_us;
  end_ts_us =
      if u32 count == 1
      then meta.end_ts_us
      else if signed_lt h.end_ts_us meta.end_ts_us
      then meta.end_ts_us
      else h.end_ts_us;
}

-- crc32 of zlib, of so many bytes.
abbrev pub Checksum : Type 0
Checksum = Bytes → ℕ → ℕ

unfoldable pub new_index : Checksum → BlockMeta → Bytes → ℕ → ℕ → ℕ → CompactIndex
new_index crc32 meta m size compressed_size offset = record {
  tag_id = meta.tag_id;
  original_block_index = meta.block_index;
  data_offset = offset;
  compressed_size = u32 compressed_size;
  original_size = size;
  start_ts_us = meta.start_ts_us;
  end_ts_us = meta.end_ts_us;
  record_count = meta.record_count;
  original_encoding = meta.original_encoding;
  value_type = meta.value_type;
  time_unit = meta.time_unit;
  reserved_u8 = 0;
  block_crc32 = crc32 m size;
  reserved1 = 0;
  padding = 0;
}

-- Where a block's bytes stand in the file.
abbrev pub file_offset : ℕ → ℕ
file_offset data_offset = u64 (compact_data_offset max_blocks_per_chunk + data_offset)

-- writeBlock after the compressor has run.
unfoldable pub store_block :
    Calls
    → Checksum
    → CompactContainer
    → File
    → BlockMeta
    → Bytes
    → ℕ
    → Option (Bytes × ℕ)
    → Outcome
unfolding counted_header new_index
store_block os crc32 c f meta m size none = (err_write_failed, c, f)
store_block os crc32 c f meta m size (some (x, compressed_size)) =
    let (r, f') =
      write_file os c.read_only f x compressed_size (file_offset c.current_data_offset) in
    let indices =
      c.block_indices ++ new_index crc32 meta m size compressed_size c.current_data_offset ∷ [] in
    if is_success r
    then (
      success,
      record c {
        block_indices = indices;
        current_data_offset = u64 (c.current_data_offset + compressed_size);
        header = counted_header c.header meta (length indices) compressed_size size;
        bytes_written = u64 (c.bytes_written + compressed_size);
        write_operations = u64 (c.write_operations + 1);
      },
      f',
    )
    else (r, c, f')

-- writeBlock. A null pointer is the absence of data; the compressor is there once the container is
-- open.
unfoldable pub write_block :
    Calls → Checksum → Compressor → CompactContainer → File → BlockMeta → Option Bytes → ℕ → Outcome
unfolding store_block
write_block os crc32 z c f meta source size =
    if not c.is_open
    then (err_not_open, c, f)
    else if c.read_only
    then (err_write_failed, c, f)
    else if c.is_sealed
    then (err_write_failed, c, f)
    else elim source [
      | none ↦ (err_invalid_size, c, f)
      | some m ↦
          if size == 0
          then (err_invalid_size, c, f)
          else if leb max_blocks_per_chunk (length c.block_indices)
          then (err_invalid_size, c, f)
          else store_block os crc32 c f meta m size (z.compress m size)
    ]

-- A call's result, the buffer, the actual size where it is set, the container and the file.
abbrev pub BlockOut : Type 0
BlockOut = ContainerResult × Bytes × Option ℕ × CompactContainer × File

-- readBlock after the decompressor has run. What a decompressor that fails leaves in the buffer is
-- not told apart from what was there.
unfoldable pub check_block :
    Checksum → CompactContainer → File → CompactIndex → Bytes → Option (Bytes × ℕ) → BlockOut
check_block crc32 c f index buffer none = (err_read_failed, buffer, none, c, f)
check_block crc32 c f index buffer (some (y, n)) =
    if not (n == index.original_size)
    then (err_read_failed, y, none, c, f)
    else if not (crc32 y index.original_size == index.block_crc32)
    then (err_read_failed, y, none, c, f)
    else (
      success,
      y,
      some index.original_size,
      record c {
        bytes_read = u64 (c.bytes_read + index.compressed_size);
        read_operations = u64 (c.read_operations + 1);
      },
      f,
    )

unfoldable pub load_block :
    Calls → Checksum → Compressor → CompactContainer → File → CompactIndex → Bytes → ℕ → BlockOut
unfolding check_block
load_block os crc32 z c f index buffer buffer_size =
    let (r, x, f') =
      read_file os f (λ a. 0) index.compressed_size (file_offset index.data_offset) in
    if ltb buffer_size index.original_size
    then (err_invalid_size, buffer, none, c, f)
    else if is_success r
    then check_block crc32 c f' index buffer (z.decompress x index.compressed_size buffer_size)
    else (r, buffer, none, c, f')

unfoldable pub read_block :
    Calls → Checksum → Compressor → CompactContainer → File → ℕ → Bytes → ℕ → BlockOut
unfolding load_block
read_block os crc32 z c f block_index buffer buffer_size =
    if not c.is_open
    then (err_not_open, buffer, none, c, f)
    else elim (get_elem? c.block_indices block_index) [
      | none ↦ (err_invalid_offset, buffer, none, c, f)
      | some index ↦ load_block os crc32 z c f index buffer buffer_size
    ]

unfoldable pub get_block_index : CompactContainer → ℕ → Option CompactIndex
get_block_index c block_index = get_elem? c.block_indices block_index

unfoldable pub get_block_count : CompactContainer → ℕ
get_block_count c = u32 (length c.block_indices)

-- The loop of seal over the indices, by the position of the next one.
unfoldable pub write_indices : Calls → Bool → File → List CompactIndex → ℕ → ContainerResult × File
write_indices os read_only f [] i = (success, f)
write_indices os read_only f (e ∷ es) i =
    let (r, f') =
      write_file os read_only f (index_bytes e) index_size
        (compact_index_offset + i * index_size) in
    let rest = write_indices os read_only f' es (i + 1) in if is_success r then rest else (r, f')

-- The header that seal writes: its checksum is taken before the sealed bit is cleared.
unfoldable pub sealed_header : Checksum → CompactHeader → CompactHeader
sealed_header crc32 h =
    let h' = record h {
      index_offset = compact_index_offset;
      data_offset = compact_data_offset max_blocks_per_chunk;
    } in
    record h' {
      super_crc32 = crc32 (header_bytes h') 92;
      flags = chunk_clear_bit h.flags chb_sealed;
    }

-- seal after the indices have been written.
unfoldable pub finish_seal : Calls → Checksum → CompactContainer → File → Outcome
unfolding sealed_header write_header sync_container
finish_seal os crc32 c f =
    let c' = record c { header = sealed_header crc32 c.header } in
    let (r, f') = write_header os c' f in
    let (s, c'', f'') = sync_container os c' f' in
    if not (is_success r)
    then (r, c', f')
    else if not (is_success s)
    then (s, c'', f'')
    else (success, record c'' { is_sealed = true }, f'')

unfoldable pub seal_container : Calls → Checksum → CompactContainer → File → Outcome
unfolding finish_seal write_indices
seal_container os crc32 c f =
    let (r, f') = write_indices os c.read_only f c.block_indices 0 in
    if not c.is_open
    then (err_not_open, c, f)
    else if c.read_only
    then (err_write_failed, c, f)
    else if c.is_sealed
    then (success, c, f)
    else if is_success r
    then finish_seal os crc32 c f'
    else (r, c, f')
