-- ===== src/Engine/Chunks.antt =====
-- Chunks of the engine: allocation, what sealing a full chunk does, and restoring the active one.
use x_tdb.Base.{
  ℕ, zero, suc, ◌+◌, ◌-◌, ◌*◌, ◌/◌, ◌^◌, Bool, false, not, ◌&&◌, Option, none, some, [], length,
  copy, leb, ◌==◌, if◌then◌else◌,
}
use x_tdb.Layout.Units.{u32, u64, extent_size_bytes}
use x_tdb.Flags.{chunk_is_allocated}
use x_tdb.Io.{IoResult, Os, File, Buffer, aligned_buffer, read, write}
use x_tdb.Io
use x_tdb.Structs.{
  ChunkHeader, default_chunk_header, chunk_header_at, chunk_header_bytes, raw_chunk_magic,
}
use x_tdb.Mutator.{io_ok, allocate_chunk}
use x_tdb.Directory.{DirectoryBuilder, open_builder, initialize, load_directory, write_directory}
use x_tdb.Seal.Sealer.{mutate_ok, seal_ok}
use x_tdb.Seal.Sealer
use x_tdb.Seal.Scanner.{ScannedChunk, scan_ok, scan_chunk}
use x_tdb.Metadata.Tables.{sync_ok}
use x_tdb.Metadata.Sync.{sync_chunk}
use x_tdb.Engine.State.{
  success, err_metadata_open_failed, err_chunk_allocation_failed, err_state_restoration_failed,
  err_invalid_data, dir_ok, ActiveChunk, Engine, Platform, Step, ◌>>◌,
}

-- memset of 0xFF over a new block buffer
abbrev pub blank_buffer : Os → ℕ → Buffer
blank_buffer os size =
    let b = aligned_buffer os size in record b { cells = copy b.cells 0 (λ a. 255) 0 size }

-- The header that a new chunk gets.
abbrev pub new_header : Engine → ChunkHeader
new_header e = record default_chunk_header {
  chunk_id = e.active.chunk_id;
  chunk_size_extents = e.config.layout.chunk_size_bytes / extent_size_bytes;
  block_size_extents = e.config.layout.block_size_bytes / extent_size_bytes;
  meta_blocks = e.config.layout.meta_blocks;
  data_blocks = e.config.layout.data_blocks;
}

-- The loop over the `left` directory blocks from number `i` on.
unfoldable pub write_blank_blocks : Os → ℕ → ℕ → ℕ → ℕ → File → IoResult × File
write_blank_blocks os size dir_offset zero i f = (IoResult.success, f)
write_blank_blocks os size dir_offset (suc left) i f =
    let (w, f') = write os f (blank_buffer os size) size (u64 (dir_offset + u32 (i * size))) in
    let rest = write_blank_blocks os size dir_offset left (i + 1) f' in
    if io_ok w then rest else (w, f')

unfoldable pub allocate_new_chunk : Platform → ℕ → Step
unfolding write_blank_blocks
allocate_new_chunk p chunk_offset e =
    let layout = e.config.layout in
    let size = layout.block_size_bytes in
    let b = blank_buffer p.os size in
    let header_buffer = record b {
      cells = copy b.cells 0 (chunk_header_bytes (new_header e)) 0 128;
    } in
    let (w, f₁) = write p.os e.io header_buffer size chunk_offset in
    let (d, f₂) =
      write_blank_blocks p.os size (u64 (chunk_offset + size))
        (u32 (layout.meta_blocks + 2 ^ 32 - 1)) 0 f₁ in
    let (m, f₃) = allocate_chunk p.os f₂ chunk_offset in
    let (i, builder) = initialize (open_builder layout chunk_offset) in
    if not (io_ok w)
    then (err_chunk_allocation_failed, record e { io = f₁ })
    else if not (io_ok d)
    then (err_chunk_allocation_failed, record e { io = f₂ })
    else if not (mutate_ok m)
    then (err_chunk_allocation_failed, record e { io = f₃ })
    else if not (dir_ok i)
    then (err_chunk_allocation_failed, record e { io = f₃; dir_builder = some builder })
    else (success, record e { io = f₃; dir_builder = some builder })

-- writeDirectory and sync before a chunk is sealed, if there is a directory builder.
unfoldable pub save_directory : Platform → Option DirectoryBuilder → Step
save_directory p none e = (success, e)
save_directory p (some builder) e =
    let (d, f₁) = write_directory p.os builder e.io in
    let (s, f₂) = Io.sync p.os f₁ in
    if not (dir_ok d)
    then (err_invalid_data, record e { io = f₁ })
    else if not (io_ok s)
    then (err_invalid_data, record e { io = f₂ })
    else (success, record e { io = f₂ })

-- sealChunk on the active chunk
unfoldable pub seal_active : Platform → Step
seal_active p e =
    let (s, f) =
      Sealer.seal_chunk p.os e.io e.active.chunk_offset e.config.layout e.active.start_ts_us
        e.active.end_ts_us in
    if not (seal_ok s) then (err_chunk_allocation_failed, record e { io = f }) else (
      success,
      record e {
        io = f;
        write_stats = record e.write_stats {
          chunks_sealed = u64 (e.write_stats.chunks_sealed + 1);
        };
      },
    )

abbrev pub no_chunk : ScannedChunk
no_chunk = record {
  chunk_id = 0;
  start_ts_us = 0;
  end_ts_us = 0;
  super_crc32 = 0;
  is_sealed = false;
  blocks = [];
}

-- The scan of the sealed chunk and its way to the metadata; `strict` is whether a failure of
-- syncChunk is returned (sealCurrentChunk) or passed over (flush).
unfoldable pub sync_active : Platform → Bool → Step
sync_active p strict e =
    let (s, chunk, f) = scan_chunk p.os e.io e.active.chunk_offset e.config.layout no_chunk in
    let (m, db) = sync_chunk p.sqlite e.metadata e.active.chunk_offset chunk in
    let e₁ = record e { io = f } in
    if not (scan_ok s)
    then (success, e₁)
    else if strict && not (sync_ok m)
    then (err_metadata_open_failed, record e₁ { metadata = db })
    else (success, record e₁ { metadata = db })

-- The active chunk becomes the one behind it.
abbrev pub advanced : Engine → Engine
advanced e = record e {
  active = record e.active {
    chunk_id = u32 (e.active.chunk_id + 1);
    chunk_offset = u64 (e.active.chunk_offset + e.config.layout.chunk_size_bytes);
    blocks_used = 0;
    start_ts_us = 0;
    end_ts_us = 0;
  };
}

abbrev pub count_allocated : Step
count_allocated e = (
  success,
  record e {
    write_stats = record e.write_stats {
      chunks_allocated = u64 (e.write_stats.chunks_allocated + 1);
    };
  },
)

-- The new chunk at the next position.
unfoldable pub next_chunk : Platform → Step
unfolding ◌>>◌
next_chunk p e =
    (allocate_new_chunk p (advanced e).active.chunk_offset >> count_allocated) (advanced e)

-- `blocks_used >= blocks_total`
abbrev pub is_chunk_full : Engine → Bool
is_chunk_full e = leb e.active.blocks_total e.active.blocks_used

-- What flush does when the active chunk is full.
unfoldable pub roll_over : Platform → Step
unfolding ◌>>◌
roll_over p e =
    let rolled =
      (save_directory p e.dir_builder >> seal_active p >> sync_active p false >> next_chunk p) e in
    if is_chunk_full e then rolled else (success, e)

-- The same in flushSingleTag, which does not tell the metadata store.
unfoldable pub roll_over_single : Platform → Step
unfolding ◌>>◌
roll_over_single p e =
    let rolled = (save_directory p e.dir_builder >> seal_active p >> next_chunk p) e in
    if is_chunk_full e then rolled else (success, e)

-- Where the first chunk starts: 257 extents into the container.
abbrev pub first_chunk : Engine → ActiveChunk
first_chunk e = record {
  chunk_id = 0;
  chunk_offset = 257 * extent_size_bytes;
  blocks_used = 0;
  blocks_total = e.config.layout.data_blocks;
  start_ts_us = 0;
  end_ts_us = 0;
}

-- The branch of restoreActiveState where the chunk is there, with its header.
unfoldable pub restore_chunk : Platform → ChunkHeader → Step
restore_chunk p h e =
    let a = record e.active {
      chunk_id = h.chunk_id;
      start_ts_us = h.start_ts_us;
      end_ts_us = h.end_ts_us;
    } in
    let (s, chunk, f₁) = scan_chunk p.os e.io a.chunk_offset e.config.layout no_chunk in
    let used = if scan_ok s then u32 (length chunk.blocks) else a.blocks_used in
    let (d, builder, f₂) = load_directory p.os (open_builder e.config.layout a.chunk_offset) f₁ in
    let e' = record e {
      io = f₂;
      active = record a { blocks_used = used };
      dir_builder = some builder;
    } in
    if dir_ok d then (success, e') else (err_state_restoration_failed, e')

unfoldable pub restore_active_state : Platform → Step
unfolding restore_chunk
restore_active_state p e =
    let e₁ = record e { active = first_chunk e } in
    let size = e.config.layout.block_size_bytes in
    let (r, b, f) = read p.os e₁.io (aligned_buffer p.os size) size e₁.active.chunk_offset in
    let h = chunk_header_at b.cells 0 in
    let e₂ = record e₁ { io = f } in
    if io_ok r && h.magic == raw_chunk_magic && chunk_is_allocated h.flags
    then restore_chunk p h e₂
    else allocate_new_chunk p e₁.active.chunk_offset e₂
