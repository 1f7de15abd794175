-- ===== src/Engine/Maintenance.antt =====
-- Retention, the reclaiming of deprecated chunks, sealing the current chunk, and closing.
use x_tdb.Base.{
  ℕ, zero, suc, ◌+◌, ◌*◌, Bool, true, false, not, ◌&&◌, Option, none, some, List, [], ◌∷◌, ltb,
  ◌==◌, if◌then◌else◌,
}
use x_tdb.Layout.Units.{u64, extent_size_bytes}
use x_tdb.Flags.{chunk_is_deprecated}
use x_tdb.Io.{aligned_buffer, read}
use x_tdb.Structs.{chunk_header_at, raw_chunk_magic}
use x_tdb.Mutator.{io_ok, deprecate_chunk, mark_chunk_free}
use x_tdb.Seal.Sealer.{mutate_ok}
use x_tdb.MemBuffer.{signed_sub}
use x_tdb.Rotating.Container.{close_wal}
use x_tdb.Rotating.Segment.{RotatingWal}
use x_tdb.Rotating.Append
use x_tdb.Metadata.Tables.{ChunkRow, sync_ok}
use x_tdb.Metadata.Sync.{open_database, init_schema, close_database, delete_chunk}
use x_tdb.Metadata.Query.{query_sealed_chunks}
use x_tdb.Engine.State.{
  success, err_metadata_open_failed, err_engine_not_open, Engine, Platform, Step, ◌>>◌,
}
use x_tdb.Engine.Chunks.{seal_active, sync_active}
use x_tdb.Engine.Batches.{tags_with, flush_tags_anyway}
use x_tdb.Engine.Flush.{flush}

unfoldable pub connect_metadata : Platform → Step
connect_metadata p e =
    let (o, db₁) = open_database p.sqlite e.metadata in
    let (s, db₂) = init_schema p.sqlite db₁ in
    if not (sync_ok o)
    then (err_metadata_open_failed, record e { metadata = db₁ })
    else if not (sync_ok s)
    then (err_metadata_open_failed, record e { metadata = db₂ })
    else (success, record e { metadata = db₂ })

-- The callback of runRetentionService, for one chunk.
unfoldable pub expire : Platform → ChunkRow → Engine → Engine
expire p row e =
    let (m, f) = deprecate_chunk p.os e.io row.chunk_offset in
    let (d, db) = delete_chunk p.sqlite e.metadata 0 row.chunk_id in
    if not (mutate_ok m) then record e { io = f } else record e {
      io = f;
      metadata = db;
      maintenance_stats = record e.maintenance_stats {
        chunks_deprecated = u64 (e.maintenance_stats.chunks_deprecated + 1);
      };
    }

unfoldable pub expire_all : Platform → List ChunkRow → Engine → Engine
unfolding expire
expire_all p [] e = e
expire_all p (row ∷ rows) e = expire_all p rows (expire p row e)

-- retention_days in microseconds, as an int64_t
abbrev pub retention_us : Engine → ℕ
retention_us e = u64 (e.config.retention_days * 86_400_000_000)

-- `clock` is the system's time, for a current time of 0.
unfoldable pub run_retention_service : Platform → ℕ → ℕ → Step
unfolding expire_all
run_retention_service p clock current_time_us e =
    let now = if current_time_us == 0 then clock else current_time_us in
    let (r, rows, db) =
      query_sealed_chunks p.sqlite e.metadata 0 0 (signed_sub now (retention_us e)) in
    let e' = expire_all p rows (record e { metadata = db }) in
    if not e.is_open
    then (err_engine_not_open, e)
    else if e.config.retention_days == 0
    then (success, e)
    else if not (sync_ok r)
    then (err_metadata_open_failed, e')
    else (
      success,
      record e' { maintenance_stats = record e'.maintenance_stats { last_retention_run_ts = now } },
    )

-- One round of the loop of reclaimDeprecatedChunks: whether it goes on, and the engine.
unfoldable pub reclaim_at : Platform → ℕ → Engine → Bool × Engine
reclaim_at p chunk_offset e =
    let size = e.config.layout.block_size_bytes in
    let (r, b, f) = read p.os e.io (aligned_buffer p.os size) size chunk_offset in
    let h = chunk_header_at b.cells 0 in
    let (m, f') = mark_chunk_free p.os f chunk_offset in
    if not (io_ok r)
    then (false, record e { io = f })
    else if h.magic == raw_chunk_magic && chunk_is_deprecated h.flags
    then (if mutate_ok m
        then (
          true,
          record e {
            io = f';
            maintenance_stats = record e.maintenance_stats {
              chunks_freed = u64 (e.maintenance_stats.chunks_freed + 1);
            };
          },
        )
        else (true, record e { io = f' }))
    else (true, record e { io = f })

-- The loop, with fuel for its rounds.
unfoldable pub reclaim_from : Platform → ℕ → ℕ → Engine → Engine
unfolding reclaim_at
reclaim_from p zero chunk_offset e = e
reclaim_from p (suc fuel) chunk_offset e =
    let (more, e') = reclaim_at p chunk_offset e in
    let rest = reclaim_from p fuel (u64 (chunk_offset + e.config.layout.chunk_size_bytes)) e' in
    if ltb chunk_offset e.capacity_bytes then (if more then rest else e') else e

unfoldable pub reclaim_deprecated_chunks : Platform → ℕ → Step
unfolding reclaim_from
reclaim_deprecated_chunks p fuel e =
    if e.is_open
    then (success, reclaim_from p fuel extent_size_bytes e)
    else (err_engine_not_open, e)

unfoldable pub seal_current_chunk : Platform → Step
unfolding ◌>>◌
seal_current_chunk p e =
    let sealed = (flush p >> seal_active p >> sync_active p true) e in
    if not e.is_open
    then (err_engine_not_open, e)
    else if e.active.blocks_used == 0
    then (success, e)
    else sealed

-- The log is synced and closed; the results are not looked at.
unfoldable pub close_log : Platform → Option RotatingWal → Engine → Engine
close_log p none e = e
close_log p (some w) e =
    let (r, w₁, f₁) = Append.sync p.os w e.wal_file in
    let (w₂, f₂) = close_wal p.os w₁ f₁ in record e { wal = none; wal_file = f₂ }

-- close; closing the container's file is the last of what is done to it.
unfoldable pub close_engine : Platform → Engine → Engine
unfolding close_log tags_with flush_tags_anyway
close_engine p e =
    let e₁ = flush_tags_anyway p (tags_with 1 e.wal_batches) e in
    let e₂ = close_log p e₁.wal e₁ in
    if not e.is_open then e else record e₂ {
      is_open = false;
      io = record e₂.io { is_open = false };
      dir_builder = none;
      metadata = close_database e₂.metadata;
      buffers = [];
    }
