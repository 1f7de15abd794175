-- ===== src/Tests/Store.antt =====
-- The metadata store: the theorems at the fixtures.
use mathlib.Core.List.{Mem}
use x_tdb.Base.{
  ◌≡◌, ◌≢◌, ◌⊎◌, arith, refl, true, false, not, ◌&&◌, none, some, List, [], ◌∷◌, All, ◌==◌,
}
use x_tdb.Seal.Scanner.{ScannedBlock, ScannedChunk}
use x_tdb.Metadata.Tables.{
  SyncResult, success, err_db_exec_failed, Database, Sqlite, IsSqlite, run, execute_sql, where_rows,
  select, fetch,
}
use x_tdb.Metadata.Sync.{
  CompactBlock, compact_row, sync_chunk, delete_chunk, mark_block_as_archived, block_row, chunk_row,
}
use x_tdb.Metadata.Query.{
  BlockQueryResult, query_block_metadata, query_blocks_by_tag_and_time, query_blocks_for_archive,
  result_of, query_blocks,
}
use x_tdb.Metadata.Synced.{sync_chunk_atomic}
use x_tdb.Metadata.Found.{
  AllFound, Wanted, query_blocks-sync_chunk, query_block_metadata-delete_chunk,
  query_blocks_for_archive-mark,
}
use x_tdb.Tests.Sorted.{sort_by, sort_by-Permᴰ, sort_by-Ascending}

-- A store whose calls succeed.
abbrev pub sqlite : Sqlite
sqlite = record {
  opens = λ call. true;
  prepares = λ call. true;
  executes = λ call. true;
  breaks = λ call. none;
  order_chunks = λ key rows. sort_by key rows;
  order_blocks = λ key rows. sort_by key rows;
}

pub sqlite-IsSqlite : IsSqlite sqlite
sqlite-IsSqlite = record {
  chunks_kept = λ key xs. sort_by-Permᴰ key xs;
  blocks_kept = λ key xs. sort_by-Permᴰ key xs;
  chunks_sorted = λ key xs. sort_by-Ascending key xs;
  blocks_sorted = λ key xs. sort_by-Ascending key xs;
}

abbrev pub empty_store : Database
empty_store = record { is_open = true; calls = 0; chunks = []; blocks = []; before = none }

-- A store whose fourth call, the statement for the first block, fails.
abbrev failing : Sqlite
failing = record sqlite { executes = λ call. not (call == 4) }

abbrev scanned : ScannedBlock
scanned = record {
  block_index = 0;
  tag_id = 7;
  start_ts_us = 1000;
  end_ts_us = 9000;
  time_unit = 4;
  value_type = 4;
  record_count = 8;
  data_crc32 = 0;
  is_sealed = true;
}

abbrev chunk : ScannedChunk
chunk = record {
  chunk_id = 3;
  start_ts_us = 1000;
  end_ts_us = 9000;
  super_crc32 = 1;
  is_sealed = true;
  blocks = scanned ∷ [];
}

sync_fails : (sync_chunk failing empty_store 65536 chunk).0 ≡ err_db_exec_failed
unfolding sync_chunk x_tdb.Metadata.Sync.begin_transaction x_tdb.Metadata.Sync.insert_blocks run
    execute_sql
sync_fails = refl

sync_chunk_atomic_example :
    let db' = (sync_chunk failing empty_store 65536 chunk).1 in
    ((db'.chunks ≡ []) × (db'.blocks ≡ []) × (db'.before ≡ none))
    ⊎ ((db'.chunks ≡ chunk_row 65536 chunk ∷ [])
        × (db'.blocks ≡ block_row 65536 3 scanned ∷ [])
        × (db'.before ≡ some ([], [])))
unfolding where_rows
sync_chunk_atomic_example =
    sync_chunk_atomic failing empty_store 65536 chunk 4 refl
      (λ k other. (ground (arith, other), refl)) (λ h. absurd (cc (sync_fails, h)))

stored : (sync_chunk sqlite empty_store 65536 chunk).0 ≡ success
unfolding sync_chunk x_tdb.Metadata.Sync.begin_transaction x_tdb.Metadata.Sync.insert_blocks
    x_tdb.Metadata.Sync.commit run execute_sql
stored = refl

abbrev with_chunk : Database
with_chunk = (sync_chunk sqlite empty_store 65536 chunk).1

abbrev query : SyncResult × List BlockQueryResult × Database
query = query_blocks_by_tag_and_time sqlite with_chunk 7 2000 3000

query_succeeds : query.0 ≡ success
unfolding query_blocks_by_tag_and_time query_blocks select fetch sync_chunk
    x_tdb.Metadata.Sync.begin_transaction x_tdb.Metadata.Sync.insert_blocks
    x_tdb.Metadata.Sync.commit run execute_sql
query_succeeds = refl

abbrev empty_query : SyncResult × List BlockQueryResult × Database
empty_query = query_blocks_by_tag_and_time sqlite empty_store 7 2000 3000

empty_query_succeeds : empty_query.0 ≡ success
unfolding query_blocks_by_tag_and_time query_blocks select fetch
empty_query_succeeds = refl

query_blocks-sync_chunk_example :
    AllFound 7 2000 3000 65536 3 (scanned ∷ []) query.1
    × ((x : BlockQueryResult) → Mem x empty_query.1 → Mem x query.1)
    × All (Wanted 7 2000 3000) query.1
query_blocks-sync_chunk_example =
    query_blocks-sync_chunk sqlite empty_store 65536 chunk 7 2000 3000 sqlite-IsSqlite refl stored
      empty_query_succeeds query_succeeds

abbrev compact : CompactBlock
compact = record {
  container_id = 1;
  block_index = 5;
  tag_id = 7;
  original_chunk_id = 3;
  original_block_index = 0;
  start_ts_us = 1000;
  end_ts_us = 9000;
  record_count = 8;
  original_encoding = 0;
  value_type = 4;
  time_unit = 4;
  original_size = 96;
  compressed_size = 40;
}

abbrev with_compact : Database
with_compact = record empty_store { blocks = compact_row compact ∷ [] }

deleted : (delete_chunk sqlite with_compact 0 0).0 ≡ success
unfolding delete_chunk run
deleted = refl

query_block_metadata-delete_chunk_example :
    (query_block_metadata sqlite
      (delete_chunk sqlite with_compact 0 0).1
      1
      0
      5
      (result_of (compact_row compact))).0
    ≢ success
query_block_metadata-delete_chunk_example =
    query_block_metadata-delete_chunk sqlite with_compact 0 compact
      (result_of (compact_row compact)) deleted

marked : (mark_block_as_archived sqlite with_compact 1 0 5 2 0).0 ≡ success
unfolding mark_block_as_archived run
marked = refl

abbrev archivable : SyncResult × List BlockQueryResult × Database
archivable =
    query_blocks_for_archive sqlite (mark_block_as_archived sqlite with_compact 1 0 5 2 0).1 1 20000

archivable_succeeds : archivable.0 ≡ success
unfolding query_blocks_for_archive query_blocks select fetch mark_block_as_archived run
archivable_succeeds = refl

query_blocks_for_archive-mark_example :
    All (λ b. (b.chunk_id == 0 && b.block_index == 5) ≡ false) archivable.1
query_blocks_for_archive-mark_example =
    query_blocks_for_archive-mark sqlite with_compact 1 0 5 2 0 20000 sqlite-IsSqlite marked
      archivable_succeeds
