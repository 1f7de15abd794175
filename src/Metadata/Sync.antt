-- ===== src/Metadata/Sync.antt =====
-- Opening and closing, and the statements that change the tables.
use x_tdb.Base.{
  ℕ, Bool, true, false, not, ◌&&◌, Option, none, some, List, [], ◌∷◌, ◌++◌, map, length, ◌==◌,
  if◌then◌else◌,
}
use x_tdb.Layout.Units.{u32}
use x_tdb.Seal.Scanner.{ScannedBlock, ScannedChunk}
use x_tdb.Metadata.Tables.{
  SyncResult, success, err_db_open_failed, err_db_exec_failed, sync_ok, ChunkRow, BlockRow,
  Database, Sqlite, ticked, execute_sql, run, where_rows,
}

-- open; the result of the PRAGMA is not looked at.
unfoldable pub open_database : Sqlite → Database → SyncResult × Database
open_database sql db =
    if sql.opens db.calls
    then (success, record (ticked 2 db) { is_open = true; before = none })
    else (err_db_open_failed, record (ticked 1 db) { is_open = false })

-- The tables go back to those before the open transaction, if there is one.
unfoldable pub restored : Option (List ChunkRow × List BlockRow) → Database → Database
restored none db = db
restored (some (chunks, blocks)) db = record db { chunks = chunks; blocks = blocks; before = none }

unfoldable pub rolled_back : Database → Database
unfolding restored
rolled_back db = restored db.before db

-- Closing a connection rolls its transaction back.
unfoldable pub close_database : Database → Database
unfolding rolled_back
close_database db = if db.is_open then record (rolled_back db) { is_open = false } else db

-- CREATE TABLE IF NOT EXISTS leaves a table that is there alone. The results of the nine ALTER TABLE
-- and five CREATE INDEX statements are not looked at.
unfoldable pub init_schema : Sqlite → Database → SyncResult × Database
init_schema sql db =
    let (r, db₁) = execute_sql sql db (λ t. t) in
    let (s, db₂) = execute_sql sql db₁ (λ t. t) in
    if not (sync_ok r)
    then (r, db₁)
    else if not (sync_ok s)
    then (s, db₂)
    else (success, ticked 14 db₂)

-- BEGIN TRANSACTION is an error inside a transaction.
unfoldable pub begin_transaction : Sqlite → Database → SyncResult × Database
begin_transaction sql db = elim db.before [
  | none ↦ execute_sql sql db (λ t. record t { before = some (t.chunks, t.blocks) })
  | some _ ↦ (err_db_exec_failed, ticked 1 db)
]

-- `executeSql("ROLLBACK;")`, whose result is not looked at.
unfoldable pub rollback : Sqlite → Database → Database
rollback sql db = (execute_sql sql db rolled_back).1

unfoldable pub commit : Sqlite → Database → SyncResult × Database
commit sql db = execute_sql sql db (λ t. record t { before = none })

abbrev pub chunk_row : ℕ → ScannedChunk → ChunkRow
chunk_row chunk_offset c = record {
  chunk_id = c.chunk_id;
  container_id = 0;
  chunk_offset = chunk_offset;
  start_ts_us = c.start_ts_us;
  end_ts_us = c.end_ts_us;
  super_crc32 = c.super_crc32;
  is_sealed = c.is_sealed;
  block_count = u32 (length c.blocks);
}

abbrev pub block_row : ℕ → ℕ → ScannedBlock → BlockRow
block_row chunk_offset chunk_id b = record {
  chunk_id = chunk_id;
  block_index = b.block_index;
  tag_id = b.tag_id;
  start_ts_us = b.start_ts_us;
  end_ts_us = b.end_ts_us;
  time_unit = b.time_unit;
  value_type = b.value_type;
  record_count = b.record_count;
  chunk_offset = chunk_offset;
  container_id = 0;
  is_archived = false;
  archived_to_container_id = 0;
  archived_to_block_index = 0;
  original_chunk_id = 0;
  original_block_index = 0;
  encoding_type = 0;
  original_size = 0;
  compressed_size = 0;
}

-- INSERT OR REPLACE: the chunk_id is the primary key.
abbrev pub replace_chunk : ChunkRow → Database → Database
replace_chunk row db = record db {
  chunks = where_rows (λ c. not (c.chunk_id == row.chunk_id)) db.chunks ++ row ∷ [];
}

abbrev pub insert_block : BlockRow → Database → Database
insert_block row db = record db { blocks = db.blocks ++ row ∷ [] }

-- The loop over the blocks, up to the first failure.
unfoldable pub insert_blocks : Sqlite → Database → List BlockRow → SyncResult × Database
insert_blocks sql db [] = (success, db)
insert_blocks sql db (row ∷ rows) =
    let (r, db₁) = run sql db (insert_block row) in
    let rest = insert_blocks sql db₁ rows in if not (sync_ok r) then (r, db₁) else rest

unfoldable pub sync_chunk : Sqlite → Database → ℕ → ScannedChunk → SyncResult × Database
unfolding begin_transaction rollback commit insert_blocks
sync_chunk sql db chunk_offset chunk =
    let (b, db₁) = begin_transaction sql db in
    let (c, db₂) = run sql db₁ (replace_chunk (chunk_row chunk_offset chunk)) in
    let (i, db₃) =
      insert_blocks sql db₂ (map (block_row chunk_offset chunk.chunk_id) chunk.blocks) in
    if not (sync_ok b)
    then (b, db₁)
    else if not (sync_ok c)
    then (c, rollback sql db₂)
    else if not (sync_ok i)
    then (i, rollback sql db₃)
    else commit sql db₃

-- The two DELETE statements of deleteChunk. The second one does not look at the container.
unfoldable pub delete_chunk : Sqlite → Database → ℕ → ℕ → SyncResult × Database
delete_chunk sql db container_id chunk_id =
    let (c, db₁) = run sql db λ t. record t {
      chunks =
          where_rows (λ c. not (c.container_id == container_id && c.chunk_id == chunk_id)) t.chunks;
    } in
    let deleted =
      run sql db₁
        λ t. record t { blocks = where_rows (λ b. not (b.chunk_id == chunk_id)) t.blocks } in
    if not db.is_open
    then (err_db_open_failed, db)
    else if not (sync_ok c)
    then (c, db₁)
    else deleted

-- The arguments of syncCompactBlock.
pub record CompactBlock : Type 0 where
  pub container_id : ℕ
  pub block_index : ℕ
  pub tag_id : ℕ
  pub original_chunk_id : ℕ
  pub original_block_index : ℕ
  pub start_ts_us : ℕ
  pub end_ts_us : ℕ
  pub record_count : ℕ
  pub original_encoding : ℕ
  pub value_type : ℕ
  pub time_unit : ℕ
  pub original_size : ℕ
  pub compressed_size : ℕ

abbrev pub compact_row : CompactBlock → BlockRow
compact_row b = record {
  chunk_id = 0;
  block_index = b.block_index;
  tag_id = b.tag_id;
  start_ts_us = b.start_ts_us;
  end_ts_us = b.end_ts_us;
  time_unit = b.time_unit;
  value_type = b.value_type;
  record_count = b.record_count;
  chunk_offset = 0;
  container_id = b.container_id;
  is_archived = false;
  archived_to_container_id = 0;
  archived_to_block_index = 0;
  original_chunk_id = b.original_chunk_id;
  original_block_index = b.original_block_index;
  encoding_type = b.original_encoding;
  original_size = b.original_size;
  compressed_size = b.compressed_size;
}

unfoldable pub sync_compact_block : Sqlite → Database → CompactBlock → SyncResult × Database
sync_compact_block sql db b = run sql db (insert_block (compact_row b))

-- WHERE container_id = ? AND chunk_id = ? AND block_index = ?
abbrev pub is_block : ℕ → ℕ → ℕ → BlockRow → Bool
is_block container_id chunk_id block_index b =
    b.container_id == container_id && b.chunk_id == chunk_id && b.block_index == block_index

abbrev pub archived_row : ℕ → ℕ → BlockRow → BlockRow
archived_row to_container to_block b = record b {
  is_archived = true;
  archived_to_container_id = to_container;
  archived_to_block_index = to_block;
}

unfoldable pub mark_block_as_archived :
    Sqlite → Database → ℕ → ℕ → ℕ → ℕ → ℕ → SyncResult × Database
mark_block_as_archived sql db container_id chunk_id block_index to_container to_block =
    run sql db λ t. record t {
      blocks =
          map
            (λ b.
              if is_block container_id chunk_id block_index b
              then archived_row to_container to_block b
              else b)
            t.blocks;
    }
