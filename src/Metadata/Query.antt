-- ===== src/Metadata/Query.antt =====
-- The queries. A SELECT that breaks off has given the rows before the error to the caller.
use x_tdb.Base.{
  ℕ, ◌+◌, ◌^◌, Bool, true, false, not, ◌&&◌, List, [], ◌∷◌, map, ◌==◌, ltb, if◌then◌else◌,
}
use x_tdb.Layout.Units.{u32}
use x_tdb.Rotating.Segment.{signed_lt}
use x_tdb.Metadata.Tables.{
  SyncResult, success, err_db_open_failed, err_invalid_data, ChunkRow, BlockRow, Database, Sqlite,
  select, where_rows, take_rows,
}
use x_tdb.Metadata.Sync.{is_block}

pub record BlockQueryResult : Type 0 where
  pub chunk_id : ℕ
  pub block_index : ℕ
  pub tag_id : ℕ
  pub start_ts_us : ℕ
  pub end_ts_us : ℕ
  pub time_unit : ℕ
  pub value_type : ℕ
  pub record_count : ℕ
  pub chunk_offset : ℕ

-- The nine columns that the queries of blocks read.
abbrev pub result_of : BlockRow → BlockQueryResult
result_of b = record {
  chunk_id = b.chunk_id;
  block_index = b.block_index;
  tag_id = b.tag_id;
  start_ts_us = b.start_ts_us;
  end_ts_us = b.end_ts_us;
  time_unit = b.time_unit;
  value_type = b.value_type;
  record_count = b.record_count;
  chunk_offset = b.chunk_offset;
}

-- SELECT … FROM blocks WHERE … ORDER BY …
unfoldable pub query_blocks :
    Sqlite
    → Database
    → (BlockRow → Bool)
    → (BlockRow → ℕ)
    → SyncResult × List BlockQueryResult × Database
query_blocks sql db test key =
    let (r, rows, db') = select sql db (sql.order_blocks key (where_rows test db.blocks)) in
    (r, map result_of rows, db')

unfoldable pub query_blocks_by_tag :
    Sqlite → Database → ℕ → SyncResult × List BlockQueryResult × Database
query_blocks_by_tag sql db tag_id =
    query_blocks sql db (λ b. b.tag_id == tag_id) (λ b. b.start_ts_us)

-- start_ts_us <= end AND end_ts_us >= start
abbrev pub overlaps : ℕ → ℕ → BlockRow → Bool
overlaps start_ts_us end_ts_us b =
    not (signed_lt end_ts_us b.start_ts_us) && not (signed_lt b.end_ts_us start_ts_us)

unfoldable pub query_blocks_by_time_range :
    Sqlite → Database → ℕ → ℕ → SyncResult × List BlockQueryResult × Database
query_blocks_by_time_range sql db start_ts_us end_ts_us =
    query_blocks sql db (overlaps start_ts_us end_ts_us) (λ b. b.start_ts_us)

abbrev pub is_hit : ℕ → ℕ → ℕ → BlockRow → Bool
is_hit tag_id start_ts_us end_ts_us b =
    b.tag_id == tag_id && overlaps start_ts_us end_ts_us b && b.container_id == 0

unfoldable pub query_blocks_by_tag_and_time :
    Sqlite → Database → ℕ → ℕ → ℕ → SyncResult × List BlockQueryResult × Database
query_blocks_by_tag_and_time sql db tag_id start_ts_us end_ts_us =
    query_blocks sql db (is_hit tag_id start_ts_us end_ts_us) (λ b. b.start_ts_us)

-- SELECT DISTINCT tag_id … ORDER BY tag_id, where the column is the int that was bound.
abbrev pub tag_lt : ℕ → ℕ → Bool
tag_lt a b = ltb (u32 (a + 2 ^ 31)) (u32 (b + 2 ^ 31))

unfoldable pub insert_distinct : ℕ → List ℕ → List ℕ
insert_distinct t [] = t ∷ []
insert_distinct t (x ∷ xs) =
    let rest = insert_distinct t xs in
    if t == x then x ∷ xs else if tag_lt t x then t ∷ x ∷ xs else x ∷ rest

unfoldable pub distinct_tags : List BlockRow → List ℕ
unfolding insert_distinct
distinct_tags [] = []
distinct_tags (b ∷ bs) = insert_distinct b.tag_id (distinct_tags bs)

unfoldable pub get_all_tags : Sqlite → Database → SyncResult × List ℕ × Database
unfolding distinct_tags
get_all_tags sql db = select sql db (distinct_tags db.blocks)

-- The conditions on end_ts_us are there only when their bound is above 0.
abbrev pub is_sealed_within : ℕ → ℕ → ℕ → ChunkRow → Bool
is_sealed_within container_id min_end_ts max_end_ts c =
    c.container_id == container_id
    && c.is_sealed
    && (if signed_lt 0 min_end_ts then not (signed_lt c.end_ts_us min_end_ts) else true)
    && (if signed_lt 0 max_end_ts then not (signed_lt max_end_ts c.end_ts_us) else true)

-- querySealedChunks: the rows for which it calls its callback, in order. Their ORDER BY makes SQLite
-- sort all rows before the first one comes out.
unfoldable pub query_sealed_chunks :
    Sqlite → Database → ℕ → ℕ → ℕ → SyncResult × List ChunkRow × Database
query_sealed_chunks sql db container_id min_end_ts max_end_ts =
    let rows =
      sql.order_chunks (λ c. c.end_ts_us)
        (where_rows (is_sealed_within container_id min_end_ts max_end_ts) db.chunks) in
    if not db.is_open then (err_db_open_failed, [], db) else select sql db rows

-- LIMIT 1 and no ORDER BY: the first row in the order of insertion.
unfoldable pub first_block :
    Sqlite → Database → (BlockRow → Bool) → SyncResult × List BlockRow × Database
first_block sql db test = select sql db (take_rows 1 (where_rows test db.blocks))

unfoldable pub found_block :
    BlockQueryResult
    → SyncResult × List BlockRow × Database
    → SyncResult × BlockQueryResult × Database
found_block result (r, b ∷ bs, db) = (success, result_of b, db)
found_block result (success, [], db) = (err_invalid_data, result, db)
found_block result (r, [], db) = (r, result, db)

unfoldable pub query_block_metadata :
    Sqlite → Database → ℕ → ℕ → ℕ → BlockQueryResult → SyncResult × BlockQueryResult × Database
unfolding first_block found_block
query_block_metadata sql db container_id chunk_id block_index result =
    found_block result (first_block sql db (is_block container_id chunk_id block_index))

-- `cutoff` is the current time less the minimal age.
abbrev pub is_archivable : ℕ → ℕ → BlockRow → Bool
is_archivable container_id cutoff b =
    b.container_id == container_id && not b.is_archived && signed_lt b.end_ts_us cutoff

unfoldable pub query_blocks_for_archive :
    Sqlite → Database → ℕ → ℕ → SyncResult × List BlockQueryResult × Database
query_blocks_for_archive sql db container_id cutoff =
    query_blocks sql db (is_archivable container_id cutoff) (λ b. b.end_ts_us)

-- is_archived, archived_to_container_id and archived_to_block_index
pub record ArchiveStatus : Type 0 where
  pub is_archived : Bool
  pub container_id : ℕ
  pub block_index : ℕ

abbrev pub not_archived : ArchiveStatus
not_archived = record { is_archived = false; container_id = 0; block_index = 0 }

unfoldable pub found_status :
    ArchiveStatus → SyncResult × List BlockRow × Database → SyncResult × ArchiveStatus × Database
found_status status (r, b ∷ bs, db) = (
  success,
  if b.is_archived
      then record {
        is_archived = true;
        container_id = b.archived_to_container_id;
        block_index = b.archived_to_block_index;
      }
      else not_archived,
  db,
)
found_status status (success, [], db) = (success, not_archived, db)
found_status status (r, [], db) = (r, status, db)

unfoldable pub query_block_archive_status :
    Sqlite → Database → ℕ → ℕ → ℕ → ArchiveStatus → SyncResult × ArchiveStatus × Database
unfolding first_block found_status
query_block_archive_status sql db container_id chunk_id block_index status =
    found_status status (first_block sql db (is_block container_id chunk_id block_index))
