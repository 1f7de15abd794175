-- ===== src/Metadata/Tables.antt =====
-- The tables of initSchema, the connection, and how a statement runs on them. SQLite is a parameter:
-- which calls fail, where a SELECT stops, and in which order rows with equal keys come.
use mathlib.Core.List.{Permᴰ}
use x_tdb.Base.{
  ℕ, zero, suc, ◌+◌, ◌≡◌, Bool, true, false, not, Option, none, some, List, [], ◌∷◌, All,
  if◌then◌else◌,
}
use x_tdb.Rotating.Segment.{signed_lt}

pub data SyncResult : Type 0 where
  success err_db_open_failed err_db_exec_failed err_db_prepare_failed err_invalid_data : SyncResult

abbrev pub sync_ok : SyncResult → Bool
sync_ok success = true
sync_ok _ = false

-- A row of chunks. Integers are kept as the bit patterns that were bound.
pub record ChunkRow : Type 0 where
  pub chunk_id : ℕ
  pub container_id : ℕ
  pub chunk_offset : ℕ
  pub start_ts_us : ℕ
  pub end_ts_us : ℕ
  pub super_crc32 : ℕ
  pub is_sealed : Bool
  pub block_count : ℕ

-- A row of blocks but for its automatic id; a NULL is read back as 0.
pub record BlockRow : Type 0 where
  pub chunk_id : ℕ
  pub block_index : ℕ
  pub tag_id : ℕ
  pub start_ts_us : ℕ
  pub end_ts_us : ℕ
  pub time_unit : ℕ
  pub value_type : ℕ
  pub record_count : ℕ
  pub chunk_offset : ℕ
  pub container_id : ℕ
  pub is_archived : Bool
  pub archived_to_container_id : ℕ
  pub archived_to_block_index : ℕ
  pub original_chunk_id : ℕ
  pub original_block_index : ℕ
  pub encoding_type : ℕ
  pub original_size : ℕ
  pub compressed_size : ℕ

-- The connection: the calls made on it, the tables as it sees them, and those to which a ROLLBACK of
-- the open transaction would go back.
pub record Database : Type 0 where
  pub is_open : Bool
  pub calls : ℕ
  pub chunks : List ChunkRow
  pub blocks : List BlockRow
  pub before : Option (List ChunkRow × List BlockRow)

-- What SQLite decides, by the number of the call: whether an open, a prepare and a statement without
-- rows succeed, after how many rows a SELECT breaks off, and the order of rows with equal keys.
pub record Sqlite : Type 0 where
  pub opens : ℕ → Bool
  pub prepares : ℕ → Bool
  pub executes : ℕ → Bool
  pub breaks : ℕ → Option ℕ
  pub order_chunks : (ChunkRow → ℕ) → List ChunkRow → List ChunkRow
  pub order_blocks : (BlockRow → ℕ) → List BlockRow → List BlockRow

-- `key` never falls along the list, as int64_t.
abbrev pub Ascending : {A : Type 0} → (A → ℕ) → List A → Type 0
Ascending key [] = Unit {0}
Ascending key (x ∷ xs) = All (λ y. signed_lt (key y) (key x) ≡ false) xs × Ascending key xs

-- ORDER BY gives the same rows in the order of their keys.
pub record IsSqlite (sql : Sqlite) : Type 0 where
  pub chunks_kept : (key : ChunkRow → ℕ) (xs : List ChunkRow) → Permᴰ (sql.order_chunks key xs) xs
  pub blocks_kept : (key : BlockRow → ℕ) (xs : List BlockRow) → Permᴰ (sql.order_blocks key xs) xs
  pub chunks_sorted :
      (key : ChunkRow → ℕ) (xs : List ChunkRow) → Ascending key (sql.order_chunks key xs)
  pub blocks_sorted :
      (key : BlockRow → ℕ) (xs : List BlockRow) → Ascending key (sql.order_blocks key xs)

abbrev pub ticked : ℕ → Database → Database
ticked n db = record db { calls = db.calls + n }

-- executeSql. A statement that fails leaves the tables and the transaction as they are, as it does with
-- SQLITE_BUSY; the errors after which SQLite itself rolls back, such as a full disk, are left out.
unfoldable pub execute_sql : Sqlite → Database → (Database → Database) → SyncResult × Database
execute_sql sql db change =
    if sql.executes db.calls
    then (success, change (ticked 1 db))
    else (err_db_exec_failed, ticked 1 db)

-- A prepared statement without rows: prepare, bind, one step, finalize.
unfoldable pub run : Sqlite → Database → (Database → Database) → SyncResult × Database
run sql db change =
    if not (sql.prepares db.calls)
    then (err_db_prepare_failed, ticked 1 db)
    else if not (sql.executes (db.calls + 1))
    then (err_db_exec_failed, ticked 2 db)
    else (success, change (ticked 2 db))

module _ {A : Type 0} where
  -- The rows for which the test holds.
  unfoldable pub where_rows : (A → Bool) → List A → List A
  where_rows p [] = []
  where_rows p (x ∷ xs) = if p x then x ∷ where_rows p xs else where_rows p xs

  unfoldable pub take_rows : ℕ → List A → List A
  take_rows zero xs = []
  take_rows (suc n) [] = []
  take_rows (suc n) (x ∷ xs) = x ∷ take_rows n xs

  -- The loop of steps over the rows of a SELECT, and the final test for SQLITE_DONE.
  unfoldable pub fetch : Option ℕ → List A → SyncResult × List A
  fetch none rows = (success, rows)
  fetch (some n) rows = (err_db_exec_failed, take_rows n rows)

  -- A prepared SELECT: the result, the rows that came before the end or the error.
  unfoldable pub select : Sqlite → Database → List A → SyncResult × List A × Database
  unfolding fetch
  select sql db rows =
      let (r, got) = fetch (sql.breaks (db.calls + 1)) rows in
      if not (sql.prepares db.calls)
      then (err_db_prepare_failed, [], ticked 1 db)
      else (r, got, ticked 2 db)
