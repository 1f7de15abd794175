-- ===== src/Engine/State.antt =====
-- The state of StorageEngine, what it is given, and how its steps follow one another.
use mathlib.Core.List.{Permᴰ}
use x_tdb.Base.{ℕ, Bool, true, false, Option, List, if◌then◌else◌}
use x_tdb.Layout.Calc.{ChunkLayout}
use x_tdb.Io.{Os, File}
use x_tdb.Wal.Entry.{WalEntry}
use x_tdb.Rotating.Segment.{RotatingWal}
use x_tdb.Directory.{DirectoryBuilder, DirBuildResult}
use x_tdb.Records.{TagBuffer}
use x_tdb.Encoding.{Doubles}
use x_tdb.Metadata.Tables.{Database, Sqlite, Ascending}

pub data EngineResult : Type 0 where
  success err_invalid_path err_container_open_failed err_container_header_invalid
        err_metadata_open_failed err_wal_open_failed err_chunk_allocation_failed
        err_state_restoration_failed err_wal_replay_failed err_engine_not_open err_invalid_data :
      EngineResult

abbrev pub engine_ok : EngineResult → Bool
engine_ok success = true
engine_ok _ = false

abbrev pub dir_ok : DirBuildResult → Bool
dir_ok DirBuildResult.success = true
dir_ok _ = false

-- ActiveChunkInfo
pub record ActiveChunk : Type 0 where
  pub chunk_id : ℕ
  pub chunk_offset : ℕ
  pub blocks_used : ℕ
  pub blocks_total : ℕ
  pub start_ts_us : ℕ
  pub end_ts_us : ℕ

-- The fields of EngineConfig that the operations read; retention_days is an int64_t.
pub record EngineConfig : Type 0 where
  pub layout : ChunkLayout
  pub retention_days : ℕ

pub record WriteStats : Type 0 where
  pub points_written : ℕ
  pub blocks_flushed : ℕ
  pub chunks_sealed : ℕ
  pub chunks_allocated : ℕ

pub record ReadStats : Type 0 where
  pub queries_executed : ℕ
  pub blocks_read : ℕ
  pub points_read_disk : ℕ
  pub points_read_memory : ℕ

pub record MaintenanceStats : Type 0 where
  pub chunks_deprecated : ℕ
  pub chunks_freed : ℕ
  pub last_retention_run_ts : ℕ

pub record QueryPoint : Type 0 where
  pub timestamp_us : ℕ
  pub value : ℕ
  pub quality : ℕ

-- `io` is the container's file with the AlignedIO on it; those of io_pool_ are on the same file, and
-- their counters are taken together with its own. `capacity_bytes` is containers_[0]'s. A map is a
-- list of pairs, in the order in which it is gone through.
pub record Engine : Type 0 where
  pub config : EngineConfig
  pub is_open : Bool
  pub io : File
  pub dir_builder : Option DirectoryBuilder
  pub wal : Option RotatingWal
  pub wal_file : File
  pub metadata : Database
  pub capacity_bytes : ℕ
  pub wal_batches : List (ℕ × List WalEntry)
  pub active : ActiveChunk
  pub buffers : List (ℕ × TagBuffer)
  pub write_stats : WriteStats
  pub read_stats : ReadStats
  pub maintenance_stats : MaintenanceStats
  pub wal_entries_since_sync : ℕ

-- What the engine calls and does not implement: the system, doubles, SQLite, the conversions between
-- double, float and int32_t on their bit patterns, and std::sort.
pub record Platform : Type 0 where
  pub os : Os
  pub doubles : Doubles
  pub sqlite : Sqlite
  pub float_of_double : ℕ → ℕ
  pub double_of_float : ℕ → ℕ
  pub double_of_i32 : ℕ → ℕ
  pub sort_points : List QueryPoint → List QueryPoint
  pub sort_entries : List WalEntry → List WalEntry

-- What std::sort promises.
pub record Sorts (p : Platform) : Type 0 where
  pub points_kept : (xs : List QueryPoint) → Permᴰ (p.sort_points xs) xs
  pub points_sorted : (xs : List QueryPoint) → Ascending QueryPoint.timestamp_us (p.sort_points xs)

-- A step of an operation: a result, and the engine also where it fails.
abbrev pub Step : Type 0
Step = Engine → EngineResult × Engine

-- The next step is taken after a success only.
infixl 5 ◌>>◌
unfoldable pub ◌>>◌ : Step → Step → Step
◌>>◌ m k e = let (r, e') = m e in if engine_ok r then k e' else (r, e')

abbrev pub done : Step
done e = (success, e)

abbrev pub guard_open : Step
guard_open e = if e.is_open then (success, e) else (err_engine_not_open, e)
