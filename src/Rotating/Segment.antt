-- ===== src/Rotating/Segment.antt =====
-- The segments of the container, their configuration and the state of RotatingWAL.
use x_tdb.Base.{
  ℕ, ◌+◌, ◌-◌, ◌^◌, Bool, true, false, List, [], ◌∷◌, Option, none, ◌==◌, ltb, if◌then◌else◌,
}
use x_tdb.Layout.Units.{u64}
use x_tdb.Io.{File}
use x_tdb.Wal.Writer.{WalWriter}

-- Timestamps are int64_t, as bit patterns.
abbrev pub int64_max : ℕ
int64_max = 0x7FFF_FFFF_FFFF_FFFF

abbrev pub int64_min : ℕ
int64_min = 0x8000_0000_0000_0000

abbrev pub signed_lt : ℕ → ℕ → Bool
signed_lt a b = ltb (u64 (a + 2 ^ 63)) (u64 (b + 2 ^ 63))

-- WALSegment; `tag_ids` is a std::set, in order.
pub record WalSegment : Type 0 where
  pub segment_id : ℕ
  pub start_offset : ℕ
  pub segment_size : ℕ
  pub write_position : ℕ
  pub min_timestamp_us : ℕ
  pub max_timestamp_us : ℕ
  pub entry_count : ℕ
  pub tag_ids : List ℕ

abbrev pub default_segment : WalSegment
default_segment = record {
  segment_id = 0;
  start_offset = 0;
  segment_size = 0;
  write_position = 0;
  min_timestamp_us = int64_max;
  max_timestamp_us = int64_min;
  entry_count = 0;
  tag_ids = [];
}

-- getAvailableSpace: 0 when the position is past the size.
abbrev pub available_space : WalSegment → ℕ
available_space s = s.segment_size - s.write_position

-- WALSegment::reset
abbrev pub reset_segment : WalSegment → WalSegment
reset_segment s = record s {
  write_position = 0;
  min_timestamp_us = int64_max;
  max_timestamp_us = int64_min;
  entry_count = 0;
  tag_ids = [];
}

-- std::set::insert
unfoldable pub insert_tag : ℕ → List ℕ → List ℕ
insert_tag t [] = t ∷ []
insert_tag t (x ∷ xs) =
    let rest = insert_tag t xs in
    if t == x then x ∷ xs else if ltb t x then t ∷ x ∷ xs else x ∷ rest

pub data RotatingWalResult : Type 0 where
  success err_io_failed err_invalid_entry err_all_segments_full err_container_open_failed
        err_segment_not_cleared err_callback_failed :
      RotatingWalResult

abbrev pub rotating_ok : RotatingWalResult → Bool
rotating_ok success = true
rotating_ok _ = false

pub record RotatingWalStats : Type 0 where
  pub total_entries_written : ℕ
  pub total_bytes_written : ℕ
  pub segment_rotations : ℕ
  pub segment_flushes : ℕ
  pub sync_operations : ℕ

-- The fields of RotatingWALConfig but for the path and O_DIRECT.
pub record RotatingWalConfig : Type 0 where
  pub num_segments : ℕ
  pub segment_size_bytes : ℕ
  pub auto_grow : Bool
  pub max_segments : ℕ

pub record RotatingWal : Type 0 where
  pub config : RotatingWalConfig
  pub is_open : Bool
  pub segments : List WalSegment
  pub current_segment_id : ℕ
  pub current_writer : Option WalWriter
  pub stats : RotatingWalStats

abbrev pub new_wal : RotatingWalConfig → RotatingWal
new_wal config = record {
  config = config;
  is_open = false;
  segments = [];
  current_segment_id = 0;
  current_writer = none;
  stats = record {
    total_entries_written = 0;
    total_bytes_written = 0;
    segment_rotations = 0;
    segment_flushes = 0;
    sync_operations = 0;
  };
}

-- SegmentFlushCallback: the segment that is full and its tags. The callback may call back into the
-- log, as StorageEngine::handleSegmentFull does with clearSegment, and it changes the state `S` of
-- the object that has set it, so it takes and returns all three.
abbrev pub FlushCallback : Type 0 → Type 0
FlushCallback S = ℕ → List ℕ → RotatingWal → File → S → Bool × RotatingWal × File × S

-- What a call that may run the callback returns.
abbrev pub WithState : Type 0 → Type 0
WithState S = RotatingWalResult × RotatingWal × File × S

abbrev pub beside : {S : Type 0} → S → RotatingWalResult × RotatingWal × File → WithState S
beside s (r, w, f) = (r, w, f, s)
