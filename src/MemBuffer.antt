-- ===== src/MemBuffer.antt =====
-- MemBuffer of src/mem_buffer.cpp and include/xTdb/mem_buffer.h. The std::map of buffers is a list
-- of pairs in the order of the keys. int64_t values are their 64-bit patterns.
pub mod Offset
pub mod Gathered
pub mod Flushable
use x_tdb.Base.{
  ℕ, ◌+◌, ◌-◌, ◌*◌, ◌/◌, ◌%◌, ◌^◌, Bool, true, false, Option, none, some, List, [], ◌∷◌, ◌++◌,
  length, ltb, leb, ◌==◌, if◌then◌else◌,
}
use x_tdb.Layout.Units.{u64}
use x_tdb.Wal.Entry.{WalEntry}
use x_tdb.Records.{
  ValueType, value_type_of, TimeUnit, time_unit_of, MemRecord, TagBuffer, default_tag_buffer,
}

-- `a - b` and `a / k` of int64_t, the division cutting towards 0.
abbrev pub signed_sub : ℕ → ℕ → ℕ
signed_sub a b = (a + 2 ^ 64 - b) % 2 ^ 64

unfoldable pub signed_div : ℕ → ℕ → ℕ
signed_div a k = if ltb a (2 ^ 63) then a / k else (2 ^ 64 - (2 ^ 64 - a) / k) % 2 ^ 64

-- The switch over the units: the offset before it is clamped.
unfoldable pub scaled_offset : TimeUnit → ℕ → ℕ
scaled_offset TimeUnit.tu_100ms delta_us = signed_div delta_us 100_000
scaled_offset TimeUnit.tu_10ms delta_us = signed_div delta_us 10_000
scaled_offset TimeUnit.tu_ms delta_us = signed_div delta_us 1000
scaled_offset TimeUnit.tu_100us delta_us = signed_div delta_us 100
scaled_offset TimeUnit.tu_10us delta_us = signed_div delta_us 10
scaled_offset TimeUnit.tu_us delta_us = delta_us
scaled_offset TimeUnit.other delta_us = 0

-- `if (offset < 0) offset = 0; if (offset > 0xFFFFFF) offset = 0xFFFFFF;`
unfoldable pub clamp_offset : ℕ → ℕ
clamp_offset offset =
    if ltb offset (2 ^ 63) then (if ltb 0xFF_FFFF offset then 0xFF_FFFF else offset) else 0

unfoldable pub calculate_time_offset : ℕ → ℕ → TimeUnit → ℕ
calculate_time_offset timestamp_us base_ts_us time_unit =
    clamp_offset (scaled_offset time_unit (signed_sub timestamp_us base_ts_us))

-- What the assignment of one member of the union puts into a record whose value is 0.
unfoldable pub copied_value : ValueType → ℕ → ℕ
copied_value ValueType.bool value = value % 2 ^ 8
copied_value ValueType.i32 value = value % 2 ^ 32
copied_value ValueType.f32 value = value % 2 ^ 32
copied_value ValueType.f64 value = value
copied_value ValueType.other value = 0

-- The record that addEntry makes of an entry for a buffer.
unfoldable pub record_of : TagBuffer → WalEntry → MemRecord
record_of buffer entry = record {
  time_offset =
      calculate_time_offset entry.timestamp_us buffer.start_ts_us (time_unit_of buffer.time_unit);
  quality = entry.quality;
  value = copied_value (value_type_of buffer.value_type) entry.value;
}

-- A buffer for the tag of an entry that has none yet.
unfoldable pub new_buffer : WalEntry → TagBuffer
new_buffer entry = record default_tag_buffer {
  tag_id = entry.tag_id;
  value_type = entry.value_type;
  time_unit = 3;
  start_ts_us = entry.timestamp_us;
}

module _ {ℓ} {V : Type ℓ} where
  -- buffers_.find
  unfoldable pub find : ℕ → List (ℕ × V) → Option V
  find k [] = none
  find k ((j, v) ∷ m) = if k == j then some v else find k m

  -- An assignment through buffers_[k], which keeps the keys in order.
  unfoldable pub put : ℕ → V → List (ℕ × V) → List (ℕ × V)
  put k v [] = (k, v) ∷ []
  put k v ((j, w) ∷ m) =
      if k == j then (k, v) ∷ m else if ltb k j then (k, v) ∷ (j, w) ∷ m else (j, w) ∷ put k v m

pub record MemBuffer : Type 0 where
  pub buffers : List (ℕ × TagBuffer)
  pub max_records_per_tag : ℕ

-- MemBuffer(max_records_per_tag)
abbrev pub open_buffer : ℕ → MemBuffer
open_buffer max_records_per_tag = record { buffers = []; max_records_per_tag = max_records_per_tag }

-- The buffer that an entry goes to: the one in place, or a new one.
unfoldable pub buffer_for : Option TagBuffer → WalEntry → TagBuffer
buffer_for none entry = new_buffer entry
buffer_for (some buffer) entry = buffer

unfoldable pub push_record : TagBuffer → MemRecord → TagBuffer
push_record buffer r = record buffer { records = buffer.records ++ r ∷ [] }

unfoldable pub add_entry : MemBuffer → WalEntry → Bool × MemBuffer
add_entry m entry =
    let buffer = buffer_for (find entry.tag_id m.buffers) entry in
    let buffer' = push_record buffer (record_of buffer entry) in
    (
      leb m.max_records_per_tag (length buffer'.records),
      record m { buffers = put entry.tag_id buffer' m.buffers },
    )

unfoldable pub get_tag_buffer : MemBuffer → ℕ → Option TagBuffer
get_tag_buffer m tag_id = find tag_id m.buffers

unfoldable pub cleared : ℕ → Option TagBuffer → List (ℕ × TagBuffer) → List (ℕ × TagBuffer)
cleared tag_id none buffers = buffers
cleared tag_id (some buffer) buffers = put tag_id (record buffer { records = [] }) buffers

unfoldable pub clear_tag : MemBuffer → ℕ → MemBuffer
clear_tag m tag_id = record m { buffers = cleared tag_id (find tag_id m.buffers) m.buffers }

unfoldable pub clear_all : MemBuffer → MemBuffer
clear_all m = record m { buffers = [] }

-- The loop of getTotalRecords.
unfoldable pub total_from : ℕ → List (ℕ × TagBuffer) → ℕ
total_from total [] = total
total_from total ((k, b) ∷ m) = total_from (u64 (total + length b.records)) m

unfoldable pub get_total_records : MemBuffer → ℕ
unfolding total_from
get_total_records m = total_from 0 m.buffers

unfoldable pub any_full : ℕ → List (ℕ × TagBuffer) → Bool
any_full limit [] = false
any_full limit ((k, b) ∷ m) = if leb limit (length b.records) then true else any_full limit m

unfoldable pub has_flushable_tag : MemBuffer → Bool
unfolding any_full
has_flushable_tag m = any_full m.max_records_per_tag m.buffers

-- The loop of getFlushableTag, by its two variables.
unfoldable pub longest_from : ℕ → ℕ → List (ℕ × TagBuffer) → ℕ
longest_from max_tag max_size [] = max_tag
longest_from max_tag max_size ((k, b) ∷ m) =
    let longer = ltb max_size (length b.records) in
    longest_from (if longer then k else max_tag) (if longer then length b.records else max_size) m

unfoldable pub get_flushable_tag : MemBuffer → ℕ
unfolding longest_from
get_flushable_tag m = longest_from 0 0 m.buffers

-- A sequence of calls on a buffer.
pub data Call : Type 0 where
  add : WalEntry → Call
  clear : ℕ → Call
  reset : Call

unfoldable pub call : Call → MemBuffer → MemBuffer
call (add entry) m = (add_entry m entry).1
call (clear tag_id) m = clear_tag m tag_id
call reset m = clear_all m

unfoldable pub calls : List Call → MemBuffer → MemBuffer
unfolding call
calls [] m = m
calls (c ∷ cs) m = calls cs (call c m)
