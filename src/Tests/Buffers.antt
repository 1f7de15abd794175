-- ===== src/Tests/Buffers.antt =====
-- The memory buffer, the encodings and the data blocks: the theorems at the fixtures.
use x_tdb.Base.{
  All, ℕ, ◌+◌, ◌-◌, ◌*◌, ◌%◌, ◌^◌, ◌≤◌, ◌<◌, ◌≡◌, refl, arith, true, [], ◌∷◌, List, some, leb, not,
}
use x_tdb.Structs.{BlockDirEntry, default_entry}
use x_tdb.Rotating.Segment.{signed_lt}
use x_tdb.Wal.Entry.{WalEntry}
use x_tdb.Records.{
  ValueType, value_type_of, MemRecord, TagBuffer, default_tag_buffer, enc_swinging_door,
}
use x_tdb.MemBuffer.{open_buffer, has_flushable_tag, get_flushable_tag, Call, calls, add, clear}
use x_tdb.MemBuffer.Flushable.{size_of, flushable_after_calls}
use x_tdb.Encoding.{Doubles}
use x_tdb.Encoding.Door.{Point, point_of}
use x_tdb.Blocks.Raw.{FitsRaw, value_size}
use x_tdb.Blocks.Writer.{success, BlockWriter}
use x_tdb.Blocks.Reader.{ReadResult, BlockReader, verify_block_integrity}
use x_tdb.Blocks.Stored.{IsBlock}
use x_tdb.Blocks.RoundTrip.{IsKnown, raw_type, read_block-write_block}
use x_tdb.Blocks.RoundTrip as Raw
use x_tdb.Blocks.Compressed as Door
use x_tdb.Tests.Fixtures.{disk, disk-IsReliable, small_layout, new_file}

-- The memory buffer.
abbrev entry_at_ms : ℕ → ℕ → ℕ → WalEntry
entry_at_ms tag_id ms value = record {
  tag_id = tag_id;
  timestamp_us = ms * 1000;
  value_type = 4;
  quality = 192;
  reserved = 0;
  value = value;
}

abbrev three_entries : List WalEntry
three_entries = entry_at_ms 7 100 1 ∷ entry_at_ms 8 100 2 ∷ entry_at_ms 7 250 3 ∷ []

abbrev some_calls : List Call
some_calls =
    add (entry_at_ms 7 100 1)
    ∷ clear 7
    ∷ add (entry_at_ms 9 100 2)
    ∷ add (entry_at_ms 7 250 3)
    ∷ add (entry_at_ms 9 300 4)
    ∷ []

flushable_after_calls_example :
    (size_of (calls some_calls (open_buffer 2)) 7
      ≤ size_of
          (calls some_calls (open_buffer 2))
          (get_flushable_tag (calls some_calls (open_buffer 2))))
    × (has_flushable_tag (calls some_calls (open_buffer 2))
        ≡ leb 2 (
            size_of
              (calls some_calls (open_buffer 2))
              (get_flushable_tag (calls some_calls (open_buffer 2)))))
flushable_after_calls_example = flushable_after_calls some_calls 2 7 (omega arith)

flushable_tag : get_flushable_tag (calls some_calls (open_buffer 2)) ≡ 9
unfolding get_flushable_tag calls x_tdb.MemBuffer.add_entry x_tdb.MemBuffer.clear_tag
    x_tdb.MemBuffer.cleared x_tdb.MemBuffer.find x_tdb.MemBuffer.put x_tdb.MemBuffer.buffer_for
    x_tdb.MemBuffer.new_buffer x_tdb.MemBuffer.push_record
flushable_tag = refl

-- An arithmetic on patterns that is enough to run the encoder: numbers are above 2^62, differences
-- are exact, and a quotient is its dividend.
abbrev pub plain : Doubles
plain = record {
  add = λ a b. a + b;
  sub = λ a b. a - b;
  mul = λ a b. a;
  div = λ a b. a;
  lt = λ a b. signed_lt a b;
  le = λ a b. not (signed_lt b a);
  of_nat = λ n. 2 ^ 62 + n;
  is_finite = λ a. true;
  round_u16 = λ a. a % 65536;
  round_u16_lt = λ a. omega arith;
}

abbrev record_at : ℕ → ℕ → MemRecord
record_at time_offset value = record { time_offset = time_offset; quality = 192; value = value }

abbrev pub some_records : List MemRecord
some_records = record_at 0 50 ∷ record_at 10 51 ∷ record_at 20 90 ∷ record_at 30 91 ∷ []

abbrev some_points : List Point
some_points =
    point_of (record_at 0 50) ∷ point_of (record_at 10 51) ∷ point_of (record_at 30 91) ∷ []

-- The blocks.
abbrev writer : BlockWriter
writer = record {
  layout = small_layout;
  blocks_written = 0;
  bytes_written = 0;
  records_written = 0;
}

abbrev reader : BlockReader
reader = record { layout = small_layout; blocks_read = 0; bytes_read = 0; records_read = 0 }

some-IsBlock : IsBlock small_layout 0 1
some-IsBlock = record {
  within = omega arith;
  block_aligned = omega arith;
  block_size = omega arith;
  chunk_aligned = omega arith;
}

abbrev pub raw_buffer : TagBuffer
raw_buffer = record default_tag_buffer { tag_id = 7; records = some_records }

record_at-FitsRaw : (t v : ℕ) → t < 256 ^ 3 → v < 2 ^ 64 → FitsRaw ValueType.f64 (record_at t v)
record_at-FitsRaw t v h l = record { time_offset = h; quality = omega arith; value = l }

some_records-FitsRaw : All (FitsRaw ValueType.f64) some_records
some_records-FitsRaw = (
  record_at-FitsRaw 0 50 (omega arith) (omega arith),
  (
    record_at-FitsRaw 10 51 (omega arith) (omega arith),
    (
      record_at-FitsRaw 20 90 (omega arith) (omega arith),
      (record_at-FitsRaw 30 91 (omega arith) (omega arith), tt),
    ),
  ),
)

pub raw-IsKnown : IsKnown (value_type_of 4)
unfolding value_type_of
raw-IsKnown = tt

pub raw-FitsRaw : All (FitsRaw (value_type_of 4)) some_records
unfolding value_type_of
raw-FitsRaw = some_records-FitsRaw

pub raw_room : 4 * (4 + value_size (value_type_of 4)) ≤ 16384
unfolding value_type_of
raw_room = omega arith

read_block-write_block_example :
    ((Raw.done_write disk plain writer reader new_file 0 1 raw_buffer).0 ≡ success)
    × ((Raw.done_read disk plain writer reader new_file 0 1 raw_buffer).0 ≡ ReadResult.success)
    × ((Raw.done_read disk plain writer reader new_file 0 1 raw_buffer).1 ≡ some_records)
    × ((crc : ℕ) × ((Raw.done_write disk plain writer reader new_file 0 1 raw_buffer).1 ≡ some crc)
        × ((verify_block_integrity disk reader
              (Raw.done_write disk plain writer reader new_file 0 1 raw_buffer).3
              0
              1
              crc).0
            ≡ ReadResult.success))
read_block-write_block_example =
    read_block-write_block disk plain writer reader new_file 0 1 raw_buffer disk-IsReliable refl
      some-IsBlock refl (omega arith) (λ h. absurd (omega (arith, h)))
      (λ h. absurd (omega (arith, h))) raw-IsKnown raw-FitsRaw raw_room

abbrev door_buffer : TagBuffer
door_buffer = record default_tag_buffer {
  tag_id = 7;
  encoding_type = enc_swinging_door;
  records = some_records;
  encoding_tolerance = 1;
  encoding_compression_factor = 1;
}

abbrev door_entry : BlockDirEntry
door_entry = record default_entry { tag_id = 7; encoding_type = enc_swinging_door }
