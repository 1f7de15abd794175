-- ===== src/Wal/Reader.antt =====
-- WALReader of src/wal_reader.cpp, and the loop of replayWAL in src/storage_engine.cpp over one
-- segment.
use x_tdb.Base.{
  ℕ, zero, suc, ◌+◌, ◌*◌, ◌/◌, ◌%◌, ◌^◌, Bool, true, false, not, ◌&&◌, ◌||◌, List, [], ◌∷◌, ◌==◌,
  ltb, leb, if◌then◌else◌,
}
use x_tdb.Layout.Units.{u32, u64, extent_size_bytes}
use x_tdb.Io.{Os, File, Buffer, aligned_buffer, read}
use x_tdb.Mutator.{io_ok}
use x_tdb.Wal.Entry.{WalEntry, entry_size, wal_entry_at}
use x_tdb.Wal.Writer.{WalResult, success, err_io_failed, err_invalid_entry, wal_ok, sub64}

pub record WalReader : Type 0 where
  pub wal_start_offset : ℕ
  pub wal_size_bytes : ℕ
  pub current_offset : ℕ
  pub buffer_file_offset : ℕ
  pub buffer : Buffer
  pub buffer_size : ℕ
  pub buffer_position : ℕ
  pub entries_read : ℕ
  pub bytes_read : ℕ
  pub corrupted_entries : ℕ

unfoldable pub open_reader : Os → ℕ → ℕ → WalReader
open_reader os wal_offset wal_size_bytes = record {
  wal_start_offset = wal_offset;
  wal_size_bytes = wal_size_bytes;
  current_offset = wal_offset;
  buffer_file_offset = wal_offset;
  buffer = aligned_buffer os extent_size_bytes;
  buffer_size = 0;
  buffer_position = 0;
  entries_read = 0;
  bytes_read = 0;
  corrupted_entries = 0;
}

abbrev pub wal_end : WalReader → ℕ
wal_end r = u64 (r.wal_start_offset + r.wal_size_bytes)

-- Negative timestamps are the patterns from 2 ^ 63 on; -1 is 2 ^ 64 - 1.
unfoldable pub is_valid_entry : WalEntry → Bool
is_valid_entry e =
    if e.tag_id == 0 && e.timestamp_us == 0
    then false
    else if e.tag_id == 0xFFFF_FFFF && e.timestamp_us == 0xFFFF_FFFF_FFFF_FFFF
    then false
    else if leb (2 ^ 63) e.timestamp_us
    then false
    else if ltb 4 e.value_type
    then false
    else true

unfoldable pub load_buffer : Os → WalReader → File → WalResult × WalReader × File
load_buffer os r f =
    let read_offset = r.current_offset / extent_size_bytes * extent_size_bytes in
    let (s, b, f') = read os f r.buffer extent_size_bytes read_offset in
    if sub64 (wal_end r) r.current_offset == 0
    then (err_invalid_entry, r, f)
    else if not (io_ok s)
    then (err_io_failed, record r { buffer = b }, f')
    else (
      success,
      record r {
        buffer = b;
        buffer_file_offset = read_offset;
        buffer_size = extent_size_bytes;
        buffer_position = r.current_offset % extent_size_bytes;
        bytes_read = r.bytes_read + extent_size_bytes;
      },
      f',
    )

-- The end of readNext, once the buffer holds the next entry.
unfoldable pub take_entry : WalReader → File → WalResult × WalEntry × WalReader × File
take_entry r f =
    let e = wal_entry_at r.buffer.cells r.buffer_position in
    if not (is_valid_entry e)
    then (err_invalid_entry, e, record r { corrupted_entries = r.corrupted_entries + 1 }, f)
    else (
      success,
      e,
      record r {
        buffer_position = u32 (r.buffer_position + entry_size);
        current_offset = u64 (r.current_offset + entry_size);
        entries_read = r.entries_read + 1;
      },
      f,
    )

-- The entry that is passed in comes back where none is read.
unfoldable pub read_next :
    Os → WalReader → File → WalEntry → WalResult × WalEntry × WalReader × File
read_next os r f entry =
    let (s, r', f') = load_buffer os r f in
    if leb (wal_end r) r.current_offset
    then (err_invalid_entry, entry, r, f)
    else if ltb r.buffer_size (r.buffer_position + entry_size)
    then if not (wal_ok s)
      then (s, entry, r', f')
      else if ltb r'.buffer_size (r'.buffer_position + entry_size)
      then (err_invalid_entry, entry, r', f')
      else take_entry r' f'
    else take_entry r f

-- `while (reader.readNext(entry) == WALResult::SUCCESS)`: the entries read, in order.
unfoldable pub replay_entries : Os → ℕ → WalReader → File → WalEntry → List WalEntry
replay_entries os zero r f entry = []
replay_entries os (suc fuel) r f entry =
    let (s, e, r', f') = read_next os r f entry in
    let rest = replay_entries os fuel r' f' e in if wal_ok s then e ∷ rest else []

-- The entries that replay takes from the segment at `wal_offset`.
unfoldable pub replay_segment : Os → ℕ → File → ℕ → ℕ → List WalEntry
replay_segment os fuel f wal_offset wal_size_bytes =
    replay_entries os fuel (open_reader os wal_offset wal_size_bytes) f (record {
      tag_id = 0;
      timestamp_us = 0;
      value_type = 0;
      quality = 0;
      reserved = 0;
      value = 0;
    })

unfoldable pub is_eof : WalReader → Bool
is_eof r = leb (wal_end r) r.current_offset || leb r.buffer_size r.buffer_position

unfoldable pub reset : WalReader → WalReader
reset r = record r {
  current_offset = r.wal_start_offset;
  buffer_file_offset = r.wal_start_offset;
  buffer_size = 0;
  buffer_position = 0;
}
