-- ===== src/Wal/Writer.antt =====
-- WALWriter of src/wal_writer.cpp. A method takes the writer and its file and returns both.
use x_tdb.Base.{ℕ, ◌+◌, ◌-◌, ◌*◌, ◌/◌, ◌^◌, Bool, true, false, not, copy, ◌==◌, ltb, if◌then◌else◌}
use x_tdb.Layout.Units.{u32, u64, extent_size_bytes}
use x_tdb.Io.{IoResult, Os, File, Buffer, aligned_buffer, write}
use x_tdb.Io
use x_tdb.Mutator.{io_ok}
use x_tdb.Wal.Entry.{WalEntry, entry_size, wal_entry_bytes}

pub data WalResult : Type 0 where
  success err_io_failed err_invalid_entry err_full : WalResult

abbrev pub wal_ok : WalResult → Bool
wal_ok success = true
wal_ok _ = false

pub record WalWriter : Type 0 where
  pub wal_start_offset : ℕ
  pub wal_size_bytes : ℕ
  pub current_offset : ℕ
  pub buffer : Buffer
  pub buffer_used : ℕ
  pub entries_written : ℕ
  pub bytes_written : ℕ
  pub sync_operations : ℕ

-- uint64_t subtraction
abbrev pub sub64 : ℕ → ℕ → ℕ
sub64 a b = u64 (a + 2 ^ 64 - b)

unfoldable pub open_writer : Os → ℕ → ℕ → WalWriter
open_writer os wal_offset wal_size_bytes = record {
  wal_start_offset = wal_offset;
  wal_size_bytes = wal_size_bytes;
  current_offset = wal_offset;
  buffer = aligned_buffer os extent_size_bytes;
  buffer_used = 0;
  entries_written = 0;
  bytes_written = 0;
  sync_operations = 0;
}

abbrev pub available_space : WalWriter → ℕ
available_space w = sub64 w.wal_size_bytes (sub64 w.current_offset w.wal_start_offset)

abbrev pub is_full : WalWriter → Bool
is_full w = ltb (available_space w) entry_size

-- `buffer_used` rounded up to a whole extent, in uint32_t
unfoldable pub padded_size : WalWriter → ℕ
padded_size w =
    u32 (u32 (w.buffer_used + extent_size_bytes - 1) / extent_size_bytes * extent_size_bytes)

-- The buffer with the bytes up to the padded size cleared.
unfoldable pub padded_buffer : WalWriter → Buffer
padded_buffer w =
    if ltb w.buffer_used (padded_size w)
    then record w.buffer {
      cells = copy w.buffer.cells w.buffer_used (λ a. 0) 0 (padded_size w - w.buffer_used);
    }
    else w.buffer

unfoldable pub flush : Os → WalWriter → File → WalResult × WalWriter × File
flush os w f =
    let padded = padded_size w in
    let b = padded_buffer w in
    let (r, f') = write os f b padded w.current_offset in
    if w.buffer_used == 0
    then (success, w, f)
    else if not (io_ok r)
    then (err_io_failed, record w { buffer = b }, f')
    else (
      success,
      record w {
        buffer = b;
        current_offset = u64 (w.current_offset + padded);
        bytes_written = w.bytes_written + padded;
        buffer_used = 0;
      },
      f',
    )

-- ~WALWriter: what the buffer still holds is flushed, and the result is not looked at.
unfoldable pub drop_writer : Os → WalWriter → File → File
unfolding flush
drop_writer os w f = (flush os w f).2

-- The copy of the entry into the buffer.
unfoldable pub put : WalWriter → WalEntry → WalWriter
put w e = record w {
  buffer = record w.buffer {
    cells = copy w.buffer.cells w.buffer_used (wal_entry_bytes e) 0 entry_size;
  };
  buffer_used = u32 (w.buffer_used + entry_size);
  entries_written = w.entries_written + 1;
}

unfoldable pub append : Os → WalWriter → File → WalEntry → WalResult × WalWriter × File
append os w f e =
    let (r, w', f') = flush os w f in
    if e.tag_id == 0
    then (err_invalid_entry, w, f)
    else if is_full w
    then (err_full, w, f)
    else if ltb w.buffer.length (w.buffer_used + entry_size)
    then if not (wal_ok r) then (r, w', f') else (success, put w' e, f')
    else (success, put w e, f)

unfoldable pub sync : Os → WalWriter → File → WalResult × WalWriter × File
sync os w f =
    let (r, w', f') = flush os w f in
    let (s, f'') = Io.sync os f' in
    if not (wal_ok r)
    then (r, w', f')
    else if not (io_ok s)
    then (err_io_failed, w', f'')
    else (success, record w' { sync_operations = w'.sync_operations + 1 }, f'')

unfoldable pub reset : Os → WalWriter → File → WalResult × WalWriter × File
reset os w f =
    let (r, w', f') = flush os w f in
    let b = aligned_buffer os extent_size_bytes in
    let (s, f'') =
      write os f' (record b { cells = copy b.cells 0 (λ a. 0) 0 extent_size_bytes })
        extent_size_bytes w'.wal_start_offset in
    if not (wal_ok r)
    then (r, w', f')
    else if not (io_ok s)
    then (err_io_failed, w', f'')
    else (success, record w' { current_offset = w'.wal_start_offset; buffer_used = 0 }, f'')
