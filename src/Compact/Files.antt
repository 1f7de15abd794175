-- ===== src/Compact/Files.antt =====
-- CompactContainer::readFile, writeFile and syncFile, in their POSIX branches: lseek, then read or
-- write until all bytes are transferred. The system calls are a parameter.
use x_tdb.Base.{
  ℕ, zero, suc, ◌+◌, ◌-◌, ◌≤◌, ◌≡◌, Bool, true, false, not, Option, none, some, min, max, Bytes,
  copy, leb, ◌==◌, if◌then◌else◌,
}
use x_tdb.Io.{File}

-- ContainerResult of include/xTdb/container.h
pub data ContainerResult : Type 0 where
  success err_openfd_failed err_create_failed err_read_failed err_write_failed err_sync_failed
        err_invalid_header err_invalid_offset err_invalid_size err_not_open err_already_open
        err_device_not_found err_insufficient_permissions :
      ContainerResult

-- The system calls, by the number of the call. `none` is a return of -1. POSIX lets write transfer
-- any part of the bytes; of a regular file at least one. read returns 0 at the end of the file only.
pub record Calls : Type 0 where
  pub lseek : ℕ → Bool
  pub read : ℕ → ℕ → Option ℕ
  pub write : ℕ → ℕ → Option ℕ
  pub fsync : ℕ → Bool
  pub read_le : (call n k : ℕ) → read call n ≡ some k → k ≤ n
  pub read_pos : (call n k : ℕ) → read call n ≡ some k → 1 ≤ n → 1 ≤ k
  pub write_le : (call n k : ℕ) → write call n ≡ some k → k ≤ n
  pub write_pos : (call n k : ℕ) → write call n ≡ some k → 1 ≤ n → 1 ≤ k

abbrev pub called : File → File
called f = record f { calls = f.calls + 1 }

-- `k` bytes of the source, from `total` on, put into the file.
abbrev pub put_part : File → Bytes → ℕ → ℕ → ℕ → File
put_part f source total offset k = record f {
  bytes = copy f.bytes (offset + total) source total k;
  size = max f.size (offset + total + k);
  calls = f.calls + 1;
}

-- The loop of writeFile. A call transfers a byte at least, so `size` rounds are enough.
unfoldable pub write_loop : Calls → ℕ → File → Bytes → ℕ → ℕ → ℕ → Bool × File
write_loop os zero f source total size offset = (leb size total, f)
write_loop os (suc fuel) f source total size offset = elim (leb size total) [
  | true ↦ (true, f)
  | false ↦ elim (os.write f.calls (size - total)) [
    | none ↦ (false, called f)
    | some k ↦ write_loop os fuel (put_part f source total offset k) source (total + k) size offset
  ]
]

-- The bytes that a call of read gets, of `k` that it might.
abbrev pub got_part : File → ℕ → ℕ → ℕ → ℕ
got_part f total offset k = min k (f.size - (offset + total))

-- The loop of readFile, by the bytes of the buffer.
unfoldable pub read_loop : Calls → ℕ → File → Bytes → ℕ → ℕ → ℕ → Bool × Bytes × File
read_loop os zero f m total size offset = (leb size total, m, f)
read_loop os (suc fuel) f m total size offset = elim (leb size total) [
  | true ↦ (true, m, f)
  | false ↦ elim (os.read f.calls (size - total)) [
    | none ↦ (false, m, called f)
    | some k ↦ elim (got_part f total offset k == 0) [
      | true ↦ (false, m, called f)
      | false ↦
          read_loop os fuel (called f)
            (copy m total f.bytes (offset + total) (got_part f total offset k))
            (total + got_part f total offset k) size offset
    ]
  ]
]

unfoldable pub write_file : Calls → Bool → File → Bytes → ℕ → ℕ → ContainerResult × File
unfolding write_loop
write_file os read_only f source size offset =
    let (fine, f') = write_loop os size (called f) source 0 size offset in
    if not f.is_open
    then (err_not_open, f)
    else if read_only
    then (err_write_failed, f)
    else if not (os.lseek f.calls)
    then (err_write_failed, called f)
    else if fine
    then (success, f')
    else (err_write_failed, f')

unfoldable pub read_file : Calls → File → Bytes → ℕ → ℕ → ContainerResult × Bytes × File
unfolding read_loop
read_file os f m size offset =
    let (fine, m', f') = read_loop os size (called f) m 0 size offset in
    if not f.is_open
    then (err_not_open, m, f)
    else if not (os.lseek f.calls)
    then (err_read_failed, m, called f)
    else if fine
    then (success, m', f')
    else (err_read_failed, m', f')

unfoldable pub sync_file : Calls → Bool → File → ContainerResult × File
sync_file os read_only f =
    if not f.is_open
    then (err_not_open, f)
    else if read_only
    then (success, f)
    else if os.fsync f.calls
    then (success, called f)
    else (err_sync_failed, called f)
