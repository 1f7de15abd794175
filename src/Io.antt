-- ===== src/Io.antt =====
-- AlignedIO and AlignedBuffer of src/aligned_io.cpp, in their POSIX branches. The system calls are
-- a parameter, `Os`: what each call returns is chosen by it, within what POSIX documents. A file is
-- its bytes, its size and the count of system calls made on it so far.
pub mod Laws
use x_tdb.Base.{
  ℕ, ◌+◌, ◌-◌, ◌*◌, ◌%◌, ◌≤◌, ◌≡◌, Bool, true, false, not, Option, none, some, min, max, Bytes,
  copy, ◌==◌, if◌then◌else◌,
}
use x_tdb.Layout.Units.{u64, extent_size_bytes, is_extent_aligned, align_to_extent}

-- IOResult
pub data IoResult : Type 0 where
  success err_openfd_failed err_alignment err_io_failed err_invalid_fd err_preallocate_failed :
      IoResult

-- The system calls, by the number of the call. `none` is a return of -1; `some k` is `k` bytes
-- transferred. `memalign` gives the address of a new buffer, and `fresh` its first content.
pub record Os : Type 0 where
  pub pwrite : ℕ → ℕ → Option ℕ
  pub pread : ℕ → ℕ → Option ℕ
  pub fsync : ℕ → Bool
  pub fallocate : ℕ → ℕ → Bool
  pub memalign : ℕ → ℕ → ℕ
  pub fresh : Bytes
  pub pwrite_le : (call n k : ℕ) → pwrite call n ≡ some k → k ≤ n
  pub pread_le : (call n k : ℕ) → pread call n ≡ some k → k ≤ n
  pub memalign_aligned : (n : ℕ) → memalign 16384 n % 16384 ≡ 0

-- AlignedIO with its IOStats; `is_open` is `fd_ >= 0`.
pub record File : Type 0 where
  pub is_open : Bool
  pub bytes : Bytes
  pub size : ℕ
  pub calls : ℕ
  pub bytes_written : ℕ
  pub bytes_read : ℕ
  pub write_operations : ℕ
  pub read_operations : ℕ

pub record Buffer : Type 0 where
  pub address : ℕ
  pub length : ℕ
  pub cells : Bytes

-- AlignedBuffer(size)
unfoldable pub aligned_buffer : Os → ℕ → Buffer
aligned_buffer os n =
    let rounded = if is_extent_aligned n then n else align_to_extent n in
    record { address = os.memalign extent_size_bytes rounded; length = rounded; cells = os.fresh }

-- AlignedBuffer::zero
unfoldable pub zero_buffer : Buffer → Buffer
zero_buffer b = record b { cells = copy b.cells 0 (λ a. 0) 0 b.length }

unfoldable pub validate_alignment : ℕ → ℕ → ℕ → Bool
validate_alignment address n offset =
    if not (address % extent_size_bytes == 0)
    then false
    else if not (is_extent_aligned n)
    then false
    else if not (is_extent_aligned offset)
    then false
    else true

-- The file after `pwrite` has put `k` of `n` bytes, and what `write` makes of it.
unfoldable pub written : Option ℕ → File → Buffer → ℕ → ℕ → IoResult × File
written none f b n offset = (err_io_failed, record f { calls = f.calls + 1 })
written (some k) f b n offset =
    let f' = record f {
      bytes = copy f.bytes offset b.cells 0 k;
      size = if k == 0 then f.size else max f.size (offset + k);
      calls = f.calls + 1;
    } in
    if k == n
    then (
      success,
      record f' { bytes_written = f.bytes_written + n; write_operations = f.write_operations + 1 },
    )
    else (err_io_failed, f')

unfoldable pub write : Os → File → Buffer → ℕ → ℕ → IoResult × File
unfolding written
write os f b n offset =
    if not f.is_open
    then (err_invalid_fd, f)
    else if not (validate_alignment b.address n offset)
    then (err_alignment, f)
    else written (os.pwrite f.calls n) f b n offset

-- What `pread` puts into the buffer, at most the bytes before the end of the file.
unfoldable pub fetched : Option ℕ → File → Buffer → ℕ → ℕ → IoResult × Buffer × File
fetched none f b n offset = (err_io_failed, b, record f { calls = f.calls + 1 })
fetched (some k) f b n offset =
    let got = min k (f.size - offset) in
    let b' = record b { cells = copy b.cells 0 f.bytes offset got } in
    if got == n
    then (
      success,
      b',
      record f {
        calls = f.calls + 1;
        bytes_read = f.bytes_read + n;
        read_operations = f.read_operations + 1;
      },
    )
    else (err_io_failed, b', record f { calls = f.calls + 1 })

unfoldable pub read : Os → File → Buffer → ℕ → ℕ → IoResult × Buffer × File
unfolding fetched
read os f b n offset =
    if not f.is_open
    then (err_invalid_fd, b, f)
    else if not (validate_alignment b.address n offset)
    then (err_alignment, b, f)
    else fetched (os.pread f.calls n) f b n offset

unfoldable pub preallocate : Os → File → ℕ → IoResult × File
preallocate os f n =
    if not f.is_open
    then (err_invalid_fd, f)
    else if not (is_extent_aligned n)
    then (err_alignment, f)
    else if os.fallocate f.calls n
    then (success, record f { size = max f.size n; calls = f.calls + 1 })
    else (err_preallocate_failed, record f { calls = f.calls + 1 })

unfoldable pub sync : Os → File → IoResult × File
sync os f =
    if not f.is_open
    then (err_invalid_fd, f)
    else if os.fsync f.calls
    then (success, record f { calls = f.calls + 1 })
    else (err_io_failed, record f { calls = f.calls + 1 })
