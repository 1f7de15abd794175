-- ===== src/Io/Laws.antt =====
-- What a caller may rely on when AlignedIO reads or writes, whatever the system calls return.
use x_tdb.Base.{
  ℕ, ◌+◌, ◌-◌, ◌%◌, ◌≤◌, ◌<◌, ◌≡◌, ◌⊎◌, inl, inr, arith, true, some, Option-cases, copy,
  copy_outside,
}
use x_tdb.Io.{success, Os, File, Buffer, aligned_buffer, validate_alignment, write, read}

-- A read leaves the file's content alone on every branch.
pub record SameContent (f f' : File) : Type 0 where
  pub bytes : f'.bytes ≡ f.bytes
  pub size : f'.size ≡ f.size
  pub is_open : f'.is_open ≡ f.is_open

pub read-SameContent :
    (os : Os) (f : File) (b : Buffer) (n offset : ℕ) → SameContent f (read os f b n offset).2
unfolding read
read-SameContent os f b n offset = elim (Option-cases (os.pread f.calls n)) [
  | inl e ↦ ground (arith, e)
  | inr (k, e) ↦ ground (arith, e)
]

-- A successful read has filled the buffer with the bytes of the file, all of which exist.
pub record Reads (f : File) (b : Buffer) (n offset : ℕ) (b' : Buffer) : Type 0 where
  pub cells : b'.cells ≡ copy b.cells 0 f.bytes offset n
  pub address : b'.address ≡ b.address
  pub aligned : offset % 16384 ≡ 0
  pub open_file : f.is_open ≡ true
  pub available : n ≤ f.size - offset

pub read-success :
    (os : Os) (f : File) (b : Buffer) (n offset : ℕ)
    → (read os f b n offset).0 ≡ success
    → Reads f b n offset (read os f b n offset).1
unfolding read validate_alignment
read-success os f b n offset h = elim (Option-cases (os.pread f.calls n)) [
  | inl e ↦ ground (arith, e)
  | inr (k, e) ↦ ground (arith, e)
]

-- A write changes no byte outside its range, on every branch.
pub write_outside :
    (os : Os) (f : File) (b : Buffer) (n offset a : ℕ)
    → (a < offset) ⊎ (offset + n ≤ a)
    → (write os f b n offset).1.bytes a ≡ f.bytes a
unfolding write
write_outside os f b n offset a h = elim (Option-cases (os.pwrite f.calls n)) [
  | inl e ↦ ground (arith, e)
  | inr (k, e) ↦
      ground (arith, e, os.pwrite_le f.calls n k e, copy_outside f.bytes offset b.cells 0 k a)
]

pub record Writes (f : File) (b : Buffer) (n offset : ℕ) (f' : File) : Type 0 where
  pub bytes : f'.bytes ≡ copy f.bytes offset b.cells 0 n
  pub size : f.size ≤ f'.size
  pub room : 1 ≤ n → offset + n ≤ f'.size
  pub is_open : f'.is_open ≡ true

pub write-success :
    (os : Os) (f : File) (b : Buffer) (n offset : ℕ)
    → (write os f b n offset).0 ≡ success
    → Writes f b n offset (write os f b n offset).1
unfolding write
write-success os f b n offset h = elim (Option-cases (os.pwrite f.calls n)) [
  | inl e ↦ ground (arith, e)
  | inr (k, e) ↦ ground (arith, e)
]

-- Unless the system call transfers a part of the bytes, a failed write changes nothing.
pub write_failed :
    (os : Os) (f : File) (b : Buffer) (n offset : ℕ)
    → ((call k : ℕ) → os.pwrite call n ≡ some k → k ≡ n)
    → ((write os f b n offset).0 ≡ success → ⊥)
    → (write os f b n offset).1.bytes ≡ f.bytes
unfolding write
write_failed os f b n offset whole h = elim (Option-cases (os.pwrite f.calls n)) [
  | inl e ↦ ground (arith, e)
  | inr (k, e) ↦ ground (arith, e, whole f.calls k e)
]

-- System calls that do all they are asked.
pub record IsReliable (os : Os) : Type 0 where
  pub writes : (call n : ℕ) → os.pwrite call n ≡ some n
  pub reads : (call n : ℕ) → os.pread call n ≡ some n
  pub syncs : (call : ℕ) → os.fsync call ≡ true

pub write_succeeds :
    (os : Os) (f : File) (b : Buffer) (n offset : ℕ)
    → IsReliable os
    → f.is_open ≡ true
    → b.address % 16384 ≡ 0
    → n % 16384 ≡ 0
    → offset % 16384 ≡ 0
    → (write os f b n offset).0 ≡ success
unfolding write validate_alignment
write_succeeds os f b n offset r o a s t = ground (arith, r.writes f.calls n)

pub read_succeeds :
    (os : Os) (f : File) (b : Buffer) (n offset : ℕ)
    → IsReliable os
    → f.is_open ≡ true
    → b.address % 16384 ≡ 0
    → n % 16384 ≡ 0
    → offset % 16384 ≡ 0
    → offset + n ≤ f.size
    → (read os f b n offset).0 ≡ success
unfolding read validate_alignment
read_succeeds os f b n offset r o a s t u = ground (arith, r.reads f.calls n)

pub aligned_buffer-address : (os : Os) (n : ℕ) → (aligned_buffer os n).address % 16384 ≡ 0
unfolding aligned_buffer
aligned_buffer-address os n = os.memalign_aligned _
