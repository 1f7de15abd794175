-- ===== src/Tests/Archive.antt =====
-- The compact container: the theorems at the fixtures.
use x_tdb.Base.{
  All, ℕ, ◌+◌, ◌*◌, ◌%◌, ◌^◌, ◌≤◌, ◌<◌, ◌≡◌, refl, arith, true, false, Bool, [], ◌∷◌, List, none,
  some, min, leb, Bytes, ap, sym, subst, load, store, ◌∙◌, if◌then◌else◌, Option,
}
use x_tdb.Io.{File}
use x_tdb.Seal.Crc.{calculate_crc32, calculate_crc32_ext}
use x_tdb.Structs.{store_fields}
use x_tdb.Compact.Structs.{CompactHeader, default_header, header_at, header_bytes}
use x_tdb.Compact.Structs.RoundTrip.{IsCompactHeader}
use x_tdb.Compact.Files.{success, Calls, read_file, write_file}
use x_tdb.Compact.Transfer.{IsWorking}
use x_tdb.Compact.Container.{
  Compressor, CompactContainer, new_container, BlockMeta, Checksum, open_container, seal_container,
  close_container, write_block, read_block, BlockOut, Outcome,
}
use x_tdb.Compact.Kept.{IsLossless, IsChecksum, Block}
use x_tdb.Compact.Written.{IsEmpty, write_blocks, read_block-write_blocks}
use x_tdb.Compact.Ready.{IsBlockMeta, IsBlock, IsReady}
use x_tdb.Compact.Reopen.{IsNew}
use x_tdb.Compact.Reopened.{read_block-reopened}

-- System calls that transfer at most 50 bytes each.
part_le : (n k : ℕ) → some (min n 50) ≡ some k → k ≤ n
part_le n k h = ground arith

part_pos : (n k : ℕ) → some (min n 50) ≡ some k → 1 ≤ n → 1 ≤ k
part_pos n k h l = ground arith

abbrev partial : Calls
partial = record {
  lseek = λ call. true;
  read = λ call n. some (min n 50);
  write = λ call n. some (min n 50);
  fsync = λ call. true;
  read_le = λ call n k h. part_le n k h;
  read_pos = λ call n k h l. part_pos n k h l;
  write_le = λ call n k h. part_le n k h;
  write_pos = λ call n k h l. part_pos n k h l;
}

partial-IsWorking : IsWorking partial
partial-IsWorking = record {
  seeks = λ call. refl;
  reads = λ call n. (min n 50, refl);
  writes = λ call n. (min n 50, refl);
  syncs = λ call. refl;
}

-- A compressor that stores its input.
abbrev storing : Compressor
storing = record {
  compress = λ m n. some (m, n);
  decompress = λ y k limit. if leb k limit then some (y, k) else none;
}

abbrev size_in : Option (Bytes × ℕ) → ℕ
size_in none = 0
size_in (some (x, k)) = k

abbrev bytes_in : Option (Bytes × ℕ) → Bytes
bytes_in none = λ a. 0
bytes_in (some (x, k)) = x

storing_size : (m x : Bytes) (n k : ℕ) → storing.compress m n ≡ some (x, k) → n ≡ k
storing_size m x n k e = ap size_in e

storing_back :
    (m x y : Bytes) (n k limit : ℕ)
    → storing.compress m n ≡ some (x, k)
    → ((a : ℕ) → a < k → y a ≡ x a)
    → n ≤ limit
    → (out : Bytes) × (storing.decompress y k limit ≡ some (out, n))
      × ((a : ℕ) → a < n → out a ≡ m a)
storing_back m x y n k limit e same l =
    let size = storing_size m x n k e in
    (y, ground (arith, size), λ a u. same a (omega (arith, size)) ∙ sym (ap (λ o. bytes_in o a) e))

storing-IsLossless : IsLossless storing
storing-IsLossless = record {
  back = storing_back;
  some_bytes = λ m x n k e l. omega (arith, storing_size m x n k e);
  bounded = λ m x n k e l. omega (arith, storing_size m x n k e);
}

abbrev checksum : Checksum
checksum m n = calculate_crc32 m n % 2 ^ 32

checksum-IsChecksum : IsChecksum checksum
checksum-IsChecksum = record {
  ext = λ m k n same. ap (λ (c : ℕ). c % 2 ^ 32) (calculate_crc32_ext m k n same);
  bounded = λ m n. omega arith;
}

-- Two blocks, and a container that has been opened on an empty file.
abbrev some_meta : ℕ → BlockMeta
some_meta block_index = record {
  tag_id = 7;
  block_index = block_index;
  start_ts_us = 1000 * block_index;
  end_ts_us = 1000 * block_index + 999;
  record_count = 10;
  original_encoding = 0;
  value_type = 4;
  time_unit = 3;
}

abbrev first_block : Block
first_block = record { meta = some_meta 0; source = λ a. a % 256; size = 60 }

abbrev second_block : Block
second_block = record { meta = some_meta 1; source = λ a. (a * 7) % 256; size = 70 }

abbrev some_blocks : List Block
some_blocks = first_block ∷ second_block ∷ []

abbrev empty_file : File
empty_file = record {
  is_open = false;
  bytes = λ a. 0;
  size = 0;
  calls = 0;
  bytes_written = 0;
  bytes_read = 0;
  write_operations = 0;
  read_operations = 0;
}

abbrev created : CompactContainer
created =
    (open_container partial true true true (new_container (some storing) 0 false) empty_file).1

abbrev created_file : File
created_file =
    (open_container partial true true true (new_container (some storing) 0 false) empty_file).2

created-IsEmpty : IsEmpty partial checksum storing created created_file
unfolding open_container read_file write_file
created-IsEmpty = record { indices = refl; offset = refl; is_open = refl; open_file = refl }

abbrev created_header : CompactHeader
created_header = record (default_header 0) { index_offset = 128; data_offset = 800128 }

created_header_lem : created.header ≡ created_header
unfolding open_container read_file write_file header_at header_bytes store_fields load store
created_header_lem = refl

created_header-IsCompactHeader : IsCompactHeader created_header
created_header-IsCompactHeader = record {
  magic = omega arith;
  version = omega arith;
  header_size = omega arith;
  db_instance_id = omega arith;
  chunk_id = omega arith;
  flags = omega arith;
  block_count = omega arith;
  compression_type = omega arith;
  reserved_u8 = omega arith;
  index_offset = omega arith;
  data_offset = omega arith;
  total_compressed_size = omega arith;
  total_original_size = omega arith;
  start_ts_us = omega arith;
  end_ts_us = omega arith;
  super_crc32 = omega arith;
  reserved1 = omega arith;
  padding = omega arith;
}

created-IsReady : IsReady created
unfolding open_container read_file write_file
created-IsReady = record {
  writable = refl;
  unsealed = refl;
  magic = ap (λ h. h.magic) created_header_lem;
  version = ap (λ h. h.version) created_header_lem;
  header_size = ap (λ h. h.header_size) created_header_lem;
  header = subst IsCompactHeader (sym created_header_lem) created_header-IsCompactHeader;
  count = ap (λ h. h.block_count) created_header_lem;
  total = ap (λ h. h.total_compressed_size) created_header_lem;
  offset = omega arith;
  indices = tt;
}

some_meta-IsBlockMeta : (i : ℕ) → i < 2 → IsBlockMeta (some_meta i)
some_meta-IsBlockMeta i l = record {
  tag_id = omega arith;
  block_index = omega arith;
  start_ts_us = omega arith;
  end_ts_us = omega arith;
  record_count = omega arith;
  original_encoding = omega arith;
  value_type = omega arith;
  time_unit = omega arith;
}

some_blocks-IsBlock : All IsBlock some_blocks
some_blocks-IsBlock = (
  record { meta = some_meta-IsBlockMeta 0 (omega arith); size = omega arith },
  (record { meta = some_meta-IsBlockMeta 1 (omega arith); size = omega arith }, tt),
)

some_small : All (λ b. b.size < 2 ^ 31) some_blocks
some_small = (omega arith, (omega arith, tt))

new_container-IsNew : IsNew (new_container (some storing) 0 true) storing
new_container-IsNew = record { compressor = refl; is_open = refl; indices = refl }

-- Both blocks are written.
written : (write_blocks partial checksum storing created created_file some_blocks).0 ≡ true
unfolding write_blocks open_container read_file write_file write_block
written = refl

abbrev filled : Bool × CompactContainer × File
filled = write_blocks partial checksum storing created created_file some_blocks

abbrev read_back : BlockOut
read_back = read_block partial checksum storing filled.1 filled.2 1 (λ a. 0) 100

read_block-write_blocks_example :
    (read_back.0 ≡ success)
    × (read_back.2 ≡ some 70)
    × ((a : ℕ) → a < 70 → read_back.1 a ≡ second_block.source a)
read_block-write_blocks_example =
    read_block-write_blocks partial checksum storing created created_file some_blocks 1 second_block
      (λ a. 0) 100 partial-IsWorking storing-IsLossless checksum-IsChecksum created-IsEmpty
      some_small written refl (omega arith)

-- The container sealed, closed, and opened by another object.
abbrev sealed : Outcome
sealed = seal_container partial checksum filled.1 filled.2

abbrev reopened : Outcome
reopened =
    open_container partial true true false (new_container (some storing) 0 true)
      (close_container partial sealed.1 sealed.2).1

abbrev read_again : BlockOut
read_again = read_block partial checksum storing reopened.1 reopened.2 1 (λ a. 0) 100

read_block-reopened_example :
    (sealed.0 ≡ success)
    × (reopened.0 ≡ success)
    × (reopened.1.is_sealed ≡ true)
    × (read_again.0 ≡ success)
    × (read_again.2 ≡ some 70)
    × ((a : ℕ) → a < 70 → read_again.1 a ≡ second_block.source a)
read_block-reopened_example =
    read_block-reopened partial checksum storing created (new_container (some storing) 0 true)
      created_file some_blocks 1 second_block (λ a. 0) 100 true false partial-IsWorking
      storing-IsLossless checksum-IsChecksum created-IsEmpty created-IsReady new_container-IsNew
      some_blocks-IsBlock written refl (omega arith)
