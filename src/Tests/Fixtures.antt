-- ===== src/Tests/Fixtures.antt =====
-- A disk that does all it is asked, and a file on it with a new chunk at its start.
use x_tdb.Base.{
  ℕ, zero, suc, ◌+◌, ◌/◌, ◌≤◌, ◌≡◌, refl, arith, true, some, List, [], ◌∷◌, Bytes, store,
}
use x_tdb.Layout.Calc.{ChunkLayout}
use x_tdb.Io.{Os, File}
use x_tdb.Io.Laws.{IsReliable}
use x_tdb.Structs.{
  store_fields, default_chunk_header, chunk_header_at, chunk_header_bytes, chunk_header_fields,
  IsChunkHeader,
}
use x_tdb.Structs.RoundTrip.{chunk_header_at-bytes}
use x_tdb.Mutator.Effect.{IsBytes}

pub some_le : (n k : ℕ) → some n ≡ some k → k ≤ n
some_le n k h = ground arith

abbrev pub disk : Os
disk = record {
  pwrite = λ call n. some n;
  pread = λ call n. some n;
  fsync = λ call. true;
  fallocate = λ call n. true;
  memalign = λ align n. 0;
  fresh = λ a. 0;
  pwrite_le = λ call n k h. some_le n k h;
  pread_le = λ call n k h. some_le n k h;
  memalign_aligned = λ n. omega arith;
}

pub disk-IsReliable : IsReliable disk
disk-IsReliable = record { writes = λ call n. refl; reads = λ call n. refl; syncs = λ call. refl }

-- A chunk of four blocks of one extent.
abbrev pub small_layout : ChunkLayout
small_layout = record {
  chunk_size_extents = 4;
  block_size_extents = 1;
  blocks_per_chunk = 4;
  meta_blocks = 1;
  data_blocks = 3;
  chunk_size_bytes = 65536;
  block_size_bytes = 16384;
}

abbrev pub new_bytes : Bytes
new_bytes = chunk_header_bytes default_chunk_header

abbrev pub new_file : File
new_file = record {
  is_open = true;
  bytes = new_bytes;
  size = 1048576;
  calls = 0;
  bytes_written = 0;
  bytes_read = 0;
  write_operations = 0;
  read_operations = 0;
}

store-IsBytes : (k : ℕ) (m : Bytes) (p v : ℕ) → IsBytes m → IsBytes (store m p k v)
unfolding store
store-IsBytes zero m p v h a = h a
store-IsBytes (suc k) m p v h a = ground (arith, store-IsBytes k m (p + 1) (v / 256) h a)

store_fields-IsBytes :
    (fields : List (ℕ × ℕ × ℕ)) (m : Bytes) → IsBytes m → IsBytes (store_fields fields m)
unfolding store_fields
store_fields-IsBytes [] m h = h
store_fields-IsBytes ((p, k, v) ∷ fields) m h =
    store-IsBytes k (store_fields fields m) p v (store_fields-IsBytes fields m h)

pub new_file-IsBytes : IsBytes new_bytes
unfolding chunk_header_bytes
new_file-IsBytes =
    store_fields-IsBytes (chunk_header_fields default_chunk_header) (λ a. 0) (λ a. omega arith)

pub default-IsChunkHeader : IsChunkHeader default_chunk_header
default-IsChunkHeader = record {
  magic = omega arith;
  version = omega arith;
  header_size = omega arith;
  db_instance_id = omega arith;
  chunk_id = omega arith;
  flags = omega arith;
  chunk_size_extents = omega arith;
  block_size_extents = omega arith;
  meta_blocks = omega arith;
  data_blocks = omega arith;
  start_ts_us = omega arith;
  end_ts_us = omega arith;
  super_crc32 = omega arith;
  reserved0 = omega arith;
  padding = omega arith;
}

pub new_header : chunk_header_at new_bytes 0 ≡ default_chunk_header
new_header = chunk_header_at-bytes default_chunk_header default-IsChunkHeader
