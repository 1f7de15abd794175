-- ===== src/Structs/RoundTrip.antt =====
-- The bytes of a struct and the struct that is read from them.
use x_tdb.Base.{
  ℕ, ◌+◌, ◌^◌, ◌≤◌, ◌<◌, ◌≡◌, refl, arith, Bytes, load, List, [], ◌∷◌, Bool, true, Option, none,
  some, leb, ◌==◌, ◌&&◌, ◌||◌, if◌then◌else◌, load-store, load-store_ne,
}
use x_tdb.Structs.{
  store_fields, chunk_header_fields, entry_fields, ChunkHeader, chunk_header_at, chunk_header_bytes,
  IsChunkHeader, BlockDirEntry, entry_at, entry_bytes, IsEntry,
}

-- The value of the field at `p`, if every field listed above it lies elsewhere.
abbrev pub find_field : ℕ → ℕ → List (ℕ × ℕ × ℕ) → Option ℕ
find_field p k [] = none
find_field p k ((q, j, v) ∷ fields) =
    if p == q && k == j
    then some v
    else if leb (p + k) q || leb (q + j) p
    then find_field p k fields
    else none

pub load_field :
    (fields : List (ℕ × ℕ × ℕ)) (m : Bytes) (p k v : ℕ)
    → find_field p k fields ≡ some v
    → v < 256 ^ k
    → load (store_fields fields m) p k ≡ v
unfolding store_fields
load_field [] m p k v h l = cc
load_field ((q, j, w) ∷ fields) m p k v h l = ground (
  arith,
  load-store (store_fields fields m) q j w,
  load-store_ne (store_fields fields m) q j w p k,
  load_field fields m p k v,
)

-- No listed field touches the bytes at `p`.
abbrev pub is_apart : ℕ → ℕ → List (ℕ × ℕ × ℕ) → Bool
is_apart p k [] = true
is_apart p k ((q, j, v) ∷ fields) = (leb (p + k) q || leb (q + j) p) && is_apart p k fields

pub load_apart :
    (fields : List (ℕ × ℕ × ℕ)) (m : Bytes) (p k : ℕ)
    → is_apart p k fields ≡ true
    → load (store_fields fields m) p k ≡ load m p k
unfolding store_fields
load_apart [] m p k h = refl
load_apart ((q, j, w) ∷ fields) m p k h =
    ground (arith, load-store_ne (store_fields fields m) q j w p k, load_apart fields m p k)

-- Structs whose bytes agree are equal.
pub chunk_header_shift :
    (m n : Bytes) (p q : ℕ)
    → ((i k : ℕ) → i + k ≤ 128 → load m (p + i) k ≡ load n (q + i) k)
    → chunk_header_at m p ≡ chunk_header_at n q
unfolding chunk_header_at
chunk_header_shift m n p q h = ground (
  arith,
  h 0 8,
  h 8 2,
  h 10 2,
  h 12 16,
  h 28 4,
  h 32 4,
  h 36 4,
  h 40 4,
  h 44 4,
  h 48 4,
  h 52 8,
  h 60 8,
  h 68 4,
  h 72 4,
  h 76 52,
)

pub entry_shift :
    (m n : Bytes) (p q : ℕ)
    → ((i k : ℕ) → i + k ≤ 64 → load m (p + i) k ≡ load n (q + i) k)
    → entry_at m p ≡ entry_at n q
unfolding entry_at
entry_shift m n p q h = ground (
  arith,
  h 0 4,
  h 4 1,
  h 5 1,
  h 6 1,
  h 7 1,
  h 8 2,
  h 10 2,
  h 12 4,
  h 16 8,
  h 24 8,
  h 32 4,
  h 36 4,
  h 40 4,
  h 44 4,
  h 48 16,
)

-- A chunk header whose fields fit their widths is read back from its 128 bytes.
pub chunk_header_at-bytes :
    (h : ChunkHeader) → IsChunkHeader h → chunk_header_at (chunk_header_bytes h) 0 ≡ h
unfolding chunk_header_at chunk_header_bytes
chunk_header_at-bytes h v = λ i. record {
  magic = load_field (chunk_header_fields h) (λ a. 0) 0 8 h.magic refl v.magic i;
  version = load_field (chunk_header_fields h) (λ a. 0) 8 2 h.version refl v.version i;
  header_size = load_field (chunk_header_fields h) (λ a. 0) 10 2 h.header_size refl v.header_size i;
  db_instance_id =
      load_field (chunk_header_fields h) (λ a. 0) 12 16 h.db_instance_id refl v.db_instance_id i;
  chunk_id = load_field (chunk_header_fields h) (λ a. 0) 28 4 h.chunk_id refl v.chunk_id i;
  flags = load_field (chunk_header_fields h) (λ a. 0) 32 4 h.flags refl v.flags i;
  chunk_size_extents =
      load_field (chunk_header_fields h) (λ a. 0) 36 4 h.chunk_size_extents refl
        v.chunk_size_extents i;
  block_size_extents =
      load_field (chunk_header_fields h) (λ a. 0) 40 4 h.block_size_extents refl
        v.block_size_extents i;
  meta_blocks = load_field (chunk_header_fields h) (λ a. 0) 44 4 h.meta_blocks refl v.meta_blocks i;
  data_blocks = load_field (chunk_header_fields h) (λ a. 0) 48 4 h.data_blocks refl v.data_blocks i;
  start_ts_us = load_field (chunk_header_fields h) (λ a. 0) 52 8 h.start_ts_us refl v.start_ts_us i;
  end_ts_us = load_field (chunk_header_fields h) (λ a. 0) 60 8 h.end_ts_us refl v.end_ts_us i;
  super_crc32 = load_field (chunk_header_fields h) (λ a. 0) 68 4 h.super_crc32 refl v.super_crc32 i;
  reserved0 = load_field (chunk_header_fields h) (λ a. 0) 72 4 h.reserved0 refl v.reserved0 i;
  padding = load_field (chunk_header_fields h) (λ a. 0) 76 52 h.padding refl v.padding i;
}

-- A directory entry whose fields fit their widths is read back from its 64 bytes.
pub entry_at-bytes : (e : BlockDirEntry) → IsEntry e → entry_at (entry_bytes e) 0 ≡ e
unfolding entry_at entry_bytes
entry_at-bytes e v = λ i. record {
  tag_id = load_field (entry_fields e) (λ a. 0) 0 4 e.tag_id refl v.tag_id i;
  value_type = load_field (entry_fields e) (λ a. 0) 4 1 e.value_type refl v.value_type i;
  time_unit = load_field (entry_fields e) (λ a. 0) 5 1 e.time_unit refl v.time_unit i;
  encoding_type = load_field (entry_fields e) (λ a. 0) 6 1 e.encoding_type refl v.encoding_type i;
  reserved_u8 = load_field (entry_fields e) (λ a. 0) 7 1 e.reserved_u8 refl v.reserved_u8 i;
  record_size = load_field (entry_fields e) (λ a. 0) 8 2 e.record_size refl v.record_size i;
  reserved_u16 = load_field (entry_fields e) (λ a. 0) 10 2 e.reserved_u16 refl v.reserved_u16 i;
  flags = load_field (entry_fields e) (λ a. 0) 12 4 e.flags refl v.flags i;
  start_ts_us = load_field (entry_fields e) (λ a. 0) 16 8 e.start_ts_us refl v.start_ts_us i;
  end_ts_us = load_field (entry_fields e) (λ a. 0) 24 8 e.end_ts_us refl v.end_ts_us i;
  record_count = load_field (entry_fields e) (λ a. 0) 32 4 e.record_count refl v.record_count i;
  data_crc32 = load_field (entry_fields e) (λ a. 0) 36 4 e.data_crc32 refl v.data_crc32 i;
  encoding_param1 =
      load_field (entry_fields e) (λ a. 0) 40 4 e.encoding_param1 refl v.encoding_param1 i;
  encoding_param2 =
      load_field (entry_fields e) (λ a. 0) 44 4 e.encoding_param2 refl v.encoding_param2 i;
  reserved_u32 = load_field (entry_fields e) (λ a. 0) 48 16 e.reserved_u32 refl v.reserved_u32 i;
}
