-- ===== src/Compact/Kept.antt =====
-- What a compact container keeps of the blocks written to it.
use x_tdb.Base.{
  All, ℕ, ◌+◌, ◌-◌, ◌*◌, ◌%◌, ◌^◌, ◌≤◌, ◌<◌, ◌≡◌, inl, inr, refl, sym, ap, ◌∙◌, arith, true, some,
  List, map, length, All-get_elem?, get_elem?, get_elem?-map, Bool-cases, Option-cases, Bytes,
  copy_inside, copy_outside, leb, leb→lt, le→ltb, eq→==,
}
use x_tdb.Io.{File}
use x_tdb.Compact.Structs.{CompactIndex, compact_data_offset, max_blocks_per_chunk}
use x_tdb.Compact.Files.{success, Calls, write_file, read_file}
use x_tdb.Compact.Transfer.{IsWorking, Holds, read_file_lem}
use x_tdb.Compact.Container.{
  Compressor, CompactContainer, is_success, Checksum, BlockMeta, new_index, file_offset, Outcome,
  store_block, write_block, check_block, load_block, read_block,
}

-- What is relied on of the compressor: what it compresses it gives back from the same bytes, the
-- output has a byte at least, and for an input below 2^31 bytes its size is a uint32_t.
pub record IsLossless (z : Compressor) : Type 0 where
  pub back :
      (m x y : Bytes) (n k limit : ℕ)
      → z.compress m n ≡ some (x, k)
      → ((a : ℕ) → a < k → y a ≡ x a)
      → n ≤ limit
      → (out : Bytes) × (z.decompress y k limit ≡ some (out, n)) × ((a : ℕ) → a < n → out a ≡ m a)
  pub some_bytes : (m x : Bytes) (n k : ℕ) → z.compress m n ≡ some (x, k) → 1 ≤ n → 1 ≤ k
  pub bounded : (m x : Bytes) (n k : ℕ) → z.compress m n ≡ some (x, k) → n < 2 ^ 31 → k < 2 ^ 32

-- And of the checksum: it is a uint32_t that depends on the bytes it is given alone.
pub record IsChecksum (crc32 : Checksum) : Type 0 where
  pub ext : (m k : Bytes) (n : ℕ) → ((a : ℕ) → a < n → m a ≡ k a) → crc32 m n ≡ crc32 k n
  pub bounded : (m : Bytes) (n : ℕ) → crc32 m n < 2 ^ 32

pub record Block : Type 0 where
  pub meta : BlockMeta
  pub source : Bytes
  pub size : ℕ

-- The start of the compressed data.
abbrev pub data_start : ℕ
data_start = compact_data_offset max_blocks_per_chunk

module _ (os : Calls) (crc32 : Checksum) (z : Compressor) where
  -- The file has the compressed bytes of a block where its index says.
  pub record IsStored (f : File) (end : ℕ) (e : CompactIndex) (b : Block) : Type 0 where
    pub x : Bytes
    pub compressed : z.compress b.source b.size ≡ some (x, e.compressed_size)
    pub cells : (a : ℕ) → a < e.compressed_size → f.bytes (data_start + e.data_offset + a) ≡ x a
    pub below : e.data_offset + e.compressed_size ≤ end
    pub room : data_start + e.data_offset + e.compressed_size ≤ f.size
    pub original_size : e.original_size ≡ b.size
    pub block_crc32 : e.block_crc32 ≡ crc32 b.source b.size

  abbrev pub Stored : File → ℕ → CompactIndex × Block → Type 0
  Stored f end p = IsStored f end p.0 p.1

  abbrev pub index_of : CompactIndex × Block → CompactIndex
  index_of p = p.0

  abbrev pub block_of : CompactIndex × Block → Block
  block_of p = p.1

  pub record IsKept (c : CompactContainer) (f : File) (kept : List (CompactIndex × Block))
      : Type 0 where
    pub indices : c.block_indices ≡ map index_of kept
    pub stored : All (Stored f c.current_data_offset) kept
    pub few : length kept ≤ 10000
    pub bounded : c.current_data_offset ≤ length kept * 2 ^ 32
    pub is_open : c.is_open ≡ true
    pub open_file : f.is_open ≡ true

  -- A block that is stored is read.
  load_block_lem :
      (c : CompactContainer) (f : File) (e : CompactIndex) (b : Block) (end : ℕ) (buffer : Bytes)
      (buffer_size : ℕ)
      → IsWorking os
      → IsLossless z
      → IsChecksum crc32
      → f.is_open ≡ true
      → end ≤ 10000 * 2 ^ 32
      → IsStored f end e b
      → b.size ≤ buffer_size
      → let (r, out, actual, c', f') = load_block os crc32 z c f e buffer buffer_size in
        (r ≡ success) × (actual ≡ some b.size) × ((a : ℕ) → a < b.size → out a ≡ b.source a)
  unfolding load_block check_block
  load_block_lem c f e b end buffer buffer_size h lossless checks o small s fits =
      let at : file_offset e.data_offset ≡ data_start + e.data_offset = omega (arith, s.below) in
      let (ok, got, same) =
        read_file_lem os f (λ a. 0) e.compressed_size (file_offset e.data_offset) h o
          (omega (arith, at, s.room)) in
      let (r, y, f') = read_file os f (λ a. 0) e.compressed_size (file_offset e.data_offset) in
      let (out, back, eq) =
        lossless.back b.source s.x y b.size e.compressed_size buffer_size s.compressed
          (λ a l.
            got a
            ∙ copy_inside (λ a. 0) 0 f.bytes (file_offset e.data_offset) e.compressed_size a
                (omega arith) (omega arith)
            ∙ ap f.bytes {x = file_offset e.data_offset + (a - 0)}
                {y = data_start + e.data_offset + a} (omega (arith, at))
            ∙ s.cells a l)
          fits in
      let crc : crc32 out b.size ≡ e.block_crc32 =
        checks.ext out b.source b.size eq ∙ sym s.block_crc32 in
      rw
        (
          s.original_size,
          le→ltb buffer_size b.size fits,
          ap is_success ok,
          back,
          eq→== b.size b.size refl,
          eq→== (crc32 out b.size) e.block_crc32 crc,
        )
        (refl, refl, eq)

  -- Each block that is kept is read, whole and unchanged.
  pub read_block-IsKept :
      (c : CompactContainer) (f : File) (kept : List (CompactIndex × Block)) (i : ℕ)
      (p : CompactIndex × Block) (buffer : Bytes) (buffer_size : ℕ)
      → IsWorking os
      → IsLossless z
      → IsChecksum crc32
      → IsKept c f kept
      → get_elem? kept i ≡ some p
      → (block_of p).size ≤ buffer_size
      → let (r, out, actual, c', f') = read_block os crc32 z c f i buffer buffer_size in
        (r ≡ success)
        × (actual ≡ some (block_of p).size)
        × ((a : ℕ) → a < (block_of p).size → out a ≡ (block_of p).source a)
  unfolding read_block
  read_block-IsKept c f kept i p buffer buffer_size h lossless checks k at fits =
      let found : get_elem? c.block_indices i ≡ some p.0 =
        ap (λ es. get_elem? es i) k.indices ∙ get_elem?-map index_of kept i p at in
      let eq : read_block os crc32 z c f i buffer buffer_size
          ≡ load_block os crc32 z c f p.0 buffer buffer_size =
        ground (arith, k.is_open, found) in
      rw eq (
        load_block_lem c f p.0 p.1 c.current_data_offset buffer buffer_size h lossless checks
          k.open_file (omega (arith, k.bounded, k.few))
          (All-get_elem? (Stored f c.current_data_offset) kept i p k.stored at) fits)

  -- A stored block stays where a write that begins behind it changes the file.
  pub IsStored-kept :
      (f f' : File) (x : Bytes) (k end : ℕ) (e : CompactIndex) (b : Block)
      → Holds f x 0 k (data_start + end) f'
      → IsStored f end e b
      → IsStored f' (end + k) e b
  IsStored-kept f f' x k end e b h s = record {
    x = s.x;
    compressed = s.compressed;
    cells = λ a l.
        h.bytes (data_start + e.data_offset + a)
        ∙ copy_outside f.bytes (data_start + end + 0) x 0 (k - 0) (data_start + e.data_offset + a)
            (inl (omega (arith, s.below)))
        ∙ s.cells a l;
    below = omega (arith, s.below);
    room = omega (arith, s.room, h.grown);
    original_size = s.original_size;
    block_crc32 = s.block_crc32;
  }

  pub IsStored-new :
      (f f' : File) (x : Bytes) (k end : ℕ) (b : Block)
      → z.compress b.source b.size ≡ some (x, k)
      → k < 2 ^ 32
      → 1 ≤ k
      → Holds f x 0 k (data_start + end) f'
      → IsStored f' (end + k) (new_index crc32 b.meta b.source b.size k end) b
  unfolding new_index
  IsStored-new f f' x k end b compressed small pos h =
      let width : k % 2 ^ 32 ≡ k = omega arith in
      record {
        x = x;
        compressed = compressed ∙ ap (λ n. some (x, n)) (sym width);
        cells = λ a l.
            h.bytes (data_start + end + a)
            ∙ copy_inside f.bytes (data_start + end + 0) x 0 (k - 0) (data_start + end + a)
                (omega arith) (omega (arith, width))
            ∙ ap x {x = 0 + (data_start + end + a - (data_start + end + 0))} {y = a} (omega arith);
        below = omega arith;
        room = omega (arith, h.room pos);
        original_size = refl;
        block_crc32 = refl;
      }

  abbrev pub write : CompactContainer → File → Block → Outcome
  write c f b = write_block os crc32 z c f b.meta (some b.source) b.size

  -- What a successful writeBlock has found and done.
  pub write_block_lem :
      (c : CompactContainer) (f : File) (b : Block)
      → (write c f b).0 ≡ success
      → (x : Bytes) × (k : ℕ) × (z.compress b.source b.size ≡ some (x, k))
        × ((write_file os c.read_only f x k (file_offset c.current_data_offset)).0 ≡ success)
        × (length c.block_indices < 10000)
        × (1 ≤ b.size)
        × (write c f b ≡ store_block os crc32 c f b.meta b.source b.size (some (x, k)))
  unfolding write_block store_block
  write_block_lem c f b ok = elim (Option-cases (z.compress b.source b.size)) [
    | inl failed ↦ absurd (ground (arith, failed))
    | inr ((x, k), e) ↦ elim (Bool-cases (leb 10000 (length c.block_indices))) [
      | inl full ↦ absurd (ground (arith, full))
      | inr room ↦
          let fine : (write_file os c.read_only f x k (file_offset c.current_data_offset)).0
              ≡ success =
            ground (arith, e, room) in
          let some_byte : 1 ≤ b.size = ground arith in
          (
            x,
            k,
            e,
            fine,
            leb→lt 10000 (length c.block_indices) room,
            some_byte,
            ground (arith, e, room, fine),
          )
    ]
  ]
