-- ===== src/Seal/Parts.antt =====
-- What the reads, the checksums and the header checks that ChunkSealer and RawScanner share return
-- when the system calls do their work.
use x_tdb.Base.{ℕ, ◌+◌, ◌*◌, ◌/◌, ◌%◌, ◌^◌, ◌≤◌, ◌<◌, ◌≡◌, ap, ◌∙◌, arith, true, Bytes, copy_inside}
use x_tdb.Layout.Units.{align_to_extent}
use x_tdb.Layout.Calc.{ChunkLayout}
use x_tdb.Io.{IoResult, Os, File, Buffer, aligned_buffer, read}
use x_tdb.Io.Laws.{
  IsReliable, SameContent, read_succeeds, read-success, read-SameContent, aligned_buffer-address,
}
use x_tdb.Structs.{ChunkHeader, chunk_header_at, raw_chunk_magic}
use x_tdb.Mutator.{MutateResult, io_ok, seal_fields}
use x_tdb.Mutator
use x_tdb.Mutator.Chunk.{header_before}
use x_tdb.Seal.Crc.{calculate_crc32, calculate_crc32_ext}
use x_tdb.Seal.Sealer.{SealResult, dir_size, crc_offset}
use x_tdb.Seal.Sealer
use x_tdb.Seal.Scanner.{ScanResult}
use x_tdb.Seal.Scanner

-- The checksum of the bytes that calculateSuperCRC looks at.
unfoldable pub region_crc : Bytes → ℕ → ChunkLayout → ℕ
region_crc m chunk_offset layout =
    calculate_crc32 (λ i. m (crc_offset chunk_offset layout + i)) (dir_size layout)

-- The chunk and the range that its checksum covers lie in the file.
pub record IsPlaced (f : File) (chunk_offset : ℕ) (l : ChunkLayout) : Type 0 where
  pub is_open : f.is_open ≡ true
  pub chunk_aligned : chunk_offset % 16384 ≡ 0
  pub block_aligned : l.block_size_bytes % 16384 ≡ 0
  pub block_size : 16384 ≤ l.block_size_bytes
  pub few_blocks : l.data_blocks < 2 ^ 32
  pub no_wrap : chunk_offset + l.block_size_bytes < 2 ^ 64
  pub room :
      chunk_offset + l.block_size_bytes + (64 * l.data_blocks + 16383) / 16384 * 16384 ≤ f.size
  pub header_room : chunk_offset + 16384 ≤ f.size

pub region_crc_ext :
    (m k : Bytes) (chunk_offset : ℕ) (l : ChunkLayout)
    → chunk_offset + l.block_size_bytes < 2 ^ 64
    → ((a : ℕ) → chunk_offset + l.block_size_bytes ≤ a → m a ≡ k a)
    → region_crc m chunk_offset l ≡ region_crc k chunk_offset l
unfolding region_crc
region_crc_ext m k chunk_offset l wrap h =
    calculate_crc32_ext _ _ (dir_size l) (λ a u. h _ (omega arith))

-- A read of the checksum's range, when the system calls do their work.
module _ (os : Os) (f : File) (chunk_offset : ℕ) (l : ChunkLayout) (r : IsReliable os)
    (p : IsPlaced f chunk_offset l) where
  abbrev pub crc_read : IoResult × Buffer × File
  crc_read =
      let size = align_to_extent (dir_size l) in
      read os f (aligned_buffer os size) size (crc_offset chunk_offset l)

  pub crc_read-ok : crc_read.0 ≡ IoResult.success
  crc_read-ok =
      let size = align_to_extent (dir_size l) in
      read_succeeds os f (aligned_buffer os size) size (crc_offset chunk_offset l) r p.is_open
        (aligned_buffer-address os size) (omega arith)
        (omega (arith, p.no_wrap, p.chunk_aligned, p.block_aligned))
        (omega (arith, p.no_wrap, p.room, p.few_blocks))

  pub crc_read-value :
      calculate_crc32 crc_read.1.cells (dir_size l) ≡ region_crc f.bytes chunk_offset l
  unfolding region_crc
  crc_read-value =
      let size = align_to_extent (dir_size l) in
      let got =
        (read-success os f (aligned_buffer os size) size (crc_offset chunk_offset l)
          crc_read-ok).cells in
      calculate_crc32_ext crc_read.1.cells (λ i. f.bytes (crc_offset chunk_offset l + i))
        (dir_size l)
        λ a u.
          ap (λ (m : Bytes). m a) got
          ∙ copy_inside (aligned_buffer os size).cells 0 f.bytes (crc_offset chunk_offset l) size a
              (omega arith) (omega (arith, p.few_blocks))
          ∙ ap f.bytes (omega arith)

-- The place in a file that is as long and open.
pub IsPlaced-later :
    (f f' : File) (chunk_offset : ℕ) (l : ChunkLayout)
    → IsPlaced f chunk_offset l
    → f'.is_open ≡ true
    → f.size ≤ f'.size
    → IsPlaced f' chunk_offset l
IsPlaced-later f f' chunk_offset l p o s = record {
  is_open = o;
  chunk_aligned = p.chunk_aligned;
  block_aligned = p.block_aligned;
  block_size = p.block_size;
  few_blocks = p.few_blocks;
  no_wrap = p.no_wrap;
  room = omega (arith, p.room, s);
  header_room = omega (arith, p.header_room, s);
}

-- What the parts of sealing and of the check return, when the system calls do their work.
module _ (os : Os) (f : File) (chunk_offset : ℕ) (l : ChunkLayout) (r : IsReliable os)
    (p : IsPlaced f chunk_offset l) where
  pub sealer_crc :
      (c : ℕ)
      → ((Sealer.calculate_super_crc os f chunk_offset l c).0 ≡ SealResult.success)
        × ((Sealer.calculate_super_crc os f chunk_offset l c).1 ≡ region_crc f.bytes chunk_offset l)
        × SameContent f (Sealer.calculate_super_crc os f chunk_offset l c).2
  unfolding Sealer.calculate_super_crc
  sealer_crc c =
      let e = ap io_ok (crc_read-ok os f chunk_offset l r p) in
      ground (
        arith,
        e,
        crc_read-value os f chunk_offset l r p,
        read-SameContent os f (aligned_buffer os (align_to_extent (dir_size l)))
            (align_to_extent (dir_size l)) (crc_offset chunk_offset l),
      )

  pub scanner_crc :
      (c : ℕ)
      → ((Scanner.calculate_super_crc os f chunk_offset l c).0 ≡ ScanResult.success)
        × ((Scanner.calculate_super_crc os f chunk_offset l c).1
            ≡ region_crc f.bytes chunk_offset l)
        × SameContent f (Scanner.calculate_super_crc os f chunk_offset l c).2
  unfolding Scanner.calculate_super_crc
  scanner_crc c =
      let e = ap io_ok (crc_read-ok os f chunk_offset l r p) in
      ground (
        arith,
        e,
        crc_read-value os f chunk_offset l r p,
        read-SameContent os f (aligned_buffer os (align_to_extent (dir_size l)))
            (align_to_extent (dir_size l)) (crc_offset chunk_offset l),
      )

  header_read-ok : (read os f (aligned_buffer os 16384) 16384 chunk_offset).0 ≡ IoResult.success
  header_read-ok =
      read_succeeds os f (aligned_buffer os 16384) 16384 chunk_offset r p.is_open
        (aligned_buffer-address os 16384) (omega arith) p.chunk_aligned p.header_room

  header_read-value :
      chunk_header_at (read os f (aligned_buffer os 16384) 16384 chunk_offset).1.cells 0
      ≡ chunk_header_at f.bytes chunk_offset
  unfolding aligned_buffer
  header_read-value =
      ap (λ (m : Bytes). chunk_header_at m 0)
        (read-success os f (aligned_buffer os 16384) 16384 chunk_offset header_read-ok).cells
      ∙ header_before os f chunk_offset

  pub mutator_header :
      (h : ChunkHeader)
      → ((Mutator.read_chunk_header os f chunk_offset h).0 ≡ MutateResult.success)
        × ((Mutator.read_chunk_header os f chunk_offset h).1 ≡ chunk_header_at f.bytes chunk_offset)
        × SameContent f (Mutator.read_chunk_header os f chunk_offset h).2
  unfolding Mutator.read_chunk_header
  mutator_header h =
      let e = ap io_ok header_read-ok in
      ground (
        arith,
        e,
        header_read-value,
        read-SameContent os f (aligned_buffer os 16384) 16384 chunk_offset,
      )

  pub scanner_header :
      (h : ChunkHeader)
      → (chunk_header_at f.bytes chunk_offset).magic ≡ raw_chunk_magic
      → (chunk_header_at f.bytes chunk_offset).version ≡ 0x0106
      → ((Scanner.read_chunk_header os f chunk_offset h).0 ≡ ScanResult.success)
        × ((Scanner.read_chunk_header os f chunk_offset h).1 ≡ chunk_header_at f.bytes chunk_offset)
        × SameContent f (Scanner.read_chunk_header os f chunk_offset h).2
  unfolding Scanner.read_chunk_header
  scanner_header h m v =
      let e = ap io_ok header_read-ok in
      let m' = ap ChunkHeader.magic header_read-value ∙ m in
      let v' = ap ChunkHeader.version header_read-value ∙ v in
      ground (
        arith,
        e,
        m',
        v',
        header_read-value,
        read-SameContent os f (aligned_buffer os 16384) 16384 chunk_offset,
      )
