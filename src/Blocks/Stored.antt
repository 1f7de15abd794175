-- ===== src/Blocks/Stored.antt =====
-- A block's content on the disk: what a read of the block finds after its write.
use x_tdb.Base.{
  ℕ, ◌+◌, ◌-◌, ◌%◌, ◌≤◌, ◌<◌, ◌≡◌, refl, ap, ◌∙◌, arith, true, some, Bytes, copy_inside, le→ltb,
  lt→leb, eq→==,
}
use x_tdb.Layout.Units.{u32}
use x_tdb.Layout.Calc.{ChunkLayout}
use x_tdb.Layout.Offsets.{mul-aligned}
use x_tdb.Io.{IoResult, Os, File, Buffer, aligned_buffer, zero_buffer, write, read}
use x_tdb.Io.Laws.{
  IsReliable, write_succeeds, write-success, read_succeeds, read-success, aligned_buffer-address,
}
use x_tdb.Mutator.{io_ok}
use x_tdb.Records.{TagBuffer}
use x_tdb.Encoding.{Doubles}
use x_tdb.Seal.Crc.{calculate_crc32, calculate_crc32_ext}
use x_tdb.Blocks.Writer.{
  success, BlockWriter, write_content, write_block, block_content, block_offset,
}
use x_tdb.Blocks.Reader.{ReadResult, BlockReader, verify_block_integrity}

-- A block of the layout that begins on an extent.
pub record IsBlock (l : ChunkLayout) (chunk_offset index : ℕ) : Type 0 where
  pub within : index < l.data_blocks
  pub block_aligned : l.block_size_bytes % 16384 ≡ 0
  pub block_size : 16384 ≤ l.block_size_bytes
  pub chunk_aligned : chunk_offset % 16384 ≡ 0

pub block_offset-aligned :
    (l : ChunkLayout) (chunk_offset index : ℕ)
    → IsBlock l chunk_offset index
    → block_offset l chunk_offset index % 16384 ≡ 0
unfolding block_offset
block_offset-aligned l chunk_offset index v = omega (
  arith,
  v.chunk_aligned,
  mul-aligned (u32 (l.meta_blocks + index)) l.block_size_bytes v.block_aligned,
)

module _ (os : Os) (f : File) (w : BlockWriter) (chunk_offset index : ℕ) (m : Bytes)
    (r : IsReliable os) (o : f.is_open ≡ true) (v : IsBlock w.layout chunk_offset index) where
  abbrev size : ℕ
  size = w.layout.block_size_bytes

  abbrev offset : ℕ
  offset = block_offset w.layout chunk_offset index

  -- The buffer that writeBlock allocates.
  abbrev pub fresh_block : Buffer
  fresh_block = zero_buffer (aligned_buffer os size)

  pub fresh_block-length : fresh_block.length ≡ size
  unfolding zero_buffer aligned_buffer
  fresh_block-length = ground (arith, v.block_aligned)

  -- The same with its content put in.
  abbrev pub filled : Buffer
  filled = record fresh_block { cells = m }

  abbrev pub block_write : IoResult × File
  block_write = write os f filled size offset

  abbrev pub block_read : IoResult × Buffer × File
  block_read = read os block_write.1 (aligned_buffer os size) size offset

  pub block_write-ok : block_write.0 ≡ IoResult.success
  unfolding zero_buffer
  block_write-ok =
      write_succeeds os f filled size offset r o (aligned_buffer-address os size) v.block_aligned
        (block_offset-aligned w.layout chunk_offset index v)

  pub block_read-ok : block_read.0 ≡ IoResult.success
  block_read-ok =
      let put = write-success os f filled size offset block_write-ok in
      read_succeeds os block_write.1 (aligned_buffer os size) size offset r put.is_open
        (aligned_buffer-address os size) v.block_aligned
        (block_offset-aligned w.layout chunk_offset index v)
        (put.room (omega (arith, v.block_size)))

  -- The block is read as it was written.
  pub block_read-cells : (a : ℕ) → a < size → block_read.1.cells a ≡ m a
  block_read-cells a u =
      let put = write-success os f filled size offset block_write-ok in
      let got = read-success os block_write.1 (aligned_buffer os size) size offset block_read-ok in
      ap (λ (k : Bytes). k a) got.cells
      ∙ copy_inside (aligned_buffer os size).cells 0 block_write.1.bytes offset size a (omega arith)
          (omega arith)
      ∙ ap (λ (k : Bytes). k (offset + (a - 0))) put.bytes
      ∙ copy_inside f.bytes offset m 0 size (offset + (a - 0)) (omega arith) (omega arith)
      ∙ ap m {x = 0 + (offset + (a - 0) - offset)} {y = a} (omega arith)

  -- What writeBlock returns for a content that fits.
  pub write_block-ok :
      (d : Doubles) (b : TagBuffer) (data_size records : ℕ)
      → block_content d b fresh_block.cells size ≡ some (m, data_size, records)
      → data_size ≤ size
      → let done = write_block os d w f chunk_offset index b true in
        (done.0 ≡ success) × (done.1 ≡ some (calculate_crc32 m size)) × (done.3 ≡ block_write.1)
  unfolding write_block write_content
  write_block-ok d b data_size records content h =
      rw
        (
          lt→leb w.layout.data_blocks index v.within,
          ap (block_content d b fresh_block.cells) fresh_block-length ∙ content,
          le→ltb size data_size h,
          ap io_ok block_write-ok,
        )
        (refl, refl, refl)

  -- The check of a block against the checksum of its content.
  pub verify_block-ok :
      (rd : BlockReader)
      → rd.layout ≡ w.layout
      → (verify_block_integrity os rd block_write.1 chunk_offset index (calculate_crc32 m size)).0
        ≡ ReadResult.success
  unfolding verify_block_integrity
  verify_block-ok rd e = rw (
    e,
    ap io_ok block_read-ok,
    calculate_crc32_ext block_read.1.cells m size block_read-cells,
    eq→== (calculate_crc32 m size) _ refl,
  )
