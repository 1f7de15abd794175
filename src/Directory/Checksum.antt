-- ===== src/Directory/Checksum.antt =====
-- What the checksum of a sealed chunk sees of the directory that DirectoryBuilder writes.
use x_tdb.Base.{ℕ, ◌+◌, ◌^◌, ◌≤◌, ◌<◌, ◌≡◌, ◌⊎◌, inr, ap, arith, Bytes}
use x_tdb.Io.{Os, File, aligned_buffer, read}
use x_tdb.Io.Laws.{read-SameContent, write_outside}
use x_tdb.Seal.Scanner.{meta_region_size}
use x_tdb.Seal.Parts.{region_crc, region_crc_ext}
use x_tdb.Directory.{DirectoryBuilder, store_entries, write_directory}

-- Whatever it returns, writing the directory changes no byte outside the meta blocks.
pub write_directory_outside :
    (os : Os) (b : DirectoryBuilder) (f : File) (a : ℕ)
    → (a < b.chunk_offset) ⊎ (b.chunk_offset + meta_region_size b.layout ≤ a)
    → (write_directory os b f).1.bytes a ≡ f.bytes a
unfolding write_directory
write_directory_outside os b f a h =
    let size = meta_region_size b.layout in
    let (r, buffer, f₁) = read os f (aligned_buffer os size) size b.chunk_offset in
    let same = read-SameContent os f (aligned_buffer os size) size b.chunk_offset in
    ground (
      arith,
      ap (λ (m : Bytes). m a) same.bytes,
      write_outside os f₁ (record buffer { cells = store_entries b.entries buffer.cells 128 }) size
          b.chunk_offset a h,
    )

-- With meta blocks of one block in all, writing any directory leaves the checksum that sealing
-- stores and the check compares as it was: it does not cover the directory.
pub region_crc-write_directory :
    (os : Os) (b : DirectoryBuilder) (f : File)
    → b.chunk_offset + b.layout.block_size_bytes < 2 ^ 64
    → meta_region_size b.layout ≤ b.layout.block_size_bytes
    → region_crc (write_directory os b f).1.bytes b.chunk_offset b.layout
      ≡ region_crc f.bytes b.chunk_offset b.layout
region_crc-write_directory os b f wrap small =
    region_crc_ext (write_directory os b f).1.bytes f.bytes b.chunk_offset b.layout wrap
      λ a h. write_directory_outside os b f a (inr (omega arith))
