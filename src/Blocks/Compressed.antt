-- ===== src/Blocks/Compressed.antt =====
-- Points that the swinging door stores, through a block and back.
use x_tdb.Base.{ℕ, true, List, [], length, Bytes, store}
use x_tdb.Layout.Units.{u32}
use x_tdb.Io.{Os, File}
use x_tdb.Structs.{BlockDirEntry}
use x_tdb.Records.{TagBuffer}
use x_tdb.Encoding.{Doubles}
use x_tdb.Blocks.Rows.{Format, IsFormat, write_rows}
use x_tdb.Blocks.Writer.{BlockWriter, Written, write_block}
use x_tdb.Blocks.Reader.{BlockReader, BlockRead, read_entry}

-- Rows behind their count are read back from bytes that agree with what was written.
module _ {X : Type 0} (format : Format X) (Fits : X → Type 0) (laws : IsFormat format Fits)
    (start k : Bytes) (size : ℕ) (xs : List X) where
  abbrev counted : Bytes
  counted = write_rows format (store start 0 4 (u32 (length xs))) 4 xs

module _ (os : Os) (d : Doubles) (double_of : ℕ → ℕ) (w : BlockWriter) (rd : BlockReader) (f : File)
    (chunk_offset index : ℕ) (b : TagBuffer) (entry : BlockDirEntry) where
  -- What writeBlock leaves for a buffer, and what readBlock makes of it by a directory entry.
  abbrev pub done_write : Written
  done_write = write_block os d w f chunk_offset index b true

  abbrev pub done_read : BlockRead
  done_read = read_entry os d double_of rd done_write.3 chunk_offset index entry []
