-- ===== src/Blocks/Held.antt =====
-- A block that a later write to another part of the file has left alone.
use x_tdb.Base.{
  All, ℕ, ◌+◌, ◌-◌, ◌*◌, ◌^◌, ◌≤◌, ◌<◌, ◌≡◌, ◌≢◌, refl, ap, subst, ◌∙◌, arith, true, false, some,
  [], length, Bytes, copy_inside, ◌==◌,
}
use x_tdb.Io.{IoResult, Os, File, Buffer, aligned_buffer, zero_buffer, read}
use x_tdb.Io.Laws.{IsReliable, write-success, read_succeeds, read-success, aligned_buffer-address}
use x_tdb.Mutator.{io_ok}
use x_tdb.Records.{value_type_of, TagBuffer, enc_swinging_door, enc_quantized_16}
use x_tdb.Encoding.{Doubles}
use x_tdb.Blocks.Rows.{write_rows}
use x_tdb.Blocks.Raw.{value_size, raw_format, FitsRaw}
use x_tdb.Blocks.Writer.{BlockWriter, block_content, block_offset, write_block}
use x_tdb.Blocks.Reader.{ReadResult, BlockReader, parsed, read_block}
use x_tdb.Blocks.Stored.{
  IsBlock, block_offset-aligned, block_write, block_write-ok, filled, write_block-ok,
}
use x_tdb.Blocks.RoundTrip.{IsKnown, serialize_from-write_rows, parse_records-serialized}

module _ (os : Os) (f g : File) (w : BlockWriter) (chunk_offset index : ℕ) (m : Bytes)
    (r : IsReliable os) (o : f.is_open ≡ true) (v : IsBlock w.layout chunk_offset index)
    (o' : g.is_open ≡ true) where
  abbrev size : ℕ
  size = w.layout.block_size_bytes

  abbrev offset : ℕ
  offset = block_offset w.layout chunk_offset index

  abbrev written : File
  written = (block_write os f w chunk_offset index m r o v).1

  abbrev held_read : IoResult × Buffer × File
  held_read = read os g (aligned_buffer os size) size offset

  held_read-ok : written.size ≤ g.size → held_read.0 ≡ IoResult.success
  held_read-ok grown =
      let put =
        write-success os f (filled os f w chunk_offset index m r o v) size offset
          (block_write-ok os f w chunk_offset index m r o v) in
      read_succeeds os g (aligned_buffer os size) size offset r o' (aligned_buffer-address os size)
        v.block_aligned (block_offset-aligned w.layout chunk_offset index v)
        (omega (arith, grown, put.room (omega (arith, v.block_size))))

  held_read-cells :
      written.size ≤ g.size
      → ((a : ℕ) → offset ≤ a → a < offset + size → g.bytes a ≡ written.bytes a)
      → (a : ℕ) → a < size
      → held_read.1.cells a ≡ m a
  held_read-cells grown same a u =
      let put =
        write-success os f (filled os f w chunk_offset index m r o v) size offset
          (block_write-ok os f w chunk_offset index m r o v) in
      let got = read-success os g (aligned_buffer os size) size offset (held_read-ok grown) in
      ap (λ (k : Bytes). k a) got.cells
      ∙ copy_inside (aligned_buffer os size).cells 0 g.bytes offset size a (omega arith)
          (omega arith)
      ∙ same (offset + (a - 0)) (omega arith) (omega (arith, u))
      ∙ ap (λ (k : Bytes). k (offset + (a - 0))) put.bytes
      ∙ copy_inside f.bytes offset m 0 size (offset + (a - 0)) (omega arith) (omega arith)
      ∙ ap m {x = 0 + (offset + (a - 0) - offset)} {y = a} (omega arith)

-- What readBlock makes of a file that has the block as writeBlock left it.
pub read_block-held :
    (os : Os) (d : Doubles) (w : BlockWriter) (rd : BlockReader) (f g : File)
    (chunk_offset index : ℕ) (b : TagBuffer)
    → IsReliable os
    → f.is_open ≡ true
    → IsBlock w.layout chunk_offset index
    → rd.layout ≡ w.layout
    → w.layout.block_size_bytes < 2 ^ 32
    → b.encoding_type ≢ enc_swinging_door
    → b.encoding_type ≢ enc_quantized_16
    → IsKnown (value_type_of b.value_type)
    → All (FitsRaw (value_type_of b.value_type)) b.records
    → length b.records * (4 + value_size (value_type_of b.value_type)) ≤ w.layout.block_size_bytes
    → g.is_open ≡ true
    → let f' = (write_block os d w f chunk_offset index b true).3 in
      let start = block_offset w.layout chunk_offset index in
      let back =
        read_block os rd g chunk_offset index (value_type_of b.value_type) (length b.records) [] in
      f'.size ≤ g.size
      → ((a : ℕ) → start ≤ a → a < start + w.layout.block_size_bytes → g.bytes a ≡ f'.bytes a)
      → (back.0 ≡ ReadResult.success) × (back.1 ≡ b.records)
unfolding block_content read_block parsed
read_block-held os d w rd f g co i b r o v same small no_door no_quantized known fits room o' grown
      left =
    let t = value_type_of b.value_type in
    let size = w.layout.block_size_bytes in
    let start = (zero_buffer (aligned_buffer os size)).cells in
    let m = write_rows (raw_format t) start 0 b.records in
    let not_door : (b.encoding_type == enc_swinging_door) ≡ false = ground arith in
    let not_quantized : (b.encoding_type == enc_quantized_16) ≡ false = ground arith in
    let content : block_content d b start size
        ≡ some (m, 0 + length b.records * (4 + value_size t), 0 + length b.records) =
      rw (not_door, not_quantized)
        (ap (λ x. some x) (serialize_from-write_rows t size start 0 0 b.records (omega arith))) in
    let file = (write_block-ok os f w co i m r o v d b _ _ content (omega arith)).2 in
    let grown' = subst (λ (k : File). k.size ≤ g.size) file grown in
    let left' =
      subst
        (λ (k : File).
          (a : ℕ)
          → block_offset w.layout co i ≤ a
          → a < block_offset w.layout co i + size
          → g.bytes a ≡ k.bytes a)
        file left in
    let io = ap io_ok (held_read-ok os f g w co i m r o v o' grown') in
    let back =
      parse_records-serialized t start (held_read os f g w co i m r o v o').1.cells size b.records
        [] known fits small room (held_read-cells os f g w co i m r o v o' grown' left') in
    (rw (same, io, back) refl, rw (same, io, back) refl)
