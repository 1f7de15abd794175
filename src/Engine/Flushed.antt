-- ===== src/Engine/Flushed.antt =====
-- flushSingleTag of src/storage_engine.cpp and the block that it writes.
use x_tdb.Base.{
  All, ℕ, ◌+◌, ◌*◌, ◌^◌, ◌≤◌, ◌<◌, ◌≡◌, ◌≢◌, inl, inr, sym, ap, subst, ◌∙◌, arith, true, false, not,
  Option, some, [], length, Bool-cases, if_false, ◌==◌,
}
use x_tdb.Layout.Calc.{ChunkLayout}
use x_tdb.Io.{Os, File, aligned_buffer, read, write}
use x_tdb.Io.Laws.{IsReliable, read-SameContent, write-success}
use x_tdb.Mutator.{io_ok}
use x_tdb.Mutator.Effect.{io_ok→success}
use x_tdb.Directory.{DirectoryBuilder, BlockSeal, seal_block, store_entries, write_directory}
use x_tdb.Directory.Checksum.{write_directory_outside}
use x_tdb.Seal.Scanner.{meta_region_size}
use x_tdb.Records.{TagBuffer, value_type_of, enc_swinging_door, enc_quantized_16}
use x_tdb.Blocks.Raw.{value_size, FitsRaw}
use x_tdb.Blocks.Writer.{block_offset, write_block}
use x_tdb.Blocks.Reader.{ReadResult, BlockReader, read_block}
use x_tdb.Blocks.Stored.{IsBlock}
use x_tdb.Blocks.RoundTrip.{IsKnown, read_block-write_block}
use x_tdb.Blocks.Held.{read_block-held}
use x_tdb.Engine.State.{EngineResult, success, dir_ok, Engine, Platform}
use x_tdb.Engine.Steps.{>>-ok}
use x_tdb.Engine.Chunks.{is_chunk_full, roll_over_single}
use x_tdb.Engine.Single.{
  new_writer, write_ok, block_seal, crc_or_zero, count_flushed, seal_single, write_single,
  flush_single_tag,
}

-- A step that changes only the meta region of the chunk.
record Apart (layout : ChunkLayout) (chunk_offset : ℕ) (f f' : File) : Type 0 where
  pub is_open : f'.is_open ≡ true
  pub size : f.size ≤ f'.size
  pub same : (a : ℕ) → chunk_offset + meta_region_size layout ≤ a → f'.bytes a ≡ f.bytes a

write_directory-Apart :
    (os : Os) (b : DirectoryBuilder) (f : File)
    → dir_ok (write_directory os b f).0 ≡ true
    → Apart b.layout b.chunk_offset f (write_directory os b f).1
unfolding write_directory
write_directory-Apart os b f h =
    let size = meta_region_size b.layout in
    let fetched = read os f (aligned_buffer os size) size b.chunk_offset in
    let new = record fetched.1 { cells = store_entries b.entries fetched.1.cells 128 } in
    let kept = read-SameContent os f (aligned_buffer os size) size b.chunk_offset in
    let put = write os fetched.2 new size b.chunk_offset in
    elim (Bool-cases (io_ok fetched.0)) [
      | inr bad ↦ absurd (ground (arith, bad, h))
      | inl r ↦ elim (Bool-cases (io_ok put.0)) [
        | inr bad ↦ absurd (ground (arith, r, bad, h))
        | inl w ↦
            let wrote = write-success os fetched.2 new size b.chunk_offset (io_ok→success _ w) in
            record {
              is_open = ground (arith, r, w, wrote.is_open);
              size = ground (arith, r, w, wrote.size, kept.size);
              same = λ a k. write_directory_outside os b f a (inr k);
            }
      ]
    ]

-- Where the blocks of the directory's chunk begin.
abbrev data_start : DirectoryBuilder → ℕ
data_start b = b.chunk_offset + meta_region_size b.layout

seal_block-data_start :
    (b : DirectoryBuilder) (i : ℕ) (s : BlockSeal) → data_start (seal_block b i s).1 ≡ data_start b
unfolding seal_block
seal_block-data_start b i s = ground arith

module _ (p : Platform) (tag_id : ℕ) (b : TagBuffer) where
  seal_single-Apart :
      (crc : ℕ) (builder : DirectoryBuilder) (x : Engine)
      → (seal_single p tag_id b crc (some builder) x).0 ≡ success
      → Apart builder.layout builder.chunk_offset x.io
          (seal_single p tag_id b crc (some builder) x).1.io
  unfolding seal_single
  seal_single-Apart crc builder x h =
      let sealed = seal_block builder x.active.blocks_used (block_seal p tag_id b crc) in
      let start = seal_block-data_start builder x.active.blocks_used (block_seal p tag_id b crc) in
      elim (Bool-cases (dir_ok sealed.0)) [
        | inr bad ↦ absurd (ground (arith, bad, h))
        | inl s ↦ elim (Bool-cases (dir_ok (write_directory p.os sealed.1 x.io).0)) [
          | inr bad ↦ absurd (ground (arith, s, bad, h))
          | inl d ↦
              let after = write_directory-Apart p.os sealed.1 x.io d in
              rw (s, d)
                (record {
                  is_open = after.is_open;
                  size = after.size;
                  same = λ a k. after.same a (subst (λ (q : ℕ). q ≤ a) (sym start) k);
                })
        ]
      ]

  -- A chunk with a block left is not rolled over.
  flush_single_tag-eq :
      (e : Engine)
      → 0 < length b.records
      → e.active.blocks_used < e.active.blocks_total
      → flush_single_tag p tag_id b e ≡ write_single p tag_id b e
  unfolding flush_single_tag roll_over_single
  flush_single_tag-eq e some_left left =
      let full : (length b.records == 0) ≡ false = ground arith in
      let not_full : is_chunk_full e ≡ false = ground arith in
      let stays : roll_over_single p e ≡ (success, e) = if_false _ _ (is_chunk_full e) not_full in
      if_false (success, e) _ (length b.records == 0) full
      ∙ >>-ok (roll_over_single p) (write_single p tag_id b) e
          (ap (λ (r : EngineResult × Engine). r.0) stays)
      ∙ ap (λ (r : EngineResult × Engine). write_single p tag_id b r.1) stays

  -- A block that is written goes on to its directory entry.
  write_single-eq :
      (e : Engine) (builder : DirectoryBuilder)
      → let done =
          write_block p.os p.doubles
            (new_writer e.config.layout)
            e.io
            e.active.chunk_offset
            e.active.blocks_used
            b
            true in
        write_ok done.0 ≡ true
        → e.dir_builder ≡ some builder
        → write_single p tag_id b e
          ≡ seal_single p tag_id b
              (crc_or_zero done.1)
              (some builder)
              (count_flushed (record e { io = done.3 }))
  unfolding write_single
  write_single-eq e builder ok has =
      let done =
        write_block p.os p.doubles (new_writer e.config.layout) e.io e.active.chunk_offset
          e.active.blocks_used b true in
      if_false _ _ (not (write_ok done.0)) (ap not ok)
      ∙ ap
          (λ (builder' : Option DirectoryBuilder).
            seal_single p tag_id b (crc_or_zero done.1) builder'
              (count_flushed (record e { io = done.3 })))
          has

  -- What is read back of a buffer after flushSingleTag has succeeded on it in a chunk that has a
  -- block left: all of its records. The buffer has records of a known type and no compression, which
  -- fit their fields and the block together; the directory builder is that of the active chunk, whose
  -- meta region ends in front of the block; system calls do what they are asked.
  pub read_block-flush_single_tag :
      (e : Engine) (builder : DirectoryBuilder) (rd : BlockReader)
      → let layout = e.config.layout in
        let start = e.active.chunk_offset in
        let index = e.active.blocks_used in
        let t = value_type_of b.value_type in
        let (r, e') = flush_single_tag p tag_id b e in
        let back = read_block p.os rd e'.io start index t (length b.records) [] in
        IsReliable p.os
        → e.io.is_open ≡ true
        → e.dir_builder ≡ some builder
        → builder.layout ≡ layout
        → builder.chunk_offset ≡ start
        → index < e.active.blocks_total
        → 0 < length b.records
        → IsBlock layout start index
        → start + meta_region_size layout ≤ block_offset layout start index
        → rd.layout ≡ layout
        → layout.block_size_bytes < 2 ^ 32
        → b.encoding_type ≢ enc_swinging_door
        → b.encoding_type ≢ enc_quantized_16
        → IsKnown t
        → All (FitsRaw t) b.records
        → length b.records * (4 + value_size t) ≤ layout.block_size_bytes
        → r ≡ success
        → (back.0 ≡ ReadResult.success) × (back.1 ≡ b.records)
  read_block-flush_single_tag e builder rd r o has same_layout same_start left some_left v before
        same small no_door no_quantized known fits room ok =
      let done =
        write_block p.os p.doubles (new_writer e.config.layout) e.io e.active.chunk_offset
          e.active.blocks_used b true in
      let crc = crc_or_zero done.1 in
      let wrote =
        read_block-write_block p.os p.doubles (new_writer e.config.layout) rd e.io
          e.active.chunk_offset e.active.blocks_used b r o v same small no_door no_quantized known
          fits room in
      let x = count_flushed (record e { io = done.3 }) in
      let single : flush_single_tag p tag_id b e ≡ seal_single p tag_id b crc (some builder) x =
        flush_single_tag-eq e some_left left
        ∙ write_single-eq e builder (ap write_ok wrote.0) has in
      let after =
        seal_single-Apart crc builder x
          (ap (λ (y : EngineResult × Engine). y.0) (sym single) ∙ ok) in
      subst
        (λ (y : EngineResult × Engine).
          let back =
            read_block p.os rd y.1.io e.active.chunk_offset e.active.blocks_used
              (value_type_of b.value_type) (length b.records) [] in
          (back.0 ≡ ReadResult.success) × (back.1 ≡ b.records))
        (sym single)
        (read_block-held p.os p.doubles (new_writer e.config.layout) rd e.io _ e.active.chunk_offset
          e.active.blocks_used b r o v same small no_door no_quantized known fits room after.is_open
          after.size
          (λ a lo hi. after.same a (
            omega (
              arith,
              lo,
              before,
              same_start,
              ap (λ (l : ChunkLayout). meta_region_size l) same_layout,
            ))))
