-- ===== src/Engine/Overfull.antt =====
-- flush of src/storage_engine.cpp with more buffers than the active chunk has blocks left.
use x_tdb.Base.{
  ℕ, ◌+◌, ◌^◌, ◌≤◌, ◌<◌, ◌≡◌, inl, inr, refl, ap, ◌∙◌, arith, true, false, Option, none, some, List,
  [], ◌∷◌, length, Bool-cases, if_false, leb, leb→le, leb→lt, ◌==◌,
}
use x_tdb.Layout.Units.{u32}
use x_tdb.Directory.{DirectoryBuilder}
use x_tdb.Blocks.Writer.{write_block}
use x_tdb.Engine.State.{EngineResult, success, err_invalid_data, Engine, Platform, ◌>>◌}
use x_tdb.Engine.Steps.{>>-ok}
use x_tdb.Engine.Chunks.{is_chunk_full, roll_over}
use x_tdb.Engine.Single.{new_writer}
use x_tdb.Engine.Batches.{flush_batches}
use x_tdb.Engine.Flush.{
  Buffers, full_buffers, emptied, WriteResult, result_of, write_tasks, all_written, record_results,
  write_all, flush_buffers, flush,
}
use x_tdb.Engine.Lost.{AllEmpty, flush-eq, flush-AllEmpty}

all_written-none :
    (r : WriteResult) (rs : List WriteResult) → all_written rs ≡ none → all_written (r ∷ rs) ≡ none
unfolding all_written
all_written-none none rs h = refl
all_written-none (some s) rs h = rw (h, all_written) refl

all_written-first : (rs : List WriteResult) → all_written (none ∷ rs) ≡ none
unfolding all_written
all_written-first rs = refl

-- The writer refuses a block behind the last one.
write_block-outside :
    (p : Platform) (e : Engine) (t index : ℕ) (b : x_tdb.Records.TagBuffer)
    → e.config.layout.data_blocks ≤ index
    → result_of p index t b (
        write_block p.os p.doubles
          (new_writer e.config.layout)
          e.io
          e.active.chunk_offset
          index
          b
          true)
      ≡ none
unfolding result_of write_block
write_block-outside p e t index b h =
    let out : leb e.config.layout.data_blocks index ≡ true = ground arith in ground (arith, out)

write_tasks-overfull :
    (p : Platform) (m : Buffers) (e : Engine)
    → e.config.layout.data_blocks < 2 ^ 32
    → e.active.blocks_used ≤ e.config.layout.data_blocks
    → e.config.layout.data_blocks < e.active.blocks_used + length m
    → all_written (write_tasks p m e).0 ≡ none
unfolding write_tasks
write_tasks-overfull p [] e few low over = absurd (omega arith)
write_tasks-overfull p ((t, b) ∷ m) e few low over =
    let index = e.active.blocks_used in
    let written =
      write_block p.os p.doubles (new_writer e.config.layout) e.io e.active.chunk_offset index b
        true in
    let rest =
      write_tasks p m
        (record e { io = written.3; active = record e.active { blocks_used = u32 (index + 1) } }) in
    elim (Bool-cases (leb e.config.layout.data_blocks index)) [
      | inl last ↦
          ap (λ (r : WriteResult). all_written (r ∷ rest.0))
            (write_block-outside p e t index b (leb→le _ _ last))
          ∙ all_written-first rest.0
      | inr more ↦ all_written-none (result_of p index t b written) rest.0 (
          write_tasks-overfull p m _ few (omega (arith, leb→lt _ _ more))
            (omega (arith, leb→lt _ _ more)))
    ]

-- In an open engine whose log batches are flushed with success, an active chunk that has blocks
-- left, but fewer than there are buffers with records, is not rolled over: the flush fails with
-- ERR_INVALID_DATA, and all the buffers are empty after it. The chunk has the layout's data blocks,
-- below 2^32.
pub flush_overfull :
    (p : Platform) (e : Engine)
    → e.is_open ≡ true
    → (flush_batches p e).0 ≡ success
    → let c = (flush_batches p e).1 in
      c.config.layout.data_blocks < 2 ^ 32
      → c.active.blocks_total ≡ c.config.layout.data_blocks
      → c.active.blocks_used < c.active.blocks_total
      → c.active.blocks_total < c.active.blocks_used + length (full_buffers c.buffers)
      → ((flush p e).0 ≡ err_invalid_data) × AllEmpty (flush p e).1.buffers
unfolding flush_buffers roll_over write_all record_results
flush_overfull p e o ok few total left over =
    let c = (flush_batches p e).1 in
    let full = full_buffers c.buffers in
    let moved = record c { buffers = emptied c.buffers } in
    let some_full : (length full == 0) ≡ false = ground arith in
    let not_full : is_chunk_full c ≡ false = ground arith in
    let stays : roll_over p moved ≡ (success, moved) = if_false _ _ (is_chunk_full c) not_full in
    let failing : all_written (write_tasks p full moved).0 ≡ none =
      write_tasks-overfull p full moved few (omega arith) (omega arith) in
    let writes : (roll_over p >> write_all p full) moved ≡ write_all p full moved =
      >>-ok (roll_over p) (write_all p full) moved (ap (λ (r : EngineResult × Engine). r.0) stays)
      ∙ ap (λ (r : EngineResult × Engine). write_all p full r.1) stays in
    (
      ap (λ (r : EngineResult × Engine). r.0)
            (flush-eq p e o ok ∙ if_false (success, moved) _ (length full == 0) some_full ∙ writes)
          ∙ ap
              (λ (x : Option (List (ℕ × x_tdb.Directory.BlockSeal))).
                (record_results p (write_tasks p full moved).1.dir_builder x
                  (write_tasks p full moved).1).0)
              failing
          ∙ nothing_recorded (write_tasks p full moved).1.dir_builder (write_tasks p full moved).1,
      flush-AllEmpty p e o ok,
    )
  where
    nothing_recorded :
        (builder : Option DirectoryBuilder) (f : Engine)
        → (record_results p builder none f).0 ≡ err_invalid_data
    nothing_recorded builder f = refl
