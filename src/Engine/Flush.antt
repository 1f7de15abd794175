-- ===== src/Engine/Flush.antt =====
-- StorageEngine::flush. The tasks of the thread pool are run in the order in which they are
-- submitted, and each ends within its 30 seconds.
use x_tdb.Base.{ℕ, ◌+◌, true, Option, none, some, List, [], ◌∷◌, length, ◌==◌, if◌then◌else◌}
use x_tdb.Layout.Units.{u32}
use x_tdb.Rotating.Segment.{signed_lt}
use x_tdb.Directory.{DirectoryBuilder, BlockSeal, seal_block, write_directory}
use x_tdb.Records.{TagBuffer, default_tag_buffer}
use x_tdb.Blocks.Writer.{Written, write_block}
use x_tdb.Engine.State.{
  success, err_invalid_data, dir_ok, ActiveChunk, Engine, Platform, Step, ◌>>◌, guard_open,
}
use x_tdb.Engine.Chunks.{roll_over}
use x_tdb.Engine.Single.{new_writer, write_ok, block_seal, crc_or_zero, count_flushed}
use x_tdb.Engine.Batches.{flush_batches}

abbrev pub Buffers : Type 0
Buffers = List (ℕ × TagBuffer)

-- buffers_to_flush
unfoldable pub full_buffers : Buffers → Buffers
full_buffers [] = []
full_buffers ((t, b) ∷ m) =
    let rest = full_buffers m in if length b.records == 0 then rest else (t, b) ∷ rest

-- A buffer that is moved from is a new one with its tag.
unfoldable pub emptied : Buffers → Buffers
emptied [] = []
emptied ((t, b) ∷ m) =
    let rest = emptied m in
    if length b.records == 0
    then (t, b) ∷ rest
    else (t, record default_tag_buffer { tag_id = t }) ∷ rest

-- A task's result: the block and its directory entry, or nothing where the write failed.
abbrev pub WriteResult : Type 0
WriteResult = Option (ℕ × BlockSeal)

unfoldable pub result_of : Platform → ℕ → ℕ → TagBuffer → Written → WriteResult
result_of p index tag_id b (r, crc, _, _) =
    if write_ok r then some (index, block_seal p tag_id b (crc_or_zero crc)) else none

-- The submission of the tasks, with what they write.
unfoldable pub write_tasks : Platform → Buffers → Engine → List WriteResult × Engine
unfolding result_of
write_tasks p [] e = ([], e)
write_tasks p ((t, b) ∷ m) e =
    let index = e.active.blocks_used in
    let written =
      write_block p.os p.doubles (new_writer e.config.layout) e.io e.active.chunk_offset index b
        true in
    let (results, e') =
      write_tasks p m
        (record e { io = written.3; active = record e.active { blocks_used = u32 (index + 1) } }) in
    (result_of p index t b written ∷ results, e')

-- The loop that looks for errors.
unfoldable pub all_written : List WriteResult → Option (List (ℕ × BlockSeal))
all_written [] = some []
all_written (none ∷ rs) = none
all_written (some s ∷ rs) = elim (all_written rs) [ none ↦ none | some ss ↦ some (s ∷ ss) ]

-- The time range of the chunk after a block.
abbrev pub widened : BlockSeal → ActiveChunk → ActiveChunk
widened s a = record a {
  start_ts_us = if a.start_ts_us == 0 then s.start_ts_us else a.start_ts_us;
  end_ts_us = if signed_lt a.end_ts_us s.end_ts_us then s.end_ts_us else a.end_ts_us;
}

-- The loop over the results: each block gets its entry in the directory builder.
unfoldable pub seal_results : DirectoryBuilder → List (ℕ × BlockSeal) → Step
seal_results builder [] e = (success, record e { dir_builder = some builder })
seal_results builder ((i, s) ∷ ss) e =
    let (d, builder') = seal_block builder i s in
    let rest =
      seal_results builder' ss (record (count_flushed e) { active = widened s e.active }) in
    if dir_ok d then rest else (err_invalid_data, record e { dir_builder = some builder' })

unfoldable pub save_entries : Platform → Option DirectoryBuilder → Step
save_entries p none e = (err_invalid_data, e)
save_entries p (some builder) e =
    let (d, f) = write_directory p.os builder e.io in
    if dir_ok d then (success, record e { io = f }) else (err_invalid_data, record e { io = f })

-- After the tasks: the error of one of them, or the entries and the directory.
unfoldable pub record_results :
    Platform → Option DirectoryBuilder → Option (List (ℕ × BlockSeal)) → Step
unfolding seal_results save_entries ◌>>◌
record_results p builder none e = (err_invalid_data, e)
record_results p none (some ss) e = (err_invalid_data, e)
record_results p (some builder) (some ss) e =
    (seal_results builder ss >> (λ e'. save_entries p e'.dir_builder e')) e

unfoldable pub write_all : Platform → Buffers → Step
unfolding write_tasks all_written record_results
write_all p full e =
    let (results, e') = write_tasks p full e in
    record_results p e'.dir_builder (all_written results) e'

-- Steps 1 to 6 of flush: all records leave their buffers first.
unfoldable pub flush_buffers : Platform → Step
unfolding ◌>>◌ full_buffers emptied write_all
flush_buffers p e =
    let full = full_buffers e.buffers in
    let moved = record e { buffers = emptied e.buffers } in
    if length full == 0 then (success, moved) else (roll_over p >> write_all p full) moved

unfoldable pub flush : Platform → Step
unfolding ◌>>◌ flush_batches flush_buffers
flush p = guard_open >> flush_batches p >> flush_buffers p
