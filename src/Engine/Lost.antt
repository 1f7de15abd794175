-- ===== src/Engine/Lost.antt =====
-- flush of src/storage_engine.cpp and the buffers of the engine.
use x_tdb.Base.{
  ℕ, ◌≡◌, inl, inr, refl, sym, ap, subst, ◌∙◌, arith, Bool, true, false, Option, none, some, List,
  [], ◌∷◌, length, All, Bool-cases, ==→eq, ◌==◌,
}
use x_tdb.Directory.{DirectoryBuilder, BlockSeal, seal_block}
use x_tdb.Engine.State.{EngineResult, success, Engine, Platform, ◌>>◌, guard_open}
use x_tdb.Engine.Steps.{>>-ok, open_then, Keeps, >>-Keeps}
use x_tdb.Engine.Chunks.{
  allocate_new_chunk, save_directory, seal_active, sync_active, next_chunk, count_allocated,
  advanced, roll_over,
}
use x_tdb.Engine.Single.{count_flushed}
use x_tdb.Engine.Batches.{flush_batches}
use x_tdb.Engine.Flush.{
  Buffers, full_buffers, emptied, write_tasks, all_written, seal_results, widened, save_entries,
  record_results, write_all, flush_buffers, flush,
}

abbrev buffers_of : Engine → Buffers
buffers_of e = e.buffers

allocate_new_chunk-Keeps :
    (p : Platform) (chunk_offset : ℕ) → Keeps buffers_of (allocate_new_chunk p chunk_offset)
unfolding allocate_new_chunk
allocate_new_chunk-Keeps p chunk_offset e = ground arith

save_directory-Keeps :
    (p : Platform) (builder : Option DirectoryBuilder) → Keeps buffers_of (save_directory p builder)
unfolding save_directory
save_directory-Keeps p none e = refl
save_directory-Keeps p (some builder) e = ground arith

seal_active-Keeps : (p : Platform) → Keeps buffers_of (seal_active p)
unfolding seal_active
seal_active-Keeps p e = ground arith

sync_active-Keeps : (p : Platform) (strict : Bool) → Keeps buffers_of (sync_active p strict)
unfolding sync_active
sync_active-Keeps p strict e = ground arith

next_chunk-Keeps : (p : Platform) → Keeps buffers_of (next_chunk p)
unfolding next_chunk
next_chunk-Keeps p e =
    >>-Keeps buffers_of (allocate_new_chunk p (advanced e).active.chunk_offset) count_allocated
      (allocate_new_chunk-Keeps p _) (λ c. refl) (advanced e)

roll_over-Keeps : (p : Platform) → Keeps buffers_of (roll_over p)
unfolding roll_over
roll_over-Keeps p e =
    let rolled =
      >>-Keeps buffers_of (save_directory p e.dir_builder >> seal_active p >> sync_active p false)
        (next_chunk p)
        (>>-Keeps buffers_of (save_directory p e.dir_builder >> seal_active p) (sync_active p false)
          (>>-Keeps buffers_of (save_directory p e.dir_builder) (seal_active p)
            (save_directory-Keeps p e.dir_builder) (seal_active-Keeps p))
          (sync_active-Keeps p false))
        (next_chunk-Keeps p) e in
    ground (arith, rolled)

write_tasks-keeps :
    (p : Platform) (m : Buffers) (e : Engine) → (write_tasks p m e).1.buffers ≡ e.buffers
unfolding write_tasks
write_tasks-keeps p [] e = refl
write_tasks-keeps p ((t, b) ∷ m) e = write_tasks-keeps p m _

seal_results-Keeps :
    (builder : DirectoryBuilder) (ss : List (ℕ × BlockSeal))
    → Keeps buffers_of (seal_results builder ss)
unfolding seal_results
seal_results-Keeps builder [] e = refl
seal_results-Keeps builder ((i, s) ∷ ss) e =
    let (d, builder') = seal_block builder i s in
    ground (
      arith,
      seal_results-Keeps builder' ss (record (count_flushed e) { active = widened s e.active }),
    )

save_entries-Keeps :
    (p : Platform) (builder : Option DirectoryBuilder) → Keeps buffers_of (save_entries p builder)
unfolding save_entries
save_entries-Keeps p none e = refl
save_entries-Keeps p (some builder) e = ground arith

record_results-Keeps :
    (p : Platform) (builder : Option DirectoryBuilder) (ss : Option (List (ℕ × BlockSeal)))
    → Keeps buffers_of (record_results p builder ss)
unfolding record_results
record_results-Keeps p builder none e = refl
record_results-Keeps p none (some ss) e = refl
record_results-Keeps p (some builder) (some ss) e =
    >>-Keeps buffers_of (seal_results builder ss) (λ c. save_entries p c.dir_builder c)
      (seal_results-Keeps builder ss) (λ c. save_entries-Keeps p c.dir_builder c) e

write_all-Keeps : (p : Platform) (m : Buffers) → Keeps buffers_of (write_all p m)
unfolding write_all
write_all-Keeps p m e =
    let (results, e') = write_tasks p m e in
    record_results-Keeps p e'.dir_builder (all_written results) e' ∙ write_tasks-keeps p m e

-- No record is left.
abbrev pub AllEmpty : Buffers → Type 0
AllEmpty m = All (λ x. x.1.records ≡ []) m

length-zero : {A : Type 0} (xs : List A) → length xs ≡ 0 → xs ≡ []
length-zero [] h = refl
length-zero (x ∷ xs) h = absurd (omega (arith, h))

emptied-AllEmpty : (m : Buffers) → AllEmpty (emptied m)
unfolding emptied
emptied-AllEmpty [] = tt
emptied-AllEmpty ((t, b) ∷ m) = elim (Bool-cases (length b.records == 0)) [
  | inl e ↦ rw e (length-zero b.records (==→eq _ 0 e), emptied-AllEmpty m)
  | inr e ↦ rw e (refl, emptied-AllEmpty m)
]

flush_buffers-AllEmpty : (p : Platform) (e : Engine) → AllEmpty (flush_buffers p e).1.buffers
unfolding flush_buffers
flush_buffers-AllEmpty p e =
    let full = full_buffers e.buffers in
    let moved = record e { buffers = emptied e.buffers } in
    let kept =
      >>-Keeps buffers_of (roll_over p) (write_all p full) (roll_over-Keeps p)
        (write_all-Keeps p full) moved in
    subst AllEmpty {x = emptied e.buffers} (ground (arith, kept)) (emptied-AllEmpty e.buffers)

pub flush-eq :
    (p : Platform) (e : Engine)
    → e.is_open ≡ true
    → (flush_batches p e).0 ≡ success
    → flush p e ≡ flush_buffers p (flush_batches p e).1
unfolding flush
flush-eq p e o ok =
    let opened = open_then (flush_batches p) e o in
    >>-ok (guard_open >> flush_batches p) (flush_buffers p) e
      (ap (λ (r : EngineResult × Engine). r.0) opened ∙ ok)
    ∙ ap (λ (r : EngineResult × Engine). flush_buffers p r.1) opened

-- In an open engine whose log batches are flushed with success, a flush takes all records out of the
-- buffers, and they are not put back when it fails later.
pub flush-AllEmpty :
    (p : Platform) (e : Engine)
    → e.is_open ≡ true
    → (flush_batches p e).0 ≡ success
    → AllEmpty (flush p e).1.buffers
unfolding flush
flush-AllEmpty p e o ok =
    let flushed = flush_buffers-AllEmpty p (flush_batches p e).1 in
    subst (λ (r : EngineResult × Engine). AllEmpty r.1.buffers) (sym (flush-eq p e o ok)) flushed
