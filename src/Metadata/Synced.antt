-- ===== src/Metadata/Synced.antt =====
-- syncChunk of src/metadata_sync.cpp as a whole, by its result.
use x_tdb.Base.{
  ℕ, ◌+◌, ◌≡◌, ◌≢◌, ◌⊎◌, refl, ap, ◌∙◌, arith, true, not, none, some, Option, inl, inr, List, [],
  ◌∷◌, ◌++◌, map, Bool-cases, ◌==◌,
}
use x_tdb.Seal.Scanner.{ScannedChunk}
use x_tdb.Metadata.Tables.{
  SyncResult, success, ChunkRow, BlockRow, Database, Sqlite, ticked, execute_sql, run, where_rows,
}
use x_tdb.Metadata.Sync.{
  chunk_row, block_row, replace_chunk, insert_blocks, begin_transaction, insert_block, restored,
  rolled_back, rollback, commit, sync_chunk,
}
use x_tdb.Metadata.Ran.{run-Ran, SyncResult-cases, failed, insert_blocks_lem}

rollback_done :
    (sql : Sqlite) (t : Database)
    → sql.executes t.calls ≡ true
    → rollback sql t ≡ rolled_back (ticked 1 t)
unfolding rollback execute_sql
rollback_done sql t ok = ground (arith, ok)

-- The calls succeed, but for one at most.
module _ (sql : Sqlite) (n : ℕ)
    (others : (k : ℕ) → k ≢ n → (sql.executes k ≡ true) × (sql.prepares k ≡ true)) where
  -- The call behind a statement that failed succeeds.
  run_failed :
      (t : Database) (change : Database → Database)
      → ((run sql t change).0 ≡ success → ⊥)
      → sql.executes (run sql t change).1.calls ≡ true
  unfolding run
  run_failed t change bad = elim (Bool-cases (sql.prepares t.calls)) [
    | inr p ↦
        let next : sql.executes (t.calls + 1) ≡ true =
          (others (t.calls + 1)
            λ e. absurd (let q = (others t.calls (λ (f : t.calls ≡ n). omega arith)).1 in cc)).0 in
        rw p next
    | inl p ↦ elim (Bool-cases (sql.executes (t.calls + 1))) [
      | inl e ↦ absurd (ground (arith, p, e, bad))
      | inr e ↦
          let next : sql.executes (t.calls + 2) ≡ true =
            (others (t.calls + 2) λ f.
              absurd (
                let q = (others (t.calls + 1) (λ (g : t.calls + 1 ≡ n). omega arith)).0 in cc)).0 in
          rw (p, e) next
    ]
  ]

  insert_blocks_failed :
      (t : Database) (rows : List BlockRow)
      → ((insert_blocks sql t rows).0 ≡ success → ⊥)
      → sql.executes (insert_blocks sql t rows).1.calls ≡ true
  unfolding insert_blocks
  insert_blocks_failed t [] = λ bad. absurd (bad refl)
  insert_blocks_failed t (row ∷ rows) =
      let (r, t₁) = run sql t (insert_block row) in
      elim (SyncResult-cases r) [
        | inl ok ↦ rw ok (insert_blocks_failed t₁ rows)
        | inr bad ↦ rw (failed r bad) (λ h. run_failed t (insert_block row) bad)
      ]

-- The statements of syncChunk, one behind the other.
module _ (sql : Sqlite) (db : Database) (chunk_offset : ℕ) (chunk : ScannedChunk)
    (idle : db.before ≡ none) where
  abbrev begun : SyncResult × Database
  begun = begin_transaction sql db

  abbrev replaced : SyncResult × Database
  replaced = run sql begun.1 (replace_chunk (chunk_row chunk_offset chunk))

  abbrev new_rows : List BlockRow
  new_rows = map (block_row chunk_offset chunk.chunk_id) chunk.blocks

  abbrev inserted : SyncResult × Database
  inserted = insert_blocks sql replaced.1 new_rows

  -- Before the BEGIN, or after one that failed, no transaction is open.
  begun_lem :
      (begun.1.chunks ≡ db.chunks)
      × (begun.1.blocks ≡ db.blocks)
      × (begun.0 ≡ success → begun.1.before ≡ some (db.chunks, db.blocks))
      × ((begun.0 ≡ success → ⊥) → begun.1.before ≡ none)
  unfolding begin_transaction execute_sql
  begun_lem = elim (Bool-cases (sql.executes db.calls)) [
    | inl e ↦ rw (idle, e) (refl, refl, λ h. refl, λ h. absurd (h refl))
    | inr e ↦ rw (idle, e) (refl, refl, λ h. absurd (cc h), λ h. refl)
  ]

  replaced-before : replaced.1.before ≡ begun.1.before
  replaced-before = elim (SyncResult-cases replaced.0) [
    | inl ok ↦ ap Database.before ((run-Ran sql begun.1 _).done ok)
    | inr bad ↦ ((run-Ran sql begun.1 _).undone bad).2
  ]

  -- The tables are as they were, and no transaction is open.
  abbrev pub Undone : Database → Type 0
  Undone t = (t.chunks ≡ db.chunks) × (t.blocks ≡ db.blocks) × (t.before ≡ none)

  -- The tables have the chunk, in a transaction that is still open.
  abbrev pub LeftOpen : Database → Type 0
  LeftOpen t =
      (t.chunks ≡ (replace_chunk (chunk_row chunk_offset chunk) db).chunks)
      × (t.blocks ≡ db.blocks ++ map (block_row chunk_offset chunk.chunk_id) chunk.blocks)
      × (t.before ≡ some (db.chunks, db.blocks))

  rollback-Undone :
      (t : Database)
      → t.before ≡ some (db.chunks, db.blocks)
      → sql.executes t.calls ≡ true
      → Undone (rollback sql t)
  unfolding rolled_back
  rollback-Undone t h ok =
      let e =
        rollback_done sql t ok
        ∙ ap (λ (o : Option (List ChunkRow × List BlockRow)). restored o (ticked 1 t)) h in
      (ap Database.chunks e, ap Database.blocks e, ap Database.before e)

  open_one : begun.0 ≡ success → replaced.1.before ≡ some (db.chunks, db.blocks)
  open_one b = replaced-before ∙ begun_lem.2 b

  open_two : begun.0 ≡ success → inserted.1.before ≡ some (db.chunks, db.blocks)
  open_two b = (insert_blocks_lem sql replaced.1 new_rows).0 ∙ open_one b

  -- In front of the COMMIT.
  inserted-LeftOpen :
      begun.0 ≡ success → replaced.0 ≡ success → inserted.0 ≡ success → LeftOpen inserted.1
  inserted-LeftOpen b c i =
      let (all_blocks, all_chunks) = (insert_blocks_lem sql replaced.1 new_rows).1 i in
      let one = (run-Ran sql begun.1 _).done c in
      (
        all_chunks
            ∙ ap Database.chunks one
            ∙ ap
                (λ (cs : List ChunkRow).
                  where_rows (λ x. not (x.chunk_id == chunk.chunk_id)) cs
                  ++ chunk_row chunk_offset chunk ∷ [])
                begun_lem.0,
        all_blocks
            ∙ ap (λ (t : Database). t.blocks ++ new_rows) one
            ∙ ap (λ (bs : List BlockRow). bs ++ new_rows) begun_lem.1,
        open_two b,
      )

  commit_lem :
      (t : Database)
      → ((commit sql t).1.chunks ≡ t.chunks)
        × ((commit sql t).1.blocks ≡ t.blocks)
        × (((commit sql t).0 ≡ success → ⊥) → (commit sql t).1.before ≡ t.before)
  unfolding commit execute_sql
  commit_lem t = elim (Bool-cases (sql.executes t.calls)) [
    | inl e ↦ rw e (refl, refl, λ bad. absurd (bad refl))
    | inr e ↦ rw e (refl, refl, λ bad. refl)
  ]

  -- What syncChunk stores when it succeeds.
  pub sync_chunk_lem :
      (sync_chunk sql db chunk_offset chunk).0 ≡ success
      → (sync_chunk sql db chunk_offset chunk).1.blocks ≡ db.blocks ++ new_rows
  unfolding sync_chunk
  sync_chunk_lem = elim (SyncResult-cases begun.0) [
    | inr bad ↦ rw (failed begun.0 bad) (λ ok. absurd (bad ok))
    | inl b ↦ elim (SyncResult-cases replaced.0) [
      | inr bad ↦ rw (b, failed replaced.0 bad) (λ ok. absurd (bad ok))
      | inl c ↦ elim (SyncResult-cases inserted.0) [
        | inr bad ↦ rw (b, c, failed inserted.0 bad) (λ ok. absurd (bad ok))
        | inl i ↦ rw (b, c, i) (λ ok. (commit_lem inserted.1).1 ∙ (inserted-LeftOpen b c i).1)
      ]
    ]
  ]

-- When at most one call of SQLite's execute or prepare fails, a syncChunk that fails, outside of any
-- other transaction, either leaves both tables as they were and no transaction open, or leaves the
-- new row of the chunk and the rows of all its blocks in the tables, in a transaction that is still
-- open and holds both tables as they were.
pub sync_chunk_atomic :
    (sql : Sqlite) (db : Database) (chunk_offset : ℕ) (chunk : ScannedChunk) (n : ℕ)
    → db.before ≡ none
    → ((k : ℕ) → k ≢ n → (sql.executes k ≡ true) × (sql.prepares k ≡ true))
    → ((sync_chunk sql db chunk_offset chunk).0 ≡ success → ⊥)
    → let db' = (sync_chunk sql db chunk_offset chunk).1 in
      ((db'.chunks ≡ db.chunks) × (db'.blocks ≡ db.blocks) × (db'.before ≡ none))
      ⊎ ((db'.chunks ≡ (replace_chunk (chunk_row chunk_offset chunk) db).chunks)
          × (db'.blocks ≡ db.blocks ++ map (block_row chunk_offset chunk.chunk_id) chunk.blocks)
          × (db'.before ≡ some (db.chunks, db.blocks)))
unfolding sync_chunk
sync_chunk_atomic sql db o chunk n idle others =
    let begun_is = begun_lem sql db o chunk idle in
    let b = begun sql db o chunk idle in
    let c = replaced sql db o chunk idle in
    let i = inserted sql db o chunk idle in
    elim (SyncResult-cases b.0) [
      | inr bad ↦ rw (failed b.0 bad) (λ h. inl (begun_is.0, begun_is.1, begun_is.3 bad))
      | inl b_ok ↦ elim (SyncResult-cases c.0) [
        | inr bad ↦
            rw (b_ok, failed c.0 bad)
              (λ h. inl (
                rollback-Undone sql db o chunk idle c.1 (open_one sql db o chunk idle b_ok)
                  (run_failed sql n others b.1 (replace_chunk (chunk_row o chunk)) bad)))
        | inl c_ok ↦ elim (SyncResult-cases i.0) [
          | inr bad ↦
              rw (b_ok, c_ok, failed i.0 bad)
                (λ h. inl (
                  rollback-Undone sql db o chunk idle i.1 (open_two sql db o chunk idle b_ok) (
                    insert_blocks_failed sql n others c.1
                      (map (block_row o chunk.chunk_id) chunk.blocks) bad)))
          | inl i_ok ↦
              let left = inserted-LeftOpen sql db o chunk idle b_ok c_ok i_ok in
              let kept = commit_lem sql db o chunk idle i.1 in
              rw (b_ok, c_ok, i_ok) (λ h. inr (kept.0 ∙ left.0, kept.1 ∙ left.1, kept.2 h ∙ left.2))
        ]
      ]
    ]
