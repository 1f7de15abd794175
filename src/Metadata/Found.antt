-- ===== src/Metadata/Found.antt =====
-- The queries of src/metadata_sync.cpp after its statements.
use mathlib.Core.List.Permᴰ
use mathlib.Core.List.{
  Permᴰ, Mem, map-append, mem-append_left, mem-append_right, mem-cons_self, mem-cons_of_mem,
}
use x_tdb.Base.{
  ℕ, zero, suc, ◌+◌, ◌≤◌, ◌<◌, ◌⊎◌, All-mono, All-append_both, if-holds, ltb→lt, ◌≡◌, ◌≢◌, refl,
  sym, ap, subst, ◌∙◌, arith, Bool, true, false, not, ◌&&◌, Option-cases, none, some, inl, inr,
  List, [], ◌∷◌, ◌++◌, map, All, All-perm, All-map, Bool-cases, ◌==◌, if◌then◌else◌,
}
use x_tdb.Layout.Units.{biased}
use x_tdb.Rotating.Segment.{signed_lt}
use x_tdb.Seal.Scanner.{ScannedBlock, ScannedChunk}
use x_tdb.Metadata.Tables.{
  SyncResult, success, sync_ok, BlockRow, Database, Sqlite, IsSqlite, run, where_rows, take_rows,
  fetch, select,
}
use x_tdb.Metadata.Sync.{
  block_row, sync_chunk, delete_chunk, is_block, archived_row, mark_block_as_archived, compact_row,
  CompactBlock,
}
use x_tdb.Metadata.Query.{
  query_block_metadata, first_block, found_block, BlockQueryResult, result_of, query_blocks, is_hit,
  query_blocks_by_tag_and_time, is_archivable, query_blocks_for_archive,
}
use x_tdb.Metadata.Ran.{run-Ran, where_rows-append}
use x_tdb.Metadata.Synced.{sync_chunk_lem}

select_lem :
    {A : Type 0} (sql : Sqlite) (db : Database) (rows : List A)
    → (select sql db rows).0 ≡ success
    → (select sql db rows).1 ≡ rows
unfolding select fetch
select_lem sql db rows h = elim (Option-cases (sql.breaks (db.calls + 1))) [
  | inl e ↦ elim (Bool-cases (sql.prepares db.calls)) [
    | inl p ↦ rw (e, p) refl
    | inr p ↦ absurd (ground (arith, p, h))
  ]
  | inr (n, e) ↦ elim (Bool-cases (sql.prepares db.calls)) [
    | inl p ↦ absurd (ground (arith, p, e, h))
    | inr p ↦ absurd (ground (arith, p, h))
  ]
]

-- What a query of blocks finds: the rows that pass its test, in some order.
pub query_blocks_lem :
    (sql : Sqlite) (db : Database) (test : BlockRow → Bool) (key : BlockRow → ℕ)
    → IsSqlite sql
    → (query_blocks sql db test key).0 ≡ success
    → Permᴰ (query_blocks sql db test key).1 (map result_of (where_rows test db.blocks))
unfolding query_blocks
query_blocks_lem sql db test key v h =
    let rows = where_rows test db.blocks in
    subst (λ (xs : List BlockRow). Permᴰ (map result_of xs) (map result_of rows))
      (sym (select_lem sql db (sql.order_blocks key rows) h))
      (Permᴰ.map result_of (v.blocks_kept key rows))

-- The rows of a query after a syncChunk: those of before, and those of the chunk.
query_blocks-sync_chunk_lem :
    (sql : Sqlite) (db : Database) (chunk_offset : ℕ) (chunk : ScannedChunk)
    (tag_id start_ts_us end_ts_us : ℕ)
    → IsSqlite sql
    → db.before ≡ none
    → (sync_chunk sql db chunk_offset chunk).0 ≡ success
    → let db' = (sync_chunk sql db chunk_offset chunk).1 in
      let query = query_blocks_by_tag_and_time sql db' tag_id start_ts_us end_ts_us in
      let hits = λ (rows : List BlockRow).
        map result_of (where_rows (is_hit tag_id start_ts_us end_ts_us) rows) in
      query.0 ≡ success
      → Permᴰ query.1
          (hits db.blocks ++ hits (map (block_row chunk_offset chunk.chunk_id) chunk.blocks))
unfolding query_blocks_by_tag_and_time
query_blocks-sync_chunk_lem sql db chunk_offset chunk tag_id start_ts_us end_ts_us v idle ok found =
    let db' = (sync_chunk sql db chunk_offset chunk).1 in
    let test = is_hit tag_id start_ts_us end_ts_us in
    let rows = map (block_row chunk_offset chunk.chunk_id) chunk.blocks in
    let stored = sync_chunk_lem sql db chunk_offset chunk idle ok in
    subst (Permᴰ (query_blocks sql db' test (λ b. b.start_ts_us)).1)
      (ap (λ (bs : List BlockRow). map result_of (where_rows test bs)) stored
        ∙ ap (map result_of) (where_rows-append test db.blocks rows)
        ∙ map-append result_of (where_rows test db.blocks) (where_rows test rows))
      (query_blocks_lem sql db' test (λ b. b.start_ts_us) v found)

module _ (tag_id start_ts_us end_ts_us : ℕ) where
  -- A block of the tag whose time overlaps the range, as int64_t.
  abbrev pub Wanted : BlockQueryResult → Type 0
  Wanted x =
      (x.tag_id ≡ tag_id)
      × (biased x.start_ts_us ≤ biased end_ts_us)
      × (biased start_ts_us ≤ biased x.end_ts_us)

  -- Of another tag, or behind the range, or in front of it.
  abbrev pub Unwanted : ScannedBlock → Type 0
  Unwanted b =
      (b.tag_id ≢ tag_id)
      ⊎ (biased end_ts_us < biased b.start_ts_us)
      ⊎ (biased b.end_ts_us < biased start_ts_us)

  abbrev hits : List BlockRow → List BlockQueryResult
  hits rows = map result_of (where_rows (is_hit tag_id start_ts_us end_ts_us) rows)

  hit-Wanted :
      (row : BlockRow) → is_hit tag_id start_ts_us end_ts_us row ≡ true → Wanted (result_of row)
  hit-Wanted row h = (ground (arith, h), ground (arith, h), ground (arith, h))

  miss-Unwanted :
      (chunk_offset chunk_id : ℕ) (b : ScannedBlock)
      → is_hit tag_id start_ts_us end_ts_us (block_row chunk_offset chunk_id b) ≡ false
      → Unwanted b
  miss-Unwanted o k b h = elim (Bool-cases (b.tag_id == tag_id)) [
    | inr e ↦ inl (ground (arith, e))
    | inl e ↦ elim (Bool-cases (signed_lt end_ts_us b.start_ts_us)) [
      | inl after ↦ inr (inl (ltb→lt _ _ after))
      | inr not_after ↦ inr (inr (ground (arith, e, not_after, h)))
    ]
  ]

  hits-Wanted : (rows : List BlockRow) → All Wanted (hits rows)
  unfolding where_rows
  hits-Wanted [] = tt
  hits-Wanted (row ∷ rows) =
      let test = is_hit tag_id start_ts_us end_ts_us in
      if-holds (λ (xs : List BlockRow). All Wanted (map result_of xs)) (test row)
        (row ∷ where_rows test rows) (where_rows test rows)
        (λ e. (hit-Wanted row e, hits-Wanted rows)) (λ e. hits-Wanted rows)

-- A block of a chunk, as a query gives it.
abbrev pub stored_block : ℕ → ℕ → ScannedBlock → BlockQueryResult
stored_block chunk_offset chunk_id b = record {
  chunk_id = chunk_id;
  block_index = b.block_index;
  tag_id = b.tag_id;
  start_ts_us = b.start_ts_us;
  end_ts_us = b.end_ts_us;
  time_unit = b.time_unit;
  value_type = b.value_type;
  record_count = b.record_count;
  chunk_offset = chunk_offset;
}

module _ (tag_id start_ts_us end_ts_us chunk_offset chunk_id : ℕ) where
  -- Each of the blocks is among the results, or is not wanted.
  abbrev pub AllFound : List ScannedBlock → List BlockQueryResult → Type 0
  AllFound bs xs =
      All
        (λ b.
          Mem (stored_block chunk_offset chunk_id b) xs ⊎ Unwanted tag_id start_ts_us end_ts_us b)
        bs

  AllFound-mono :
      (bs : List ScannedBlock) (xs ys : List BlockQueryResult)
      → ((x : BlockQueryResult) → Mem x xs → Mem x ys)
      → AllFound bs xs
      → AllFound bs ys
  AllFound-mono bs xs ys more =
      All-mono _ _ bs λ b. elim [ inl m ↦ inl (more _ m) | inr out ↦ inr out ]

  hits-AllFound :
      (bs : List ScannedBlock)
      → AllFound bs (hits tag_id start_ts_us end_ts_us (map (block_row chunk_offset chunk_id) bs))
  unfolding where_rows
  hits-AllFound [] = tt
  hits-AllFound (b ∷ bs) =
      let test = is_hit tag_id start_ts_us end_ts_us in
      let row = block_row chunk_offset chunk_id b in
      let rows = where_rows test (map (block_row chunk_offset chunk_id) bs) in
      let rest = hits-AllFound bs in
      if-holds (λ (xs : List BlockRow). AllFound (b ∷ bs) (map result_of xs)) (test row)
        (row ∷ rows) rows
        (λ e. (
          inl mem-cons_self,
          AllFound-mono bs (map result_of rows) (map result_of (row ∷ rows))
              (λ x m. mem-cons_of_mem (result_of row) m) rest,
        ))
        (λ e. (inr (miss-Unwanted tag_id start_ts_us end_ts_us chunk_offset chunk_id b e), rest))

-- When a syncChunk succeeds, outside of any other transaction, and a query for a tag and a time range
-- succeeds both before it and after it, then the later query gives every block of the chunk but those
-- of another tag and those whose time does not overlap the range, and all that the earlier one gave.
-- What it gives is of the tag and overlaps the range. SQLite's ORDER BY gives the rows that it is
-- given.
pub query_blocks-sync_chunk :
    (sql : Sqlite) (db : Database) (chunk_offset : ℕ) (chunk : ScannedChunk)
    (tag_id start_ts_us end_ts_us : ℕ)
    → IsSqlite sql
    → db.before ≡ none
    → (sync_chunk sql db chunk_offset chunk).0 ≡ success
    → let db' = (sync_chunk sql db chunk_offset chunk).1 in
      let before = query_blocks_by_tag_and_time sql db tag_id start_ts_us end_ts_us in
      let after = query_blocks_by_tag_and_time sql db' tag_id start_ts_us end_ts_us in
      before.0 ≡ success
      → after.0 ≡ success
      → AllFound tag_id start_ts_us end_ts_us chunk_offset chunk.chunk_id chunk.blocks after.1
        × ((x : BlockQueryResult) → Mem x before.1 → Mem x after.1)
        × All (Wanted tag_id start_ts_us end_ts_us) after.1
unfolding query_blocks_by_tag_and_time
query_blocks-sync_chunk sql db chunk_offset chunk tag_id start_ts_us end_ts_us v idle ok once
      found =
    let test = is_hit tag_id start_ts_us end_ts_us in
    let rows = map (block_row chunk_offset chunk.chunk_id) chunk.blocks in
    let old_hits = hits tag_id start_ts_us end_ts_us db.blocks in
    let new_hits = hits tag_id start_ts_us end_ts_us rows in
    let all =
      query_blocks-sync_chunk_lem sql db chunk_offset chunk tag_id start_ts_us end_ts_us v idle ok
        found in
    let old = query_blocks_lem sql db test (λ b. b.start_ts_us) v once in
    let back = Permᴰ.symm all in
    (
      AllFound-mono tag_id start_ts_us end_ts_us chunk_offset chunk.chunk_id chunk.blocks new_hits _
          (λ x m. Permᴰ.mem back (mem-append_right old_hits m))
          (hits-AllFound tag_id start_ts_us end_ts_us chunk_offset chunk.chunk_id chunk.blocks),
      (λ x m. Permᴰ.mem back (mem-append_left new_hits (Permᴰ.mem old m))),
      All-perm (Wanted tag_id start_ts_us end_ts_us) back (
          All-append_both (Wanted tag_id start_ts_us end_ts_us) old_hits new_hits
            (hits-Wanted tag_id start_ts_us end_ts_us db.blocks)
            (hits-Wanted tag_id start_ts_us end_ts_us rows)),
    )

-- Rows that the first test has removed are not found by a second one that implies it.
where_rows-removed :
    (container_id chunk_id block_index : ℕ) (bs : List BlockRow)
    → where_rows
        (is_block container_id chunk_id block_index)
        (where_rows (λ b. not (b.chunk_id == chunk_id)) bs)
      ≡ []
unfolding where_rows
where_rows-removed c k i [] = refl
where_rows-removed c k i (b ∷ bs) =
    let rest = where_rows-removed c k i bs in
    elim (Bool-cases (b.chunk_id == k)) [ inl e ↦ rw e rest | inr e ↦ ground (arith, e, rest) ]

bad_result : (r : SyncResult) → sync_ok r ≡ false → r ≡ success → ⊥
bad_result r bad ok = let e = ap sync_ok ok in cc

nothing_found :
    (sql : Sqlite) (db : Database) (result : BlockQueryResult)
    → (found_block result (select sql db [])).0 ≡ success
    → ⊥
unfolding select fetch found_block take_rows
nothing_found sql db result h = elim (Option-cases (sql.breaks (db.calls + 1))) [
  | inl e ↦ elim (Bool-cases (sql.prepares db.calls)) [
    | inl p ↦ ground (arith, e, p, h)
    | inr p ↦ ground (arith, e, p, h)
  ]
  | inr (n, e) ↦ elim (Bool-cases (sql.prepares db.calls)) [
    | inl p ↦ stopped n e p
    | inr p ↦ ground (arith, e, p, h)
  ]
]
  where
    stopped : (n : ℕ) → sql.breaks (db.calls + 1) ≡ some n → sql.prepares db.calls ≡ true → ⊥
    stopped zero e p = ground (arith, e, p, h)
    stopped (suc n) e p = ground (arith, e, p, h)

delete_chunk-blocks :
    (sql : Sqlite) (db : Database) (container_id chunk_id : ℕ)
    → (delete_chunk sql db container_id chunk_id).0 ≡ success
    → (bs : List BlockRow) × ((delete_chunk sql db container_id chunk_id).1.blocks
        ≡ where_rows (λ b. not (b.chunk_id == chunk_id)) bs)
unfolding delete_chunk
delete_chunk-blocks sql db container_id chunk_id ok =
    let gone = λ (t : Database). record t {
      chunks =
          where_rows (λ c. not (c.container_id == container_id && c.chunk_id == chunk_id)) t.chunks;
    } in
    let emptied = λ (t : Database). record t {
      blocks = where_rows (λ b. not (b.chunk_id == chunk_id)) t.blocks;
    } in
    let db₁ = (run sql db gone).1 in
    let v = run-Ran sql db₁ emptied in
    elim (Bool-cases db.is_open) [
      | inr shut ↦ absurd (ground (arith, shut, ok))
      | inl o ↦ elim (Bool-cases (sync_ok (run sql db gone).0)) [
        | inr bad ↦ absurd (ground (arith, o, bad, ok, bad_result (run sql db gone).0 bad))
        | inl c ↦
            let last : (run sql db₁ emptied).0 ≡ success = ground (arith, o, c, ok) in
            (db₁.blocks, ground (arith, o, c, ap Database.blocks (v.done last)))
      ]
    ]

-- Blocks of compact containers are stored with chunk number 0. A deleteChunk of chunk 0 that
-- succeeds, of whatever container, removes their rows too: none of them is found after it.
pub query_block_metadata-delete_chunk :
    (sql : Sqlite) (db : Database) (container_id : ℕ) (b : CompactBlock) (result : BlockQueryResult)
    → let (r, db') = delete_chunk sql db container_id 0 in
      r ≡ success
      → (query_block_metadata sql db' b.container_id
          (compact_row b).chunk_id
          b.block_index
          result).0
        ≢ success
unfolding query_block_metadata first_block take_rows
query_block_metadata-delete_chunk sql db container_id b result ok found =
    let db' = (delete_chunk sql db container_id 0).1 in
    let (bs, e) = delete_chunk-blocks sql db container_id 0 ok in
    let none_left : where_rows (is_block b.container_id 0 b.block_index) db'.blocks ≡ [] =
      ap (where_rows (is_block b.container_id 0 b.block_index)) e
      ∙ where_rows-removed b.container_id 0 b.block_index bs in
    nothing_found sql db' result (
      subst
        (λ (rows : List BlockRow).
          (found_block result (select sql db' (take_rows 1 rows))).0 ≡ success)
        none_left found)

-- The rows that are marked are not archivable any more.
All-marked :
    (c k i to_container to_block cutoff : ℕ) (bs : List BlockRow)
    → All
        (λ b. (b.chunk_id == k && b.block_index == i) ≡ false)
        (where_rows
          (is_archivable c cutoff)
          (map (λ b. if is_block c k i b then archived_row to_container to_block b else b) bs))
unfolding where_rows
All-marked c k i to_container to_block cutoff [] = tt
All-marked c k i to_container to_block cutoff (b ∷ bs) =
    let rest = All-marked c k i to_container to_block cutoff bs in
    elim (Bool-cases (is_block c k i b)) [
      | inl e ↦
          let off : is_archivable c cutoff (archived_row to_container to_block b) ≡ false =
            ground arith in
          rw (e, off) rest
      | inr e ↦ elim (Bool-cases (is_archivable c cutoff b)) [
        | inl a ↦ rw (e, a) (ground (arith, e, a), rest)
        | inr a ↦ rw (e, a) rest
      ]
    ]

-- A block that has been marked as archived is not offered for archiving again, whatever the time.
pub query_blocks_for_archive-mark :
    (sql : Sqlite) (db : Database)
    (container_id chunk_id block_index to_container to_block cutoff : ℕ)
    → IsSqlite sql
    → let (r, db') =
        mark_block_as_archived sql db container_id chunk_id block_index to_container to_block in
      let query = query_blocks_for_archive sql db' container_id cutoff in
      r ≡ success
      → query.0 ≡ success
      → All (λ b. (b.chunk_id == chunk_id && b.block_index == block_index) ≡ false) query.1
unfolding query_blocks_for_archive mark_block_as_archived
query_blocks_for_archive-mark sql db c k i to_container to_block cutoff v ok found =
    let db' = (mark_block_as_archived sql db c k i to_container to_block).1 in
    let test = is_archivable c cutoff in
    let marked = (run-Ran sql db _).done ok in
    All-perm (λ (b : BlockQueryResult). (b.chunk_id == k && b.block_index == i) ≡ false)
      (Permᴰ.symm (query_blocks_lem sql db' test (λ b. b.end_ts_us) v found))
      (All-map result_of (λ (b : BlockQueryResult). (b.chunk_id == k && b.block_index == i) ≡ false)
        (where_rows test db'.blocks)
        (subst
          (λ (bs : List BlockRow).
            All (λ b. (b.chunk_id == k && b.block_index == i) ≡ false) (where_rows test bs))
          (sym (ap Database.blocks marked))
          (All-marked c k i to_container to_block cutoff db.blocks)))
