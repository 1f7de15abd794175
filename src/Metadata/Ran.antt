-- ===== src/Metadata/Ran.antt =====
-- What a statement leaves in the tables, whether it succeeds or not.
use mathlib.Core.List.{append_assoc, append-nil}
use x_tdb.Base.{
  ◌+◌, ◌≡◌, refl, sym, ap, ◌∙◌, arith, Bool, true, false, ◌⊎◌, inl, inr, List, [], ◌∷◌, ◌++◌, All,
  Bool-cases,
}
use x_tdb.Metadata.Tables.{
  SyncResult, success, sync_ok, BlockRow, Database, Sqlite, ticked, run, where_rows,
}
use x_tdb.Metadata.Sync.{insert_block, insert_blocks}

module _ {A : Type 0} (p : A → Bool) where
  pub where_rows-append :
      (xs ys : List A) → where_rows p (xs ++ ys) ≡ where_rows p xs ++ where_rows p ys
  unfolding where_rows
  where_rows-append [] ys = refl
  where_rows-append (x ∷ xs) ys = ground (arith, where_rows-append xs ys)

  pub All-where_rows : (xs : List A) → All (λ x. p x ≡ true) (where_rows p xs)
  unfolding where_rows
  All-where_rows [] = tt
  All-where_rows (x ∷ xs) = elim (Bool-cases (p x)) [
    | inl e ↦ rw (e) (e, All-where_rows xs)
    | inr e ↦ rw (e) (All-where_rows xs)
  ]

-- A statement either does its change or leaves the tables alone.
pub record Ran (db : Database) (change : Database → Database) (r : SyncResult) (db' : Database)
    : Type 0 where
  pub done : r ≡ success → db' ≡ change (ticked 2 db)
  pub undone :
      (r ≡ success → ⊥)
      → (db'.chunks ≡ db.chunks) × (db'.blocks ≡ db.blocks) × (db'.before ≡ db.before)

pub run-Ran :
    (sql : Sqlite) (db : Database) (change : Database → Database)
    → Ran db change (run sql db change).0 (run sql db change).1
unfolding run
run-Ran sql db change = elim (Bool-cases (sql.prepares db.calls)) [
  | inl p ↦ elim (Bool-cases (sql.executes (db.calls + 1))) [
    | inl e ↦ rw (p, e) (record { done = λ h. refl; undone = λ h. absurd (h refl) })
    | inr e ↦ rw (p, e) (record { done = λ h. absurd (cc h); undone = λ h. (refl, refl, refl) })
  ]
  | inr p ↦ rw p (record { done = λ h. absurd (cc h); undone = λ h. (refl, refl, refl) })
]

pub SyncResult-cases : (r : SyncResult) → (r ≡ success) ⊎ (r ≡ success → ⊥)
SyncResult-cases SyncResult.success = inl refl
SyncResult-cases SyncResult.err_db_open_failed = inr (λ h. cc h)
SyncResult-cases SyncResult.err_db_exec_failed = inr (λ h. cc h)
SyncResult-cases SyncResult.err_db_prepare_failed = inr (λ h. cc h)
SyncResult-cases SyncResult.err_invalid_data = inr (λ h. cc h)

pub failed : (r : SyncResult) → (r ≡ success → ⊥) → sync_ok r ≡ false
failed SyncResult.success h = absurd (h refl)
failed SyncResult.err_db_open_failed h = refl
failed SyncResult.err_db_exec_failed h = refl
failed SyncResult.err_db_prepare_failed h = refl
failed SyncResult.err_invalid_data h = refl

pub insert_blocks_lem :
    (sql : Sqlite) (db : Database) (rows : List BlockRow)
    → ((insert_blocks sql db rows).1.before ≡ db.before)
      × ((insert_blocks sql db rows).0 ≡ success
          → ((insert_blocks sql db rows).1.blocks ≡ db.blocks ++ rows)
            × ((insert_blocks sql db rows).1.chunks ≡ db.chunks))
unfolding insert_blocks
insert_blocks_lem sql db [] = (refl, λ h. (sym (append-nil db.blocks), refl))
insert_blocks_lem sql db (row ∷ rows) =
    let v = run-Ran sql db (insert_block row) in
    let (r, db₁) = run sql db (insert_block row) in
    let (kept, all) = insert_blocks_lem sql db₁ rows in
    elim (SyncResult-cases r) [
      | inl ok ↦ rw ok (
        kept ∙ ap Database.before (v.done ok),
        λ h. (
          (all h).0
              ∙ ap (λ (t : Database). t.blocks ++ rows) (v.done ok)
              ∙ append_assoc db.blocks (row ∷ []) rows,
          (all h).1 ∙ ap Database.chunks (v.done ok),
        ),
      )
      | inr bad ↦ rw (failed r bad) ((v.undone bad).2, λ h. absurd (bad h))
    ]
