-- ===== src/Engine/Expired.antt =====
-- runRetentionService of src/storage_engine.cpp and the bytes of the container.
use x_tdb.Base.{
  ℕ, zero, suc, ◌+◌, ◌-◌, ◌^◌, ◌≤◌, ◌<◌, ◌≡◌, ◌≢◌, ◌⊎◌, inl, inr, refl, sym, subst, ◌∙◌, arith,
  Bool, false, not, Option-cases, List, [], ◌∷◌, All, All-perm, All-mono, ◌==◌, Bool-cases,
  if-holds,
}
use mathlib.Core.List.Permᴰ
use x_tdb.Flags.{chunk_bit, chb_deprecated, chunk_is_deprecated}
use x_tdb.Mutator.{deprecate_chunk}
use x_tdb.Mutator.Effect.{mutate_outside}
use x_tdb.Seal.Sealer.{mutate_ok}
use x_tdb.Metadata.Tables.{
  SyncResult, ChunkRow, Database, Sqlite, IsSqlite, where_rows, take_rows, fetch, select,
}
use x_tdb.Metadata.Query.{is_sealed_within, query_sealed_chunks}
use x_tdb.MemBuffer.{signed_sub}
use x_tdb.Engine.State.{Engine, Platform}
use x_tdb.Engine.Maintenance.{expire, expire_all, retention_us, run_retention_service}

-- The address is not in the first extent of the chunk.
abbrev pub Avoids : ℕ → ChunkRow → Type 0
Avoids a c = (a < c.chunk_offset) ⊎ (c.chunk_offset + 16384 ≤ a)

module _ {A : Type 0} (P : A → Type 0) where
  All-where :
      (test : A → Bool) (xs : List A)
      → All (λ x. (test x ≡ false) ⊎ P x) xs
      → All P (where_rows test xs)
  unfolding where_rows
  All-where test [] h = tt
  All-where test (x ∷ xs) (inl off, h) = rw off (All-where test xs h)
  All-where test (x ∷ xs) (inr y, h) = elim (Bool-cases (test x)) [
    | inl e ↦ rw e (y, All-where test xs h)
    | inr e ↦ rw e (All-where test xs h)
  ]

  All-take : (n : ℕ) (xs : List A) → All P xs → All P (take_rows n xs)
  unfolding take_rows
  All-take zero xs h = tt
  All-take (suc n) [] h = tt
  All-take (suc n) (x ∷ xs) (y, h) = (y, All-take n xs h)

  select-All :
      (sql : Sqlite) (db : Database) (rows : List A) → All P rows → All P (select sql db rows).1
  unfolding select fetch
  select-All sql db rows h = elim (Option-cases (sql.breaks (db.calls + 1))) [
    | inl e ↦ elim (Bool-cases (sql.prepares db.calls)) [
      | inl p ↦ rw (e, p) h
      | inr p ↦ rw (e, p) tt
    ]
    | inr (n, e) ↦ elim (Bool-cases (sql.prepares db.calls)) [
      | inl p ↦ rw (e, p) (All-take n rows h)
      | inr p ↦ rw (e, p) tt
    ]
  ]

query_sealed_chunks-All :
    (P : ChunkRow → Type 0) (sql : Sqlite) (db : Database) (container_id lo hi : ℕ)
    → IsSqlite sql
    → All (λ c. (is_sealed_within container_id lo hi c ≡ false) ⊎ P c) db.chunks
    → All P (query_sealed_chunks sql db container_id lo hi).1
unfolding query_sealed_chunks
query_sealed_chunks-All P sql db k lo hi v h =
    let kept =
      All-perm P (Permᴰ.symm (v.chunks_kept (λ c. c.end_ts_us) _))
        (All-where P (is_sealed_within k lo hi) db.chunks h) in
    if-holds (λ (r : SyncResult × List ChunkRow × Database). All P r.1) (not db.is_open) _ _
      (λ t. tt) (λ t. select-All P sql db _ kept)

expire-outside :
    (p : Platform) (row : ChunkRow) (e : Engine) (a : ℕ)
    → Avoids a row
    → (expire p row e).io.bytes a ≡ e.io.bytes a
unfolding expire deprecate_chunk
expire-outside p row e a h =
    let same =
      mutate_outside p.os e.io row.chunk_offset 32 (chunk_bit chb_deprecated) chunk_is_deprecated
        (λ m. m) a h in
    if-holds (λ (x : Engine). x.io.bytes a ≡ e.io.bytes a)
      (not (mutate_ok (deprecate_chunk p.os e.io row.chunk_offset).0)) _ _ (λ t. same) (λ t. same)

expire_all-outside :
    (p : Platform) (rows : List ChunkRow) (e : Engine) (a : ℕ)
    → All (Avoids a) rows
    → (expire_all p rows e).io.bytes a ≡ e.io.bytes a
unfolding expire_all
expire_all-outside p [] e a h = refl
expire_all-outside p (row ∷ rows) e a (x, h) =
    expire_all-outside p rows (expire p row e) a h ∙ expire-outside p row e a x

-- Why retention leaves a chunk alone: it is not sealed, of another container, or not yet too old.
abbrev pub IsKept : ℕ → ChunkRow → Type 0
IsKept cutoff c =
    (c.is_sealed ≡ false) ⊎ (c.container_id ≢ 0) ⊎ ((cutoff < c.end_ts_us) × (c.end_ts_us < 2 ^ 63))

kept-within :
    (cutoff : ℕ) (c : ChunkRow)
    → 0 < cutoff
    → cutoff < 2 ^ 63
    → IsKept cutoff c
    → is_sealed_within 0 0 cutoff c ≡ false
kept-within cutoff c pos small (inl unsealed) = ground (arith, unsealed)
kept-within cutoff c pos small (inr (inl other)) = ground (arith, other)
kept-within cutoff c pos small (inr (inr (late, low))) = ground (arith, late, low)

left_alone :
    (cutoff a : ℕ) (c : ChunkRow)
    → 0 < cutoff
    → cutoff < 2 ^ 63
    → IsKept cutoff c ⊎ Avoids a c
    → (is_sealed_within 0 0 cutoff c ≡ false) ⊎ Avoids a c
left_alone cutoff a c pos small (inl kept) = inl (kept-within cutoff c pos small kept)
left_alone cutoff a c pos small (inr out) = inr out

expired_outside :
    (p : Platform) (now : ℕ) (e : Engine) (a : ℕ)
    → IsSqlite p.sqlite
    → retention_us e < now
    → now < 2 ^ 63
    → All (λ c. IsKept (now - retention_us e) c ⊎ Avoids a c) e.metadata.chunks
    → let (r, rows, db) =
        query_sealed_chunks p.sqlite e.metadata 0 0 (signed_sub now (retention_us e)) in
      (expire_all p rows (record e { metadata = db })).io.bytes a ≡ e.io.bytes a
expired_outside p now e a v past small h =
    let cutoff : signed_sub now (retention_us e) ≡ now - retention_us e = omega arith in
    expire_all-outside p _ _ a (
      query_sealed_chunks-All (Avoids a) p.sqlite e.metadata 0 0 (signed_sub now (retention_us e)) v
        (All-mono (λ (c : ChunkRow). IsKept (signed_sub now (retention_us e)) c ⊎ Avoids a c)
          (λ (c : ChunkRow).
            (is_sealed_within 0 0 (signed_sub now (retention_us e)) c ≡ false) ⊎ Avoids a c)
          e.metadata.chunks
          (λ c.
            left_alone (signed_sub now (retention_us e)) a c (omega (arith, cutoff))
              (omega (arith, cutoff)))
          (subst (λ (t : ℕ). All (λ c. IsKept t c ⊎ Avoids a c) e.metadata.chunks) (sym cutoff) h)))

-- Retention at a time that is past the retention period leaves a byte of the container as it is, if
-- each chunk in the metadata has its first extent elsewhere, or is not sealed, or is of a container
-- other than 0, or ended after the cutoff. SQLite's ORDER BY gives the rows that it is given.
pub run_retention_service_outside :
    (p : Platform) (clock now : ℕ) (e : Engine) (a : ℕ)
    → IsSqlite p.sqlite
    → 0 < now
    → retention_us e < now
    → now < 2 ^ 63
    → All (λ c. IsKept (now - retention_us e) c ⊎ Avoids a c) e.metadata.chunks
    → (run_retention_service p clock now e).1.io.bytes a ≡ e.io.bytes a
unfolding run_retention_service
run_retention_service_outside p clock now e a v pos past small h =
    let given : (now == 0) ≡ false = ground arith in
    let same = expired_outside p now e a v past small h in rw given (ground (arith, same))
