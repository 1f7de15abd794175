-- ===== src/Engine/Reclaimed.antt =====
-- The extents that reclaimDeprecatedChunks of src/storage_engine.cpp visits.
use x_tdb.Base.{
  ℕ, zero, suc, ◌+◌, ◌*◌, ◌/◌, ◌^◌, ◌≤◌, ◌<◌, ◌≡◌, ◌≢◌, ◌⊎◌, inl, inr, refl, sym, ap, subst, ◌∙◌,
  arith, true, false, Bool-cases, ltb, ltb→lt, ltb→le, if-holds,
}
use native.Mathlib.Nat.{suc-mul, zero-mul, mul-le-mul_right}
use x_tdb.Layout.Units.{u64}
use x_tdb.Io.{aligned_buffer, read}
use x_tdb.Io.Laws.{read-SameContent}
use x_tdb.Flags.{chunk_bit, chb_free_mark}
use x_tdb.Mutator.{mark_chunk_free}
use x_tdb.Mutator.Effect.{mutate_outside}
use x_tdb.Engine.State.{EngineResult, EngineConfig, Engine, Platform}
use x_tdb.Engine.Maintenance.{reclaim_at, reclaim_from, reclaim_deprecated_chunks}

-- What a round keeps: the settings, and a byte outside of the extent that it visits.
abbrev Spared : ℕ → Engine → Engine → Type 0
Spared a e e' =
    (e'.config ≡ e.config) × (e'.capacity_bytes ≡ e.capacity_bytes) × (e'.io.bytes a ≡ e.io.bytes a)

reclaim_at-Spared :
    (p : Platform) (chunk_offset : ℕ) (e : Engine) (a : ℕ)
    → (a < chunk_offset) ⊎ (chunk_offset + 16384 ≤ a)
    → Spared a e (reclaim_at p chunk_offset e).1
unfolding reclaim_at mark_chunk_free
reclaim_at-Spared p chunk_offset e a h =
    let size = e.config.layout.block_size_bytes in
    let fetched = read p.os e.io (aligned_buffer p.os size) size chunk_offset in
    let same : fetched.2.bytes a ≡ e.io.bytes a =
      ap (λ (m : ℕ → ℕ). m a)
        (read-SameContent p.os e.io (aligned_buffer p.os size) size chunk_offset).bytes in
    let freed =
      mutate_outside p.os fetched.2 chunk_offset 32 (chunk_bit chb_free_mark) (λ flags. false)
        (λ m. m) a h in
    (ground arith, ground arith, ground (arith, same, freed))

-- No chunk starts at an extent that is visited.
apart : (k i a : ℕ) → 256 < k → a / 16384 ≡ 257 + i * k → (j : ℕ) → a / 16384 ≢ 1 + j * k
apart k i a large first j same = elim (Bool-cases (ltb i j)) [
  | inl e ↦ omega (arith, first, same, mul-le-mul_right k (lt→le i j e), suc-mul i k)
  | inr e ↦ omega (arith, first, same, mul-le-mul_right k (ltb→le i j e))
]
  where
    lt→le : (i j : ℕ) → ltb i j ≡ true → suc i ≤ j
    lt→le i j e = omega (arith, ltb→lt i j e)

beside : (m a : ℕ) → a / 16384 ≢ m → (a < 16384 * m) ⊎ (16384 * m + 16384 ≤ a)
beside m a other = elim (Bool-cases (ltb a (16384 * m))) [
  | inl e ↦ inl (ltb→lt a _ e)
  | inr e ↦ inr (omega (arith, other, ltb→le a _ e))
]

module _ (p : Platform) (k a : ℕ) (apart : (j : ℕ) → a / 16384 ≢ 1 + j * k) where
  reclaim_from-Spared :
      (fuel j : ℕ) (e : Engine)
      → e.config.layout.chunk_size_bytes ≡ 16384 * k
      → e.capacity_bytes + 16384 * k < 2 ^ 64
      → Spared a e (reclaim_from p fuel (16384 * (1 + j * k)) e)
  unfolding reclaim_from
  reclaim_from-Spared zero j e n c = (refl, refl, refl)
  reclaim_from-Spared (suc fuel) j e n c =
      let at = 16384 * (1 + j * k) in
      let seen = reclaim_at p at e in
      let one = reclaim_at-Spared p at e a (beside (1 + j * k) a (apart j)) in
      let rest =
        reclaim_from-Spared fuel (suc j) seen.1
          (ap (λ (x : EngineConfig). x.layout.chunk_size_bytes) one.0 ∙ n)
          (subst (λ (x : ℕ). x + 16384 * k < 2 ^ 64) (sym one.1) c) in
      if-holds (Spared a e) (ltb at e.capacity_bytes) _ _
        (λ low.
          if-holds (Spared a e) seen.0 _ _
            (λ more.
              subst (λ (o : ℕ). Spared a e (reclaim_from p fuel o seen.1))
                (sym (next j e n c (ltb→lt _ _ low)))
                (rest.0 ∙ one.0, rest.1 ∙ one.1, rest.2 ∙ one.2))
            (λ stop. one))
        (λ past. (refl, refl, refl))
    where
      next :
          (j : ℕ) (e : Engine)
          → e.config.layout.chunk_size_bytes ≡ 16384 * k
          → e.capacity_bytes + 16384 * k < 2 ^ 64
          → 16384 * (1 + j * k) < e.capacity_bytes
          → u64 (16384 * (1 + j * k) + e.config.layout.chunk_size_bytes) ≡ 16384 * (1 + suc j * k)
      next j e n c low = omega (arith, n, suc-mul j k)

-- Where a chunk has more than 256 extents, reclaimDeprecatedChunks leaves the first extent of every
-- chunk as it is, deprecated or not: chunk `i` starts at extent 257 + i * k, and extents 1 + j * k
-- are visited.
pub reclaim_deprecated_chunks_outside :
    (p : Platform) (fuel k i a : ℕ) (e : Engine)
    → 256 < k
    → e.config.layout.chunk_size_bytes ≡ 16384 * k
    → e.capacity_bytes + 16384 * k < 2 ^ 64
    → a / 16384 ≡ 257 + i * k
    → (reclaim_deprecated_chunks p fuel e).1.io.bytes a ≡ e.io.bytes a
unfolding reclaim_deprecated_chunks
reclaim_deprecated_chunks_outside p fuel k i a e large n c first =
    if-holds (λ (r : EngineResult × Engine). r.1.io.bytes a ≡ e.io.bytes a) e.is_open _ _
      (λ o.
        subst (λ (o : ℕ). (reclaim_from p fuel o e).io.bytes a ≡ e.io.bytes a)
          (omega (arith, zero-mul k))
          (reclaim_from-Spared p k a (apart k i a large first) fuel 0 e n c).2)
      (λ o. refl)
