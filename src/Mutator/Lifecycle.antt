-- ===== src/Mutator/Lifecycle.antt =====
-- The life of a chunk header under histories of StateMutator's chunk operations, failed ones
-- included.
use x_tdb.Base.{
  ℕ, ◌^◌, ◌≤◌, ◌<◌, ◌≡◌, ◌≢◌, refl, sym, subst, ap, ◌∙◌, arith, Bool, true, false, List, [], ◌∷◌,
  some, bit, Bool-cases, inl, inr,
}
use native.Mathlib.Nat.{le_refl, le_trans}
use x_tdb.Flags.{clear_bit, is_bit_set, chunk_is_sealed, chunk_is_allocated, chunk_is_deprecated}
use x_tdb.Flags.Laws.{bit-clear_bit, clear_bit-lt, is_bit_set-true, is_bit_set-false}
use x_tdb.Io.{Os, File}
use x_tdb.Structs.{ChunkHeader, chunk_header_at}
use x_tdb.Mutator.{
  MutateResult, success, mutate, seal_fields, allocate_chunk, seal_chunk, deprecate_chunk,
  mark_chunk_free,
}
use x_tdb.Mutator.Effect.{mutate-Mutated, mutate_failed, flags_in}
use x_tdb.Mutator.Chunk.{seal_chunk_lem, flag_header_lem}

-- The calls of a chunk's life.
pub data ChunkCall : Type 0 where
  allocate deprecate mark_free : ChunkCall
  seal : ℕ → ℕ → ℕ → ChunkCall

pub call_chunk : Os → File → ℕ → ChunkCall → MutateResult × File
call_chunk os f offset allocate = allocate_chunk os f offset
call_chunk os f offset deprecate = deprecate_chunk os f offset
call_chunk os f offset mark_free = mark_chunk_free os f offset
call_chunk os f offset (seal s e c) = seal_chunk os f offset s e c

-- A history of calls on one chunk, failed calls included.
pub call_chunks : Os → File → ℕ → List ChunkCall → File
call_chunks os f offset [] = f
call_chunks os f offset (c ∷ cs) = call_chunks os (call_chunk os f offset c).1 offset cs

abbrev pub chunk_call_position : ChunkCall → ℕ
chunk_call_position allocate = 2
chunk_call_position deprecate = 0
chunk_call_position mark_free = 3
chunk_call_position (seal s e c) = 1

-- Writes of an extent are done whole or not at all.
abbrev pub IsAtomic : Os → Type 0
IsAtomic os = (call k : ℕ) → os.pwrite call 16384 ≡ some k → k ≡ 16384

abbrev pub IsCall : ChunkCall → Type 0
IsCall allocate = Unit {0}
IsCall deprecate = Unit {0}
IsCall mark_free = Unit {0}
IsCall (seal s e c) = (s < 2 ^ 64) × (e < 2 ^ 64) × (c < 2 ^ 32)

-- Either nothing happened to the header, or a flag was cleared and, by a sealing of a chunk that
-- was not sealed, the seal fields were set.
pub data HeaderStep (h h' : ChunkHeader) : Type 0 where
  same : h' ≡ h → HeaderStep h h'
  cleared : (j : ℕ) → j < 32 → h' ≡ record h { flags = clear_bit h.flags j } → HeaderStep h h'
  sealed :
      (s e c : ℕ)
      → chunk_is_sealed h.flags ≡ false
      → h'
        ≡ record h { flags = clear_bit h.flags 1; start_ts_us = s; end_ts_us = e; super_crc32 = c }
      → HeaderStep h h'

abbrev pub header_of : File → ℕ → ChunkHeader
header_of f offset = chunk_header_at f.bytes offset

abbrev succeeded : MutateResult → Bool
succeeded success = true
succeeded _ = false

succeeded→success : (r : MutateResult) → succeeded r ≡ true → r ≡ success
succeeded→success r h = ground arith

failed→ne : (r : MutateResult) → succeeded r ≡ false → r ≢ success
failed→ne r h e = ground arith

module _ (os : Os) (f : File) (offset : ℕ) (atomic : IsAtomic os)
    (fits : flags_in f offset 32 < 2 ^ 32) where
  flag-HeaderStep :
      (position : ℕ) (already : ℕ → Bool)
      → position < 32
      → HeaderStep
          (header_of f offset)
          (header_of (mutate os f offset 32 position already (λ m. m)).1 offset)
  unfolding chunk_header_at
  flag-HeaderStep position already low =
      let r = mutate os f offset 32 position already (λ m. m) in
      elim (Bool-cases (succeeded r.0)) [
        | inl e ↦
            cleared position low
              (flag_header_lem os f offset position already fits (succeeded→success _ e))
        | inr e ↦ same (
            ap (λ m. chunk_header_at m offset)
              (mutate_failed os f offset 32 position already (λ m. m) atomic (failed→ne _ e)))
      ]

  seal-HeaderStep :
      (s e c : ℕ)
      → (s < 2 ^ 64) × (e < 2 ^ 64) × (c < 2 ^ 32)
      → HeaderStep (header_of f offset) (header_of (seal_chunk os f offset s e c).1 offset)
  unfolding chunk_header_at
  seal-HeaderStep s e c (hs, he, hc) =
      elim (Bool-cases (succeeded (seal_chunk os f offset s e c).0)) [
        | inl ok ↦
            sealed s e c
              (unfold seal_chunk chunk_header_at in
                (mutate-Mutated os f offset 32 1 chunk_is_sealed (seal_fields s e c) (omega arith)
                  (succeeded→success _ ok)).was_clear)
              (seal_chunk_lem os f offset s e c fits hs he hc (succeeded→success _ ok)).0
        | inr bad ↦ same (
            unfold seal_chunk in
            ap (λ m. chunk_header_at m offset)
              (mutate_failed os f offset 32 1 chunk_is_sealed (seal_fields s e c) atomic
                (failed→ne _ bad)))
      ]

  call_chunk-HeaderStep :
      (c : ChunkCall)
      → IsCall c
      → HeaderStep (header_of f offset) (header_of (call_chunk os f offset c).1 offset)
  unfolding call_chunk allocate_chunk deprecate_chunk mark_chunk_free
  call_chunk-HeaderStep allocate v = flag-HeaderStep 2 chunk_is_allocated (omega arith)
  call_chunk-HeaderStep deprecate v = flag-HeaderStep 0 chunk_is_deprecated (omega arith)
  call_chunk-HeaderStep mark_free v = flag-HeaderStep 3 (λ flags. false) (omega arith)
  call_chunk-HeaderStep (seal s e c) v = seal-HeaderStep s e c v

flags_fit :
    (os : Os) (f : File) (offset : ℕ)
    → (header_of f offset).flags < 2 ^ 32
    → flags_in f offset 32 < 2 ^ 32
unfolding chunk_header_at
flags_fit os f offset h = h

-- What every later header owes to an earlier one.
pub record Keeps (h h' : ChunkHeader) : Type 0 where
  pub fits : h'.flags < 2 ^ 32
  pub cleared_stays : (k : ℕ) → bit h'.flags k ≤ bit h.flags k
  pub sealed_stays : chunk_is_sealed h.flags ≡ true → chunk_is_sealed h'.flags ≡ true
  pub start_stays : chunk_is_sealed h.flags ≡ true → h'.start_ts_us ≡ h.start_ts_us
  pub end_stays : chunk_is_sealed h.flags ≡ true → h'.end_ts_us ≡ h.end_ts_us
  pub checksum_stays : chunk_is_sealed h.flags ≡ true → h'.super_crc32 ≡ h.super_crc32

is_sealed_bit : (flags : ℕ) → chunk_is_sealed flags ≡ true → bit flags 1 ≡ 0
is_sealed_bit flags h = is_bit_set-false flags 1 (ground arith)

bit_is_sealed : (flags : ℕ) → flags < 2 ^ 32 → bit flags 1 ≡ 0 → chunk_is_sealed flags ≡ true
bit_is_sealed flags l h = elim (Bool-cases (is_bit_set flags 1)) [
  | inl e ↦ absurd (omega (arith, is_bit_set-true flags 1 l e))
  | inr e ↦ ground (arith, e)
]

clear_bit-bits : (flags j k : ℕ) → flags < 2 ^ 32 → j < 32 → bit (clear_bit flags j) k ≤ bit flags k
clear_bit-bits flags j k l h = ground (arith, bit-clear_bit flags j k l h)

clear_bit-sealed :
    (flags j : ℕ)
    → flags < 2 ^ 32
    → j < 32
    → chunk_is_sealed flags ≡ true
    → chunk_is_sealed (clear_bit flags j) ≡ true
clear_bit-sealed flags j l h s =
    bit_is_sealed (clear_bit flags j) (clear_bit-lt flags j l)
      (omega (arith, clear_bit-bits flags j 1 l h, is_sealed_bit flags s))

Keeps-refl : (h : ChunkHeader) → h.flags < 2 ^ 32 → Keeps h h
Keeps-refl h l = record {
  fits = l;
  cleared_stays = λ k. le_refl _;
  sealed_stays = λ s. s;
  start_stays = λ s. refl;
  end_stays = λ s. refl;
  checksum_stays = λ s. refl;
}

HeaderStep-Keeps : (h h' : ChunkHeader) → h.flags < 2 ^ 32 → HeaderStep h h' → Keeps h h'
HeaderStep-Keeps h h' l (same e) = subst (Keeps h) (sym e) (Keeps-refl h l)
HeaderStep-Keeps h h' l (cleared j low e) = subst (Keeps h) (sym e) (record {
  fits = clear_bit-lt h.flags j l;
  cleared_stays = λ k. clear_bit-bits h.flags j k l low;
  sealed_stays = clear_bit-sealed h.flags j l low;
  start_stays = λ s. refl;
  end_stays = λ s. refl;
  checksum_stays = λ s. refl;
})
HeaderStep-Keeps h h' l (sealed s e c open_chunk eq) = subst (Keeps h) (sym eq) (record {
  fits = clear_bit-lt h.flags 1 l;
  cleared_stays = λ k. clear_bit-bits h.flags 1 k l (omega arith);
  sealed_stays = clear_bit-sealed h.flags 1 l (omega arith);
  start_stays = λ q. absurd (ground (arith, open_chunk, q));
  end_stays = λ q. absurd (ground (arith, open_chunk, q));
  checksum_stays = λ q. absurd (ground (arith, open_chunk, q));
})

Keeps-trans : (a b c : ChunkHeader) → Keeps a b → Keeps b c → Keeps a c
Keeps-trans a b c p q = record {
  fits = q.fits;
  cleared_stays = λ k. le_trans (q.cleared_stays k) (p.cleared_stays k);
  sealed_stays = λ s. q.sealed_stays (p.sealed_stays s);
  start_stays = λ s. q.start_stays (p.sealed_stays s) ∙ p.start_stays s;
  end_stays = λ s. q.end_stays (p.sealed_stays s) ∙ p.end_stays s;
  checksum_stays = λ s. q.checksum_stays (p.sealed_stays s) ∙ p.checksum_stays s;
}

abbrev pub AreCalls : List ChunkCall → Type 0
AreCalls [] = Unit {0}
AreCalls (c ∷ cs) = IsCall c × AreCalls cs

-- Any history of chunk operations on one chunk, failed ones included, never turns a flag from 0 to
-- 1, and once the chunk is sealed it stays sealed with the same timestamps and checksum. Writes
-- are assumed to be done whole or not at all.
pub call_chunks-Keeps :
    (os : Os) (f : File) (offset : ℕ) (cs : List ChunkCall)
    → IsAtomic os
    → (header_of f offset).flags < 2 ^ 32
    → AreCalls cs
    → Keeps (header_of f offset) (header_of (call_chunks os f offset cs) offset)
unfolding call_chunks
call_chunks-Keeps os f offset [] atomic l v = Keeps-refl (header_of f offset) l
call_chunks-Keeps os f offset (c ∷ cs) atomic l (v, vs) =
    let f' = (call_chunk os f offset c).1 in
    let k =
      HeaderStep-Keeps (header_of f offset) (header_of f' offset) l
        (call_chunk-HeaderStep os f offset atomic (flags_fit os f offset l) c v) in
    Keeps-trans (header_of f offset) (header_of f' offset) _ k
      (call_chunks-Keeps os f' offset cs atomic k.fits vs)
