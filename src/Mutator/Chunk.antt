-- ===== src/Mutator/Chunk.antt =====
-- Chunk headers under the mutations of src/state_mutator.cpp: what each operation writes.
use x_tdb.Base.{
  ℕ, ◌+◌, ◌-◌, ◌^◌, ◌≤◌, ◌<◌, ◌≡◌, ◌⊎◌, refl, ap, ◌∙◌, arith, Bool, List, [], ◌∷◌, store_outside,
  Bytes, load, store,
}
use x_tdb.Flags.{clear_bit, chunk_is_sealed}
use x_tdb.Flags.Laws.{clear_bit-lt}
use x_tdb.Io.{Os, File}
use x_tdb.Structs.{ChunkHeader, chunk_header_at, store_fields}
use x_tdb.Structs.RoundTrip.{chunk_header_shift, load_field, load_apart}
use x_tdb.Mutator.{success, mutate, seal_fields, seal_chunk}
use x_tdb.Mutator.Effect.{
  cells_at, flags_in, load-cells_at, Mutated, mutate-Mutated, Mutated-load, Mutated-byte,
}

-- The fields that sealing stores, with the flags.
abbrev sealed_fields : ℕ → ℕ → ℕ → ℕ → List (ℕ × ℕ × ℕ)
sealed_fields flags s e c = (68, 4, c) ∷ (60, 8, e) ∷ (52, 8, s) ∷ (32, 4, flags) ∷ []

sealed_header :
    (m : Bytes) (flags s e c : ℕ)
    → flags < 256 ^ 4
    → s < 256 ^ 8
    → e < 256 ^ 8
    → c < 256 ^ 4
    → chunk_header_at (seal_fields s e c (store m 32 4 flags)) 0 ≡ record (chunk_header_at m 0) {
      flags = flags;
      start_ts_us = s;
      end_ts_us = e;
      super_crc32 = c;
    }
unfolding chunk_header_at store_fields
sealed_header m flags s e c hf hs he hc = λ i. record {
  magic = load_apart (sealed_fields flags s e c) m 0 8 refl i;
  version = load_apart (sealed_fields flags s e c) m 8 2 refl i;
  header_size = load_apart (sealed_fields flags s e c) m 10 2 refl i;
  db_instance_id = load_apart (sealed_fields flags s e c) m 12 16 refl i;
  chunk_id = load_apart (sealed_fields flags s e c) m 28 4 refl i;
  flags = load_field (sealed_fields flags s e c) m 32 4 flags refl hf i;
  chunk_size_extents = load_apart (sealed_fields flags s e c) m 36 4 refl i;
  block_size_extents = load_apart (sealed_fields flags s e c) m 40 4 refl i;
  meta_blocks = load_apart (sealed_fields flags s e c) m 44 4 refl i;
  data_blocks = load_apart (sealed_fields flags s e c) m 48 4 refl i;
  start_ts_us = load_field (sealed_fields flags s e c) m 52 8 s refl hs i;
  end_ts_us = load_field (sealed_fields flags s e c) m 60 8 e refl he i;
  super_crc32 = load_field (sealed_fields flags s e c) m 68 4 c refl hc i;
  reserved0 = load_apart (sealed_fields flags s e c) m 72 4 refl i;
  padding = load_apart (sealed_fields flags s e c) m 76 52 refl i;
}

flagged_header :
    (m : Bytes) (flags : ℕ)
    → flags < 256 ^ 4
    → chunk_header_at (store m 32 4 flags) 0 ≡ record (chunk_header_at m 0) { flags = flags }
unfolding chunk_header_at store_fields
flagged_header m flags hf = λ i. record {
  magic = load_apart ((32, 4, flags) ∷ []) m 0 8 refl i;
  version = load_apart ((32, 4, flags) ∷ []) m 8 2 refl i;
  header_size = load_apart ((32, 4, flags) ∷ []) m 10 2 refl i;
  db_instance_id = load_apart ((32, 4, flags) ∷ []) m 12 16 refl i;
  chunk_id = load_apart ((32, 4, flags) ∷ []) m 28 4 refl i;
  flags = load_field ((32, 4, flags) ∷ []) m 32 4 flags refl hf i;
  chunk_size_extents = load_apart ((32, 4, flags) ∷ []) m 36 4 refl i;
  block_size_extents = load_apart ((32, 4, flags) ∷ []) m 40 4 refl i;
  meta_blocks = load_apart ((32, 4, flags) ∷ []) m 44 4 refl i;
  data_blocks = load_apart ((32, 4, flags) ∷ []) m 48 4 refl i;
  start_ts_us = load_apart ((32, 4, flags) ∷ []) m 52 8 refl i;
  end_ts_us = load_apart ((32, 4, flags) ∷ []) m 60 8 refl i;
  super_crc32 = load_apart ((32, 4, flags) ∷ []) m 68 4 refl i;
  reserved0 = load_apart ((32, 4, flags) ∷ []) m 72 4 refl i;
  padding = load_apart ((32, 4, flags) ∷ []) m 76 52 refl i;
}

-- The header in the file, before and after a mutation.
module _ (os : Os) (f f' : File) (offset position : ℕ) (already : ℕ → Bool) (patch : Bytes → Bytes)
    (v : Mutated os f offset 32 position already patch f') where
  header_after :
      chunk_header_at f'.bytes offset
      ≡ chunk_header_at
          (patch (store (cells_at os f offset) 32 4 (clear_bit (flags_in f offset 32) position)))
          0
  header_after = chunk_header_shift f'.bytes _ offset 0 λ i k h.
      Mutated-load os f f' offset 32 position already patch v i k (omega arith)
      ∙ ap
          (λ (q : ℕ).
            load
              (patch
                (store (cells_at os f offset) 32 4 (clear_bit (flags_in f offset 32) position)))
              q k)
          (omega arith)

pub header_before :
    (os : Os) (f : File) (offset : ℕ)
    → chunk_header_at (cells_at os f offset) 0 ≡ chunk_header_at f.bytes offset
header_before os f offset = chunk_header_shift (cells_at os f offset) f.bytes 0 offset λ i k h.
    ap (λ (q : ℕ). load (cells_at os f offset) q k) {x = 0 + i} {y = i} (omega arith)
    ∙ load-cells_at os f offset i k (omega arith)

-- A sealing that succeeds clears the sealed bit and stores the timestamps and the checksum; every
-- other field of the header, and every byte of the file outside these fields, stays as it was.
pub seal_chunk_lem :
    (os : Os) (f : File) (offset s e c : ℕ)
    → flags_in f offset 32 < 2 ^ 32
    → s < 2 ^ 64
    → e < 2 ^ 64
    → c < 2 ^ 32
    → (seal_chunk os f offset s e c).0 ≡ success
    → let f' = (seal_chunk os f offset s e c).1 in
      (chunk_header_at f'.bytes offset ≡ record (chunk_header_at f.bytes offset) {
        flags = clear_bit (flags_in f offset 32) 1;
        start_ts_us = s;
        end_ts_us = e;
        super_crc32 = c;
      })
      × ((a : ℕ)
          → (a < offset + 32) ⊎ ((offset + 36 ≤ a) × (a < offset + 52)) ⊎ (offset + 72 ≤ a)
          → f'.bytes a ≡ f.bytes a)
unfolding seal_chunk
seal_chunk_lem os f offset s e c hf hs he hc h =
    let v = mutate-Mutated os f offset 32 1 chunk_is_sealed (seal_fields s e c) (omega arith) h in
    (
      header_after os f _ offset 1 chunk_is_sealed (seal_fields s e c) v
          ∙ sealed_header (cells_at os f offset) _ s e c (clear_bit-lt _ 1 hf) hs he hc
          ∙ ap
              (λ (k : ChunkHeader). record k {
                flags = clear_bit (flags_in f offset 32) 1;
                start_ts_us = s;
                end_ts_us = e;
                super_crc32 = c;
              })
              (header_before os f offset),
      λ a apart.
          Mutated-byte os f _ offset 32 1 chunk_is_sealed (seal_fields s e c) v a
            (λ m.
              store_outside _ 68 4 c (a - offset) (ground arith)
              ∙ store_outside _ 60 8 e (a - offset) (ground arith)
              ∙ store_outside m 52 8 s (a - offset) (ground arith))
            (ground arith),
    )

-- The other three mutations of a chunk change the flags alone.
module _ (os : Os) (f : File) (offset position : ℕ) (already : ℕ → Bool) where
  pub flag_header_lem :
      flags_in f offset 32 < 2 ^ 32
      → (mutate os f offset 32 position already (λ m. m)).0 ≡ success
      → chunk_header_at (mutate os f offset 32 position already (λ m. m)).1.bytes offset
        ≡ record (chunk_header_at f.bytes offset) {
          flags = clear_bit (flags_in f offset 32) position;
        }
  flag_header_lem hf h =
      let v = mutate-Mutated os f offset 32 position already (λ m. m) (omega arith) h in
      header_after os f _ offset position already (λ m. m) v
      ∙ flagged_header (cells_at os f offset) _ (clear_bit-lt _ position hf)
      ∙ ap (λ (k : ChunkHeader). record k { flags = clear_bit (flags_in f offset 32) position })
          (header_before os f offset)
