-- ===== src/Compact/Written.antt =====
-- Sequences of blocks written to a compact container.
use x_tdb.Base.{
  All, ℕ, zero, suc, inl, inr, ◌+◌, ◌%◌, ◌^◌, ◌≤◌, ◌<◌, ◌≡◌, refl, sym, ap, subst, ◌∙◌, arith, Bool,
  true, false, some, List, [], ◌∷◌, ◌++◌, map, length, length-append, length-map, All-append,
  All-mono, get_elem?, Bool-cases, Bytes, if◌then◌else◌,
}
use mathlib.Core.List.{map-append, append_assoc, append-nil}
use x_tdb.Io.{File}
use x_tdb.Compact.Structs.{CompactIndex}
use x_tdb.Compact.Files.{ContainerResult, success, Calls, write_file}
use x_tdb.Compact.Transfer.{IsWorking, Holds, write_file_lem}
use x_tdb.Compact.Container.{
  Compressor, CompactContainer, is_success, Checksum, new_index, file_offset, store_block,
  read_block,
}
use x_tdb.Compact.Kept.{
  IsLossless, IsChecksum, Block, data_start, Stored, index_of, block_of, IsKept, IsStored-kept,
  IsStored-new, read_block-IsKept, write, write_block_lem,
}

pub is_success→success : (r : ContainerResult) → is_success r ≡ true → r ≡ success
is_success→success r h = ground arith

module _ (os : Calls) (crc32 : Checksum) (z : Compressor) where
  write_block-IsKept :
      (c : CompactContainer) (f : File) (kept : List (CompactIndex × Block)) (b : Block)
      → IsLossless z
      → IsKept os crc32 z c f kept
      → b.size < 2 ^ 31
      → (write os crc32 z c f b).0 ≡ success
      → let (r, c', f') = write os crc32 z c f b in
        (e : CompactIndex) × IsKept os crc32 z c' f' (kept ++ (e, b) ∷ [])
  unfolding store_block
  write_block-IsKept c f kept b lossless k small ok =
      let (x, n, compressed, fine, room, pos, eq) = write_block_lem os crc32 z c f b ok in
      let end = c.current_data_offset in
      let f' = (write_file os c.read_only f x n (file_offset end)).1 in
      let e = new_index crc32 b.meta b.source b.size n end in
      let count : length c.block_indices ≡ length kept =
        ap length k.indices ∙ length-map (index_of os crc32 z) kept in
      let at : file_offset end ≡ data_start + end = omega (arith, k.bounded, k.few) in
      let width = lossless.bounded b.source x b.size n compressed small in
      let holds : Holds f x 0 n (data_start + end) f' =
        subst (λ o. Holds f x 0 n o f') at
          (write_file_lem os c.read_only f x n (file_offset end) fine) in
      let next : (end + n) % 2 ^ 64 ≡ end + n = omega (arith, k.bounded, k.few, width) in
      let longer = length-append kept ((e, b) ∷ []) in
      (
        e,
        rw (eq, ap is_success fine)
            (record {
              indices =
                  ap (λ es. es ++ e ∷ []) k.indices
                  ∙ sym (map-append (index_of os crc32 z) kept ((e, b) ∷ []));
              stored =
                  subst (λ p. All (Stored os crc32 z f' p) (kept ++ (e, b) ∷ [])) (sym next)
                    (All-append (Stored os crc32 z f' (end + n)) kept (e, b)
                      (All-mono (Stored os crc32 z f end) (Stored os crc32 z f' (end + n)) kept
                        (λ p s. IsStored-kept os crc32 z f f' x n end p.0 p.1 holds s) k.stored)
                      (IsStored-new os crc32 z f f' x n end b compressed width
                        (lossless.some_bytes b.source x b.size n compressed pos) holds));
              few = omega (arith, longer, room, count);
              bounded = omega (arith, longer, next, k.bounded, width);
              is_open = k.is_open;
              open_file = holds.is_open ∙ k.open_file;
            }),
      )

  -- Blocks written one after another, for as long as each succeeds.
  unfoldable pub write_blocks :
      CompactContainer → File → List Block → Bool × CompactContainer × File
  write_blocks c f [] = (true, c, f)
  write_blocks c f (b ∷ bs) =
      let (r, c', f') = write os crc32 z c f b in
      let rest = write_blocks c' f' bs in if is_success r then rest else (false, c', f')

  pub write_blocks-IsKept :
      (c : CompactContainer) (f : File) (kept : List (CompactIndex × Block)) (bs : List Block)
      → IsLossless z
      → IsKept os crc32 z c f kept
      → All (λ b. b.size < 2 ^ 31) bs
      → (write_blocks c f bs).0 ≡ true
      → let (fine, c', f') = write_blocks c f bs in
        (kept' : List (CompactIndex × Block)) × IsKept os crc32 z c' f' kept'
        × (map (block_of os crc32 z) kept' ≡ map (block_of os crc32 z) kept ++ bs)
  unfolding write_blocks
  write_blocks-IsKept c f kept [] lossless k small ok =
      (kept, k, sym (append-nil (map (block_of os crc32 z) kept)))
  write_blocks-IsKept c f kept (b ∷ bs) lossless k small ok =
      let (r, c', f') = write os crc32 z c f b in
      elim (Bool-cases (is_success r)) [
        | inl fine ↦
            let (e, k') =
              write_block-IsKept c f kept b lossless k small.0 (is_success→success r fine) in
            let rest : (write_blocks c' f' bs).0 ≡ true = ground (arith, fine) in
            let (kept', k'', same) =
              write_blocks-IsKept c' f' (kept ++ (e, b) ∷ []) bs lossless k' small.1 rest in
            rw fine (
              kept',
              k'',
              same
                  ∙ ap (λ xs. xs ++ bs) (map-append (block_of os crc32 z) kept ((e, b) ∷ []))
                  ∙ append_assoc (map (block_of os crc32 z) kept) (b ∷ []) bs,
            )
        | inr failed ↦ absurd (ground (arith, failed))
      ]

  -- A container that is open and has no block yet.
  pub record IsEmpty (c : CompactContainer) (f : File) : Type 0 where
    pub indices : c.block_indices ≡ []
    pub offset : c.current_data_offset ≡ 0
    pub is_open : c.is_open ≡ true
    pub open_file : f.is_open ≡ true

  pub IsEmpty-IsKept : (c : CompactContainer) (f : File) → IsEmpty c f → IsKept os crc32 z c f []
  IsEmpty-IsKept c f v = record {
    indices = v.indices;
    stored = tt;
    few = omega arith;
    bounded = omega (arith, v.offset);
    is_open = v.is_open;
    open_file = v.open_file;
  }

  -- The block at a place of the list is kept at the same place.
  pub kept_at :
      (kept : List (CompactIndex × Block)) (i : ℕ) (b : Block)
      → get_elem? (map (block_of os crc32 z) kept) i ≡ some b
      → (p : CompactIndex × Block) × (get_elem? kept i ≡ some p) × (block_of os crc32 z p ≡ b)
  kept_at [] i b h = absurd (cc h)
  kept_at (p ∷ kept) zero b h = (p, refl, cc h)
  kept_at (p ∷ kept) (suc i) b h = kept_at kept i b h

  -- Blocks below 2^31 bytes that are written to an open container with no block yet, each with
  -- success, can all be read: readBlock at the place of a block, with a buffer that is large enough,
  -- succeeds, gives the block's size and has put the block's bytes into the buffer. This holds
  -- however the system calls divide the transfers, as long as none fails, if the compressor gives
  -- back what it has compressed and the checksum depends on the bytes alone.
  pub read_block-write_blocks :
      (c : CompactContainer) (f : File) (bs : List Block) (i : ℕ) (b : Block) (buffer : Bytes)
      (buffer_size : ℕ)
      → IsWorking os
      → IsLossless z
      → IsChecksum crc32
      → IsEmpty c f
      → All (λ b. b.size < 2 ^ 31) bs
      → (write_blocks c f bs).0 ≡ true
      → get_elem? bs i ≡ some b
      → b.size ≤ buffer_size
      → let (fine, c', f') = write_blocks c f bs in
        let (r, out, actual, c'', f'') = read_block os crc32 z c' f' i buffer buffer_size in
        (r ≡ success) × (actual ≡ some b.size) × ((a : ℕ) → a < b.size → out a ≡ b.source a)
  read_block-write_blocks c f bs i b buffer buffer_size h lossless checks v small ok at fits =
      let (fine, c', f') = write_blocks c f bs in
      let (kept, k, same) =
        write_blocks-IsKept c f [] bs lossless (IsEmpty-IsKept c f v) small ok in
      let (p, found, eq) = kept_at kept i b (ap (λ xs. get_elem? xs i) same ∙ at) in
      let (r, out, actual, c'', f'') = read_block os crc32 z c' f' i buffer buffer_size in
      subst
        (λ (b' : Block).
          (r ≡ success) × (actual ≡ some b'.size) × ((a : ℕ) → a < b'.size → out a ≡ b'.source a))
        eq
        (read_block-IsKept os crc32 z c' f' kept i p buffer buffer_size h lossless checks k found
          (omega (arith, ap (λ b'. b'.size) eq)))
