-- ===== src/Compact/Reopened.antt =====
-- Blocks of a compact container from their writing to their reading after the container has been
-- sealed, closed and opened again.
use x_tdb.Base.{
  All, ℕ, ◌+◌, ◌*◌, ◌^◌, ◌≤◌, ◌<◌, ◌≡◌, refl, sym, ap, subst, ◌∙◌, arith, Bool, true, false, some,
  List, [], ◌∷◌, length, length-map, All-mono, get_elem?, Bytes, ltb, if◌then◌else◌,
}
use x_tdb.Io.{File}
use x_tdb.Compact.Structs.{CompactIndex}
use x_tdb.Compact.Files.{success, Calls}
use x_tdb.Compact.Transfer.{IsWorking}
use x_tdb.Compact.Container.{
  Compressor, CompactContainer, Checksum, Outcome, is_success, read_and_validate_header,
  read_block_indices, sealed_header, closed, close_container, open_existing, open_container,
  seal_container, BlockOut, read_block,
}
use x_tdb.Compact.Kept.{IsLossless, IsChecksum, Block, index_of, IsKept, read_block-IsKept}
use x_tdb.Compact.Written.{IsEmpty, IsEmpty-IsKept, kept_at, write_blocks, write_blocks-IsKept}
use x_tdb.Compact.Sealed.{IsSealed, seal_container_lem}
use x_tdb.Compact.Ready.{IsReady, IsBlock, write_blocks-IsReady}
use x_tdb.Compact.Reopen.{
  IsNew, headed, read_and_validate_header_lem, after_header, read_block_indices_lem, IsKept-data,
}

-- Where a block is kept, the file reaches behind the indices.
kept_room :
    (os : Calls) (crc32 : Checksum) (z : Compressor) (c : CompactContainer) (f : File)
    (kept : List (CompactIndex × Block))
    → IsKept os crc32 z c f kept
    → 1 ≤ length kept
    → 128 + length kept * 80 ≤ f.size
kept_room os crc32 z c f [] k l = absurd (omega arith)
kept_room os crc32 z c f (p ∷ kept) k l = omega (arith, k.few, k.stored.0.room)

open_container-existing :
    (os : Calls) (z : Compressor) (stats create_if_not_exists : Bool) (c c' : CompactContainer)
    (f f' : File)
    → c.is_open ≡ false
    → c.compressor ≡ some z
    → f.is_open ≡ false
    → read_and_validate_header os c (record f { is_open = true }) ≡ (success, c', f')
    → open_container os true stats create_if_not_exists c f ≡ open_existing os c' f'
unfolding open_container open_existing
open_container-existing os z stats create_if_not_exists c c' f f' o e fo h =
    ground (arith, o, e, fo, h)

open_existing-success :
    (os : Calls) (c : CompactContainer) (f : File)
    → (read_block_indices os c f).0 ≡ success
    → open_existing os c f ≡ (
      success,
      record (read_block_indices os c f).1 { is_open = true },
      (read_block_indices os c f).2,
    )
unfolding open_existing
open_existing-success os c f h = rw (ap is_success h)

module _ (os : Calls) (crc32 : Checksum) (z : Compressor) (h : IsWorking os)
    (checks : IsChecksum crc32) (c : CompactContainer) (f f' : File)
    (kept : List (CompactIndex × Block)) (v : IsReady c) (s : IsSealed os h c crc32 f f')
    (k : IsKept os crc32 z c f kept) (c₀ : CompactContainer) (new : IsNew c₀ z) where
  kept_count : length c.block_indices ≡ length kept
  kept_count = ap length k.indices ∙ length-map (index_of os crc32 z) kept

  data_kept :
      (if ltb 0 c.header.block_count then c.header.total_compressed_size else 0)
      ≡ c.current_data_offset
  data_kept = ground (arith, v.count, v.total, kept_count, k.bounded)

  open_container_lem :
      (stats create_if_not_exists : Bool)
      → let (r, c', g) = open_container os true stats create_if_not_exists c₀ (closed f') in
        (r ≡ success) × (c'.is_sealed ≡ true) × IsKept os crc32 z c' g kept
  unfolding sealed_header
  open_container_lem stats create_if_not_exists =
      let head = headed os crc32 z h checks c f f' v s c₀ in
      let header = read_and_validate_header_lem os crc32 z h checks c f f' v s c₀ in
      let same₁ = after_header os crc32 z h checks c f f' v s c₀ in
      let (ok, eq, same) =
        read_block_indices_lem os crc32 z h checks c f f' v s c₀ _ same₁ new.indices (λ l. omega (
          arith,
          kept_count,
          s.grown,
          kept_room os crc32 z c f kept k (omega (arith, kept_count)),
        )) in
      let all =
        open_container-existing os z stats create_if_not_exists c₀ head (closed f') _ new.is_open
          new.compressor refl header
        ∙ open_existing-success os head _ ok in
      subst
        (λ (r : Outcome). (r.0 ≡ success) × (r.1.is_sealed ≡ true) × IsKept os crc32 z r.1 r.2 kept)
        (sym all)
        (
          refl,
          ap (λ c'. c'.is_sealed) eq,
          IsKept-data os crc32 z c _ f _ kept k
              (λ a l.
                ap (λ (m : Bytes). m a) same.bytes ∙ s.outside a (omega (arith, kept_count, k.few)))
              (omega (arith, same.size, s.grown)) same.is_open refl (ap (λ c'. c'.block_indices) eq)
              (ap (λ c'. c'.current_data_offset) eq ∙ data_kept),
        )

close_container-sealed :
    (os : Calls) (c : CompactContainer) (f : File)
    → c.is_sealed ≡ true
    → (close_container os c f).1 ≡ closed f
unfolding close_container
close_container-sealed os c f h = ground (arith, h)

-- A new container object whose file has no block yet: blocks that fit their types are written, each
-- with success, then the container is sealed and closed, and another object opens the file. Then
-- sealing and opening succeed, the container is sealed, and readBlock at the place of a block, with a
-- buffer that is large enough, succeeds, gives the block's size and has put the block's bytes into
-- the buffer. This holds however the system calls divide the transfers, as long as none fails, if
-- the compressor gives back what it has compressed and the checksum is a uint32_t that depends on
-- the bytes alone.
pub read_block-reopened :
    (os : Calls) (crc32 : Checksum) (z : Compressor) (c c₀ : CompactContainer) (f : File)
    (bs : List Block) (i : ℕ) (b : Block) (buffer : Bytes) (buffer_size : ℕ)
    (stats create_if_not_exists : Bool)
    → IsWorking os
    → IsLossless z
    → IsChecksum crc32
    → IsEmpty os crc32 z c f
    → IsReady c
    → IsNew c₀ z
    → All IsBlock bs
    → (write_blocks os crc32 z c f bs).0 ≡ true
    → get_elem? bs i ≡ some b
    → b.size ≤ buffer_size
    → let (fine, c₁, f₁) = write_blocks os crc32 z c f bs in
      let (sealing, c₂, f₂) = seal_container os crc32 c₁ f₁ in
      let (c₃, f₃) = close_container os c₂ f₂ in
      let (opening, c₄, f₄) = open_container os true stats create_if_not_exists c₀ f₃ in
      let (r, out, actual, c₅, f₅) = read_block os crc32 z c₄ f₄ i buffer buffer_size in
      (sealing ≡ success)
      × (opening ≡ success)
      × (c₄.is_sealed ≡ true)
      × (r ≡ success)
      × (actual ≡ some b.size)
      × ((a : ℕ) → a < b.size → out a ≡ b.source a)
read_block-reopened os crc32 z c c₀ f bs i b buffer buffer_size stats create_if_not_exists h
      lossless checks v ready new fit ok at fits =
    let (fine, c₁, f₁) = write_blocks os crc32 z c f bs in
    let (kept, k, same) =
      write_blocks-IsKept os crc32 z c f [] bs lossless (IsEmpty-IsKept os crc32 z c f v)
        (All-mono IsBlock (λ b. b.size < 2 ^ 31) bs (λ b m. m.size) fit) ok in
    let ready₁ = write_blocks-IsReady os crc32 z checks c f bs ready fit ok in
    let (sealing, is_sealed, sealed) =
      seal_container_lem os h crc32 c₁ f₁ k.is_open ready₁.writable ready₁.unsealed k.open_file in
    let (r₂, c₂, f₂) = seal_container os crc32 c₁ f₁ in
    let (p, found, eq) = kept_at os crc32 z kept i b (ap (λ xs. get_elem? xs i) same ∙ at) in
    let (opening, still_sealed, k') =
      open_container_lem os crc32 z h checks c₁ f₁ f₂ kept ready₁ sealed k c₀ new stats
        create_if_not_exists in
    let (r₄, c₄, f₄) = open_container os true stats create_if_not_exists c₀ (closed f₂) in
    let read : BlockOut = read_block os crc32 z c₄ f₄ i buffer buffer_size in
    let (reading, size, bytes) =
      subst
        (λ (b' : Block).
          (read.0 ≡ success)
          × (read.2 ≡ some b'.size)
          × ((a : ℕ) → a < b'.size → read.1 a ≡ b'.source a))
        eq
        (read_block-IsKept os crc32 z c₄ f₄ kept i p buffer buffer_size h lossless checks k' found
          (omega (arith, ap (λ b'. b'.size) eq))) in
    rw (close_container-sealed os c₂ f₂ is_sealed)
      (sealing, opening, still_sealed, reading, size, bytes)
