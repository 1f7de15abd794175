-- ===== src/Compact/Reopen.antt =====
-- A compact container that has been sealed and closed, and is opened again.
use x_tdb.Base.{
  All, ℕ, ◌+◌, ◌-◌, ◌*◌, ◌≤◌, ◌≡◌, inl, inr, refl, sym, ap, subst, ◌∙◌, arith, true, false, some,
  List, [], ◌∷◌, length, All-mono, Bool-cases, Bytes, copy_inside, ltb, ◌==◌, ==→eq, if◌then◌else◌,
}
use x_tdb.Io.{File}
use x_tdb.Io.Laws.{SameContent}
use x_tdb.Compact.Structs.{CompactHeader, header_at, header_bytes, CompactIndex, validate_header}
use x_tdb.Compact.Structs.RoundTrip.{header_at-copied}
use x_tdb.Compact.Files.{success, Calls, read_file}
use x_tdb.Compact.Transfer.{IsWorking, read_file_lem}
use x_tdb.Compact.Container.{
  Compressor, CompactContainer, is_success, Checksum, indices_at, sealed_header,
  read_and_validate_header, read_block_indices,
}
use x_tdb.Compact.Kept.{IsChecksum, Block, data_start, Stored, IsKept}
use x_tdb.Compact.Sealed.{HasIndices-ext, indices_at-HasIndices, IsSealed}
use x_tdb.Compact.Ready.{IsReady, sealed_header-IsCompactHeader}

-- A container object as the constructor leaves it.
pub record IsNew (c : CompactContainer) (z : Compressor) : Type 0 where
  pub compressor : c.compressor ≡ some z
  pub is_open : c.is_open ≡ false
  pub indices : c.block_indices ≡ []

sealed_valid :
    (crc32 : Checksum) (c : CompactContainer)
    → IsReady c
    → validate_header (sealed_header crc32 c.header) ≡ true
unfolding validate_header sealed_header
sealed_valid crc32 c v = ground (arith, v.magic, v.version, v.header_size)

length-zero : (es : List CompactIndex) → length es ≡ 0 → es ≡ []
length-zero [] h = refl
length-zero (e ∷ es) h = absurd (omega arith)

module _ (os : Calls) (crc32 : Checksum) (z : Compressor) (h : IsWorking os)
    (checks : IsChecksum crc32) (c : CompactContainer) (f f' : File) (v : IsReady c)
    (s : IsSealed os h c crc32 f f') (c₀ : CompactContainer) where
  -- The file that is opened again.
  abbrev pub opened : File
  opened = record f' { is_open = true }

  abbrev pub sealed : CompactHeader
  sealed = sealed_header crc32 c.header

  -- The object once it has the header.
  abbrev pub headed : CompactContainer
  headed = record c₀ {
    header = sealed;
    is_sealed = true;
    current_data_offset = if ltb 0 sealed.block_count then sealed.total_compressed_size else 0;
  }

  header_read : header_at (read_file os opened (header_bytes c₀.header) 128 0).1 0 ≡ sealed
  header_read =
      let (ok, got, same) =
        read_file_lem os opened (header_bytes c₀.header) 128 0 h refl (omega (arith, s.room)) in
      header_at-copied (read_file os opened (header_bytes c₀.header) 128 0).1 0 sealed
        (sealed_header-IsCompactHeader os crc32 z checks c.header v.header).0
        (λ a l.
          got (0 + a)
          ∙ copy_inside (header_bytes c₀.header) 0 f'.bytes 0 128 (0 + a) (omega arith)
              (omega arith)
          ∙ ap f'.bytes {x = 0 + (0 + a - 0)} {y = a} (omega arith)
          ∙ s.header a l)

  pub read_and_validate_header_lem :
      read_and_validate_header os c₀ opened
      ≡ (success, headed, (read_file os opened (header_bytes c₀.header) 128 0).2)
  unfolding read_and_validate_header
  read_and_validate_header_lem =
      let (ok, got, same) =
        read_file_lem os opened (header_bytes c₀.header) 128 0 h refl (omega (arith, s.room)) in
      let flagged = (sealed_header-IsCompactHeader os crc32 z checks c.header v.header).1 in
      rw (ok, header_read, sealed_valid crc32 c v, flagged) refl

  -- The file is the same after the header has been read.
  pub after_header : SameContent opened (read_file os opened (header_bytes c₀.header) 128 0).2
  after_header =
      (read_file_lem os opened (header_bytes c₀.header) 128 0 h refl (omega (arith, s.room))).2

  -- The indices are read from any file of this content, and nothing else changes.
  pub read_block_indices_lem :
      (g : File)
      → SameContent opened g
      → c₀.block_indices ≡ []
      → (1 ≤ length c.block_indices → 128 + length c.block_indices * 80 ≤ f'.size)
      → let (r, c', g') = read_block_indices os headed g in
        (r ≡ success)
        × (c' ≡ record headed { block_indices = c.block_indices })
        × SameContent opened g'
  unfolding read_block_indices sealed_header
  read_block_indices_lem g same new room =
      let n = length c.block_indices in
      let count : sealed.block_count ≡ n = v.count in
      elim (Bool-cases (n == 0)) [
        | inl none_kept ↦
            let empty = length-zero c.block_indices (==→eq n 0 none_kept) in
            let zero_count : (c.header.block_count == 0) ≡ true = rw v.count none_kept in
            rw zero_count
              (refl, ap (λ es. record headed { block_indices = es }) (new ∙ sym empty), same)
        | inr some_kept ↦
            let (ok, got, same') =
              read_file_lem os g (λ a. 0) (n * 80) 128 h same.is_open
                (omega (arith, same.size, room (ground arith))) in
            let m = (read_file os g (λ a. 0) (n * 80) 128).1 in
            let back : indices_at n m 0 ≡ c.block_indices =
              indices_at-HasIndices m 0 c.block_indices v.indices (
                HasIndices-ext f'.bytes m 128 0 c.block_indices
                  (λ a l.
                    got (0 + a)
                    ∙ copy_inside (λ a. 0) 0 g.bytes 128 (n * 80) (0 + a) (omega arith)
                        (omega arith)
                    ∙ ap (λ (b : Bytes). b (128 + (0 + a - 0))) same.bytes
                    ∙ ap f'.bytes {x = 128 + (0 + a - 0)} {y = 128 + a} (omega arith))
                  s.indices) in
            rw (v.count, some_kept, ap is_success ok, back)
              (
                refl,
                refl,
                record {
                  bytes = same'.bytes ∙ same.bytes;
                  size = same'.size ∙ same.size;
                  is_open = same'.is_open ∙ same.is_open;
                },
              )
      ]

-- A container that keeps its blocks in a file keeps them in any file that has the same data.
pub IsKept-data :
    (os : Calls) (crc32 : Checksum) (z : Compressor) (c c' : CompactContainer) (f g : File)
    (kept : List (CompactIndex × Block))
    → IsKept os crc32 z c f kept
    → ((a : ℕ) → data_start ≤ a → g.bytes a ≡ f.bytes a)
    → f.size ≤ g.size
    → g.is_open ≡ true
    → c'.is_open ≡ true
    → c'.block_indices ≡ c.block_indices
    → c'.current_data_offset ≡ c.current_data_offset
    → IsKept os crc32 z c' g kept
IsKept-data os crc32 z c c' f g kept k same grown go co indices offset = record {
  indices = indices ∙ k.indices;
  stored =
      subst (λ end. All (Stored os crc32 z g end) kept) (sym offset)
        (All-mono (Stored os crc32 z f c.current_data_offset)
          (Stored os crc32 z g c.current_data_offset) kept
          (λ p s. record {
            x = s.x;
            compressed = s.compressed;
            cells = λ a l. same (data_start + (p.0).data_offset + a) (omega arith) ∙ s.cells a l;
            below = s.below;
            room = omega (arith, s.room, grown);
            original_size = s.original_size;
            block_crc32 = s.block_crc32;
          })
          k.stored);
  few = k.few;
  bounded = omega (arith, offset, k.bounded);
  is_open = co;
  open_file = go;
}
