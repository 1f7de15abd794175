-- ===== src/Directory/RoundTrip.antt =====
-- DirectoryBuilder's load after its writeDirectory.
use x_tdb.Base.{
  ℕ, zero, suc, ◌+◌, ◌-◌, ◌*◌, ◌%◌, ◌≤◌, ◌≡◌, inl, inr, refl, sym, ap, ap₂, ◌∙◌, arith, true, List,
  [], ◌∷◌, length, Bytes, load, load-copy, load-copy_ne,
}
use x_tdb.Layout.Units.{u32}
use x_tdb.Io.{IoResult, Os, File, Buffer, aligned_buffer, read, write}
use x_tdb.Io.Laws.{
  IsReliable, read-SameContent, read-success, read_succeeds, Writes, write-success, write_succeeds,
  aligned_buffer-address,
}
use x_tdb.Structs.{BlockDirEntry, IsEntry, entry_bytes, chunk_header_at}
use x_tdb.Structs.RoundTrip.{entry_at-bytes, entry_shift, chunk_header_shift}
use x_tdb.Mutator.{io_ok}
use x_tdb.Seal.Scanner.{entries_at, meta_region_size}
use x_tdb.Directory.{
  DirBuildResult, DirectoryBuilder, open_builder, store_entries, load_directory, write_directory,
  count_sealed,
}
use x_tdb.Directory.Count.{IsBuilder, count_sealed-le}

abbrev pub AllEntries : List BlockDirEntry → Type 0
AllEntries [] = Unit {0}
AllEntries (e ∷ es) = IsEntry e × AllEntries es

-- In front of the entries nothing is written.
load-store_entries_before :
    (es : List BlockDirEntry) (m : Bytes) (p q k : ℕ)
    → q + k ≤ p
    → load (store_entries es m p) q k ≡ load m q k
unfolding store_entries
load-store_entries_before [] m p q k h = refl
load-store_entries_before (e ∷ es) m p q k h =
    load-copy_ne (store_entries es m (p + 64)) p (entry_bytes e) 0 64 q k (inl h)
    ∙ load-store_entries_before es m (p + 64) q k (omega arith)

entries_at-shift :
    (n : ℕ) (m k : Bytes) (p q : ℕ)
    → ((i w : ℕ) → i + w ≤ 64 * n → load m (p + i) w ≡ load k (q + i) w)
    → entries_at n m p ≡ entries_at n k q
unfolding entries_at
entries_at-shift zero m k p q h = refl
entries_at-shift (suc n) m k p q h =
    ap₂ (λ (e : BlockDirEntry) (es : List BlockDirEntry). e ∷ es)
      (entry_shift m k p q (λ i w l. h i w (omega arith)))
      (entries_at-shift n m k (p + 64) (q + 64) (λ i w l.
        ap (λ (a : ℕ). load m a w) {x = p + 64 + i} {y = p + (64 + i)} (omega arith)
        ∙ h (64 + i) w (omega arith)
        ∙ ap (λ (a : ℕ). load k a w) {x = q + (64 + i)} {y = q + 64 + i} (omega arith)))

-- The entries that are copied into memory are read back.
entries_at-store_entries :
    (es : List BlockDirEntry) (m : Bytes) (p : ℕ)
    → AllEntries es
    → entries_at (length es) (store_entries es m p) p ≡ es
unfolding entries_at store_entries
entries_at-store_entries [] m p v = refl
entries_at-store_entries (e ∷ es) m p v =
    ap₂ (λ (x : BlockDirEntry) (xs : List BlockDirEntry). x ∷ xs)
      (entry_shift _ (entry_bytes e) p 0 (λ i k h.
          load-copy (store_entries es m (p + 64)) p (entry_bytes e) 0 64 (p + i) k (omega arith)
            (omega arith)
          ∙ ap (λ (a : ℕ). load (entry_bytes e) a k) {x = 0 + (p + i - p)} {y = 0 + i}
              (omega arith))
        ∙ entry_at-bytes e v.0)
      (entries_at-shift (length es) _ (store_entries es m (p + 64)) (p + 64) (p + 64) (λ i k h.
          load-copy_ne (store_entries es m (p + 64)) p (entry_bytes e) 0 64 (p + 64 + i) k
            (inr (omega arith)))
        ∙ entries_at-store_entries es m (p + 64) v.1)

-- The meta blocks lie in the file and hold the header and the entries.
pub record HasRoom (b : DirectoryBuilder) (f : File) : Type 0 where
  pub is_open : f.is_open ≡ true
  pub chunk_aligned : b.chunk_offset % 16384 ≡ 0
  pub block_aligned : meta_region_size b.layout % 16384 ≡ 0
  pub fits : 128 + 64 * b.layout.data_blocks ≤ meta_region_size b.layout
  pub room : b.chunk_offset + meta_region_size b.layout ≤ f.size

-- What writeDirectory leaves in the file.
module _ (os : Os) (b : DirectoryBuilder) (f : File) (r : IsReliable os) (v : IsBuilder b)
    (h : HasRoom b f) where
  abbrev region : ℕ
  region = meta_region_size b.layout

  abbrev fetched : IoResult × Buffer × File
  fetched = read os f (aligned_buffer os region) region b.chunk_offset

  fetched_ok : fetched.0 ≡ IoResult.success
  fetched_ok =
      read_succeeds os f (aligned_buffer os region) region b.chunk_offset r h.is_open
        (aligned_buffer-address os region) h.block_aligned h.chunk_aligned h.room

  abbrev filled : Buffer
  filled = record fetched.1 { cells = store_entries b.entries fetched.1.cells 128 }

  abbrev saved : IoResult × File
  saved = write os fetched.2 filled region b.chunk_offset

  saved_ok : saved.0 ≡ IoResult.success
  saved_ok =
      write_succeeds os fetched.2 filled region b.chunk_offset r
        ((read-SameContent os f (aligned_buffer os region) region b.chunk_offset).is_open
          ∙ h.is_open)
        (ap (λ (a : ℕ). a % 16384)
            (read-success os f (aligned_buffer os region) region b.chunk_offset fetched_ok).address
          ∙ aligned_buffer-address os region)
        h.block_aligned h.chunk_aligned

  write_directory_lem :
      ((write_directory os b f).0 ≡ DirBuildResult.success) × ((write_directory os b f).1 ≡ saved.1)
  unfolding write_directory
  write_directory_lem =
      let e₀ = ap io_ok fetched_ok in let e₁ = ap io_ok saved_ok in ground (arith, e₀, e₁)

  saved_Writes : Writes fetched.2 filled region b.chunk_offset saved.1
  saved_Writes = write-success os fetched.2 filled region b.chunk_offset saved_ok

  saved_load :
      (q k : ℕ) → q + k ≤ region → load saved.1.bytes (b.chunk_offset + q) k ≡ load filled.cells q k
  saved_load q k l =
      ap (λ (m : Bytes). load m (b.chunk_offset + q) k) saved_Writes.bytes
      ∙ load-copy fetched.2.bytes b.chunk_offset filled.cells 0 region (b.chunk_offset + q) k
          (omega arith) (omega arith)
      ∙ ap (λ (a : ℕ). load filled.cells a k) (omega arith)

  fetched_load :
      (q k : ℕ) → q + k ≤ region → load fetched.1.cells q k ≡ load f.bytes (b.chunk_offset + q) k
  fetched_load q k l =
      ap (λ (m : Bytes). load m q k)
        (read-success os f (aligned_buffer os region) region b.chunk_offset fetched_ok).cells
      ∙ load-copy (aligned_buffer os region).cells 0 f.bytes b.chunk_offset region q k (omega arith)
          (omega arith)
      ∙ ap (λ (a : ℕ). load f.bytes a k) (omega arith)

  header_kept :
      chunk_header_at saved.1.bytes b.chunk_offset ≡ chunk_header_at f.bytes b.chunk_offset
  header_kept = chunk_header_shift saved.1.bytes f.bytes b.chunk_offset b.chunk_offset λ i k l.
      saved_load i k (omega (arith, h.fits))
      ∙ load-store_entries_before b.entries fetched.1.cells 128 i k l
      ∙ fetched_load i k (omega (arith, h.fits))

  -- A load from the saved file finds the entries.
  module _ (all : AllEntries b.entries) where
    abbrev reread : IoResult × Buffer × File
    reread = read os saved.1 (aligned_buffer os region) region b.chunk_offset

    reread_ok : reread.0 ≡ IoResult.success
    reread_ok =
        read_succeeds os saved.1 (aligned_buffer os region) region b.chunk_offset r
          saved_Writes.is_open (aligned_buffer-address os region) h.block_aligned h.chunk_aligned
          (saved_Writes.room (omega (arith, h.fits)))

    reread_entries : entries_at b.layout.data_blocks reread.1.cells 128 ≡ b.entries
    reread_entries =
        entries_at-shift b.layout.data_blocks reread.1.cells filled.cells 128 128 (λ i k l.
          ap (λ (m : Bytes). load m (128 + i) k)
            (read-success os saved.1 (aligned_buffer os region) region b.chunk_offset
              reread_ok).cells
          ∙ load-copy (aligned_buffer os region).cells 0 saved.1.bytes b.chunk_offset region
              (128 + i) k (omega arith) (omega (arith, h.fits))
          ∙ ap (λ (a : ℕ). load saved.1.bytes a k) (omega arith)
          ∙ saved_load (128 + i) k (omega (arith, h.fits)))
        ∙ ap (λ (n : ℕ). entries_at n filled.cells 128) (sym v.blocks)
        ∙ entries_at-store_entries b.entries fetched.1.cells 128 all

    reread_count :
        u32 (count_sealed (entries_at b.layout.data_blocks reread.1.cells 128))
        ≡ b.sealed_block_count
    reread_count =
        ap (λ (es : List BlockDirEntry). u32 (count_sealed es)) reread_entries
        ∙ omega (arith, v.count, v.blocks, v.few, count_sealed-le b.entries)

    reloaded :
        ((load_directory os (open_builder b.layout b.chunk_offset) saved.1).0
          ≡ DirBuildResult.success)
        × ((load_directory os (open_builder b.layout b.chunk_offset) saved.1).1 ≡ b)
    unfolding load_directory
    reloaded = let e = ap io_ok reread_ok in ground (arith, e, reread_entries, reread_count)

-- Writing the directory of a well-formed builder succeeds and leaves the chunk header as it was, and
-- a new builder that loads it has the same entries and the same count. The system calls do their
-- work, the meta blocks lie in the file, and each field of the entries fits its width.
pub load_directory-write_directory :
    (os : Os) (b : DirectoryBuilder) (f : File)
    → IsReliable os
    → IsBuilder b
    → AllEntries b.entries
    → HasRoom b f
    → let (w, f') = write_directory os b f in
      let (l, b', f'') = load_directory os (open_builder b.layout b.chunk_offset) f' in
      (w ≡ DirBuildResult.success)
      × (l ≡ DirBuildResult.success)
      × (b' ≡ b)
      × (chunk_header_at f'.bytes b.chunk_offset ≡ chunk_header_at f.bytes b.chunk_offset)
load_directory-write_directory os b f r v all h =
    let (ok, same) = write_directory_lem os b f r v h in
    let (ok', same') = reloaded os b f r v h all in
    let load_from = λ (g : File). load_directory os (open_builder b.layout b.chunk_offset) g in
    (
      ok,
      ap (λ (g : File). (load_from g).0) same ∙ ok',
      ap (λ (g : File). (load_from g).1) same ∙ same',
      ap (λ (g : File). chunk_header_at g.bytes b.chunk_offset) same ∙ header_kept os b f r v h,
    )
