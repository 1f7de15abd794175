-- ===== src/Directory/Count.antt =====
-- The count of sealed blocks that DirectoryBuilder keeps beside its entries.
use x_tdb.Base.{
  inl, inr, ℕ, zero, suc, ◌+◌, ◌^◌, ◌≤◌, ◌<◌, ◌≡◌, ◌≢◌, refl, ap, ◌∙◌, sym, arith, true, false, not,
  List, [], ◌∷◌, length, length-set, get_or, set, Bool-cases, ◌==◌, leb,
}
use x_tdb.Structs.{BlockDirEntry, default_entry}
use x_tdb.Directory.{
  DirectoryBuilder, entry_is_sealed, count_sealed, BlockSeal, sealed_entry, seal_block, resize,
  initialize, open_builder,
}
use x_tdb.Layout.Units.{u32}
use x_tdb.Layout.Calc.{ChunkLayout}

-- A builder with an entry for each block, whose count is the number of sealed entries.
pub record IsBuilder (b : DirectoryBuilder) : Type 0 where
  pub blocks : length b.entries ≡ b.layout.data_blocks
  pub few : b.layout.data_blocks < 2 ^ 32
  pub count : b.sealed_block_count ≡ count_sealed b.entries

count_sealed-resize : (n : ℕ) → (count_sealed (resize n []) ≡ 0) × (length (resize n []) ≡ n)
unfolding count_sealed resize
count_sealed-resize zero = (refl, refl)
count_sealed-resize (suc n) = ground (arith, count_sealed-resize n)

-- Initializing a new builder makes it well formed, with no sealed block.
pub initialize-IsBuilder :
    (layout : ChunkLayout) (chunk_offset : ℕ)
    → layout.data_blocks < 2 ^ 32
    → IsBuilder (initialize (open_builder layout chunk_offset)).1
unfolding initialize
initialize-IsBuilder layout chunk_offset h = record {
  blocks = (count_sealed-resize layout.data_blocks).1;
  few = h;
  count = sym (count_sealed-resize layout.data_blocks).0;
}

eq_false : (a b : ℕ) → a ≢ b → (a == b) ≡ false
eq_false a b h = ground arith

pub count_sealed-le : (es : List BlockDirEntry) → count_sealed es ≤ length es
unfolding count_sealed
count_sealed-le [] = omega arith
count_sealed-le (e ∷ es) = ground (arith, count_sealed-le es)

count_sealed-set :
    (es : List BlockDirEntry) (i : ℕ) (e : BlockDirEntry)
    → i < length es
    → entry_is_sealed (get_or es i default_entry) ≡ false
    → entry_is_sealed e ≡ true
    → count_sealed (set es i e) ≡ suc (count_sealed es)
unfolding count_sealed
count_sealed-set [] i e h c s = absurd (omega arith)
count_sealed-set (x ∷ es) zero e h c s = ground (arith, c, s)
count_sealed-set (x ∷ es) (suc i) e h c s =
    ground (arith, count_sealed-set es i e (omega arith) c s)

sealed-IsBuilder :
    (b : DirectoryBuilder) (i : ℕ) (s : BlockSeal)
    → IsBuilder b
    → s.record_count ≢ 0xFFFF_FFFF
    → i < b.layout.data_blocks
    → entry_is_sealed (get_or b.entries i default_entry) ≡ false
    → IsBuilder (record b {
      entries = set b.entries i (sealed_entry s (get_or b.entries i default_entry));
      sealed_block_count = u32 (b.sealed_block_count + 1);
    })
sealed-IsBuilder b i s v h l open_entry =
    let e = sealed_entry s (get_or b.entries i default_entry) in
    let counted =
      count_sealed-set b.entries i e (omega (arith, v.blocks)) open_entry
        (ap not (eq_false s.record_count 0xFFFF_FFFF h)) in
    record {
      blocks = length-set b.entries i e ∙ v.blocks;
      few = v.few;
      count = omega (
        arith,
        v.count,
        counted,
        v.blocks,
        v.few,
        count_sealed-le (set b.entries i e),
        length-set b.entries i e,
      );
    }

-- Sealing a block keeps a builder well formed on every branch, when the record count given is not
-- the mark of an open block.
pub seal_block-IsBuilder :
    (b : DirectoryBuilder) (i : ℕ) (s : BlockSeal)
    → IsBuilder b
    → s.record_count ≢ 0xFFFF_FFFF
    → IsBuilder (seal_block b i s).1
unfolding seal_block
seal_block-IsBuilder b i s v h = elim (Bool-cases (leb b.layout.data_blocks i)) [
  | inl out ↦ ground (arith, out, v)
  | inr inside ↦ elim (Bool-cases (entry_is_sealed (get_or b.entries i default_entry))) [
    | inl taken ↦ ground (arith, inside, taken, v)
    | inr open_entry ↦
        ground (arith, inside, open_entry, sealed-IsBuilder b i s v h (ground arith) open_entry)
  ]
]
