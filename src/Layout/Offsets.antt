-- ===== src/Layout/Offsets.antt =====
-- Where calculateBlockOffset and its companions put chunks, blocks and the directory.
use x_tdb.Base.{ℕ, ◌+◌, ◌*◌, ◌/◌, ◌%◌, ◌^◌, ◌≤◌, ◌<◌, ◌≡◌, ◌⊎◌, inl, inr, ap, arith}
use native.Mathlib.Nat.{le_trans}
use x_tdb.Layout.Units.{RawBlockClass, raw_16k, raw_64k, raw_256k, other}
use x_tdb.Layout.Valid.{calculate_layout-valid}
use x_tdb.Layout.Calc.{
  ChunkLayout, ok, calculate_layout, calculate_chunk_offset, calculate_block_offset,
}

-- What calculateLayout establishes of its result, in numbers.
pub record IsLayout (l : ChunkLayout) : Type 0 where
  pub fits : l.blocks_per_chunk * l.block_size_bytes ≤ l.chunk_size_bytes
  pub chunk_aligned : l.chunk_size_bytes % 16384 ≡ 0
  pub block_aligned : l.block_size_bytes % 16384 ≡ 0

pub calculate_layout-IsLayout :
    (c : RawBlockClass) (k : ℕ) (l : ChunkLayout) → calculate_layout c k ≡ ok l → IsLayout l
calculate_layout-IsLayout raw_16k k l h = ground (arith, calculate_layout-valid raw_16k k l h)
calculate_layout-IsLayout raw_64k k l h = ground (arith, calculate_layout-valid raw_64k k l h)
calculate_layout-IsLayout raw_256k k l h = ground (arith, calculate_layout-valid raw_256k k l h)
calculate_layout-IsLayout other k l h = ground (arith, calculate_layout-valid other k l h)

pub mul-aligned : (k b : ℕ) → b % 16384 ≡ 0 → (k * b) % 16384 ≡ 0
mul-aligned k b h =
    let whole : b ≡ 16384 * (b / 16384) = omega arith in omega (arith, ap (λ (t : ℕ). k * t) whole)

mul-le-mul : (a b c : ℕ) → a ≤ b → a * c ≤ b * c
mul-le-mul a b c h = grind arith

-- The end of chunk `c` stays inside 64 bits.
abbrev pub InRange : ℕ → ℕ → ChunkLayout → Type 0
InRange base c l = base + (c + 1) * l.chunk_size_bytes < 2 ^ 64

InRange-mono : (c c' base : ℕ) (l : ChunkLayout) → c ≤ c' → InRange base c' l → InRange base c l
InRange-mono c c' base l h range =
    le_trans (omega (arith, mul-le-mul (c + 1) (c' + 1) l.chunk_size_bytes (omega arith))) range

chunk_offset_lem :
    (c : ℕ) (l : ChunkLayout) (base : ℕ)
    → InRange base c l
    → calculate_chunk_offset c l base ≡ base + c * l.chunk_size_bytes
unfolding calculate_chunk_offset
chunk_offset_lem c l base range = omega arith

block_offset_lem :
    (c i o base : ℕ) (l : ChunkLayout)
    → IsLayout l
    → InRange base c l
    → calculate_block_offset c i l base ≡ ok o
    → (i < l.blocks_per_chunk)
      × (o ≡ base + c * l.chunk_size_bytes + i * l.block_size_bytes)
      × ((i + 1) * l.block_size_bytes ≤ l.chunk_size_bytes)
unfolding calculate_block_offset
block_offset_lem c i o base l v range h = ground (
  arith,
  chunk_offset_lem c l base range,
  mul-le-mul (i + 1) l.blocks_per_chunk l.block_size_bytes,
)

-- A block that calculateBlockOffset places starts on an extent boundary and lies inside its chunk,
-- when the layout is an IsLayout, as each that calculateLayout returns is, the end of the chunk fits
-- 64 bits and the container's base is a whole number of extents.
pub block_offset_inside :
    (c i o base : ℕ) (l : ChunkLayout)
    → IsLayout l
    → InRange base c l
    → base % 16384 ≡ 0
    → calculate_block_offset c i l base ≡ ok o
    → (o % 16384 ≡ 0)
      × (calculate_chunk_offset c l base ≤ o)
      × (o + l.block_size_bytes ≤ calculate_chunk_offset c l base + l.chunk_size_bytes)
block_offset_inside c i o base l v range aligned h = omega (
  arith,
  chunk_offset_lem c l base range,
  block_offset_lem c i o base l v range h,
  mul-aligned c l.chunk_size_bytes v.chunk_aligned,
  mul-aligned i l.block_size_bytes v.block_aligned,
)

-- Two different blocks of a container never overlap: of two blocks placed by calculateBlockOffset
-- the one of the earlier chunk, or of the lower index in one chunk, ends before the other starts. The
-- layout is an IsLayout, as each that calculateLayout returns is: its blocks fit the chunk and both
-- sizes are whole extents. The end of the later chunk fits 64 bits.
pub block_offset_disjoint :
    (c i o c' i' o' base : ℕ) (l : ChunkLayout)
    → IsLayout l
    → InRange base c' l
    → (c < c') ⊎ ((c ≡ c') × (i < i'))
    → calculate_block_offset c i l base ≡ ok o
    → calculate_block_offset c' i' l base ≡ ok o'
    → o + l.block_size_bytes ≤ o'
block_offset_disjoint c i o c' i' o' base l v range (inl p) h k = omega (
  arith,
  block_offset_lem c i o base l v (InRange-mono c c' base l (omega arith) range) h,
  block_offset_lem c' i' o' base l v range k,
  mul-le-mul (c + 1) c' l.chunk_size_bytes (omega arith),
)
block_offset_disjoint c i o c' i' o' base l v range (inr (p, q)) h k = grind (
  arith,
  same,
  block_offset_lem c i o base l v (InRange-mono c c' base l (omega arith) range) h,
  block_offset_lem c' i' o' base l v range k,
  mul-le-mul (i + 1) i' l.block_size_bytes,
)
  where
    same : c * l.chunk_size_bytes ≡ c' * l.chunk_size_bytes
    same = ap (λ (t : ℕ). t * l.chunk_size_bytes) p
