-- ===== src/Layout/Valid.antt =====
-- The layouts that calculateLayout returns, with the loop and the check behind it.
use x_tdb.Base.{
  ℕ, zero, suc, ◌+◌, ◌-◌, ◌*◌, ◌/◌, ◌%◌, ◌^◌, ◌≤◌, ◌<◌, ◌≡◌, ◌⊎◌, inl, inr, refl, sym, subst, arith,
  Bool, true, false, ◌==◌, if◌then◌else◌,
}
use x_tdb.Layout.Units.{RawBlockClass, raw_16k, raw_64k, raw_256k, other, get_block_size_bytes, u32}
use x_tdb.Layout.Calc.{
  ChunkLayout, Result, ok, err, calculate_meta_blocks, solve, settle, lay_out, calculate_layout,
  validate_layout,
}

-- A block size of the enumeration.
abbrev pub IsBlockSize : ℕ → Type 0
IsBlockSize b = (b ≡ 16384) ⊎ (b ≡ 65536) ⊎ (b ≡ 262144)

abbrev ceil_meta : ℕ → ℕ → ℕ
ceil_meta b e = (127 + 64 * e + b) / b

calculate_meta_blocks-ceil :
    (b e : ℕ) → IsBlockSize b → e ≤ 262143 → calculate_meta_blocks e b ≡ ceil_meta b e
unfolding calculate_meta_blocks
calculate_meta_blocks-ceil b e (inl p) h = ground arith
calculate_meta_blocks-ceil b e (inr (inl p)) h = ground arith
calculate_meta_blocks-ceil b e (inr (inr p)) h = ground arith

-- A count of meta blocks that is right, or short by one block at most.
record IsNear (n b m : ℕ) : Type 0 where
  positive : 1 ≤ m
  within : m ≤ n
  nearly : 128 + 64 * (n - m) ≤ m * b + b
  small : m * b ≤ 127 + 64 * n + b

-- The estimate is the one made from `prev`, and not far from it.
record IsRound (n b prev est : ℕ) : Type 0 where
  some_blocks : 1 ≤ n
  few_blocks : n ≤ 262143
  prev_within : prev ≤ n
  made : est + ceil_meta b prev ≡ n
  above : est ≤ prev + 1100
  below : prev ≤ est + 1100

abbrev Next : ℕ → Type 0
Next b =
    (n prev est : ℕ)
    → IsRound n b prev est
    → IsNear n b (ceil_meta b est) × IsRound n b est (n - ceil_meta b est)

-- A property of the three block sizes, one by one.
pub by_block_size {ℓ} :
    (P : ℕ → Type ℓ) → P 16384 → P 65536 → P 262144 → (b : ℕ) → IsBlockSize b → P b
by_block_size P x y z b (inl p) = subst P (sym p) x
by_block_size P x y z b (inr (inl p)) = subst P (sym p) y
by_block_size P x y z b (inr (inr p)) = subst P (sym p) z

Next-16384 : Next 16384
Next-16384 n prev est r = omega arith

Next-65536 : Next 65536
Next-65536 n prev est r = omega arith

Next-262144 : Next 262144
Next-262144 n prev est r = omega arith

IsRound-Next : (b : ℕ) → IsBlockSize b → Next b
IsRound-Next = by_block_size Next Next-16384 Next-65536 Next-262144

-- One round of the loop, with its unsigned arithmetic worked out.
solve-suc :
    (n b est meta rounds : ℕ)
    → IsBlockSize b
    → n ≤ 262143
    → est ≤ n
    → ceil_meta b est ≤ n
    → solve (suc rounds) n b est meta ≡ (
        if n - ceil_meta b est == est
        then ceil_meta b est
        else solve rounds n b (n - ceil_meta b est) (ceil_meta b est))
unfolding solve
solve-suc n b est meta rounds size few le m =
    let rounded : u32 (n + 2 ^ 32 - ceil_meta b est) ≡ n - ceil_meta b est = omega arith in
    rw (calculate_meta_blocks-ceil b est size (omega arith), rounded)

solve-IsNear :
    (rounds n b prev est meta : ℕ)
    → IsBlockSize b
    → IsNear n b meta
    → IsRound n b prev est
    → IsNear n b (solve rounds n b est meta)
solve-IsNear zero n b prev est meta size near round = unfold solve in near
solve-IsNear (suc rounds) n b prev est meta size near round =
    let (near', round') = IsRound-Next b size n prev est round in
    rw (solve-suc n b est meta rounds size round.few_blocks (omega arith) near'.within) (
      ground (
        arith,
        solve-IsNear rounds n b est (n - ceil_meta b est) (ceil_meta b est) size near' round',
      ))

abbrev First : ℕ → Type 0
First b =
    (n : ℕ)
    → 1 ≤ n
    → n * b < 2 ^ 32
    → IsNear n b (ceil_meta b n) × IsRound n b n (n - ceil_meta b n) × (n ≤ 262143)

IsRound-First : (b : ℕ) → IsBlockSize b → First b
IsRound-First =
    by_block_size First (λ n h k. omega arith) (λ n h k. omega arith) (λ n h k. omega arith)

solve_first : (n b : ℕ) → IsBlockSize b → 1 ≤ n → n * b < 2 ^ 32 → IsNear n b (solve 10 n b n 0)
solve_first n b size some_blocks fits =
    let (near, round, few) = IsRound-First b size n some_blocks fits in
    rw (solve-suc n b n 0 9 size few (omega arith) near.within)
      (ground (arith, solve-IsNear 9 n b n (n - ceil_meta b n) (ceil_meta b n) size near round))

-- The counts that the function may return.
record IsSettled (n b m d : ℕ) : Type 0 where
  positive : 1 ≤ m
  sum : m + d ≡ n
  holds_directory : 128 + 64 * d ≤ m * b
  leaves_data : 2 ≤ n → 1 ≤ d

abbrev Settles : ℕ → Type 0
Settles b =
    (n m : ℕ) → n * b < 2 ^ 32 → IsNear n b m → IsSettled n b (settle n b m).0 (settle n b m).1

Settles-16384 : Settles 16384
unfolding settle
Settles-16384 n m fits near = ground arith

Settles-65536 : Settles 65536
unfolding settle
Settles-65536 n m fits near = ground arith

Settles-262144 : Settles 262144
unfolding settle
Settles-262144 n m fits near = ground arith

settled :
    (n b : ℕ)
    → IsBlockSize b
    → 1 ≤ n
    → n * b < 2 ^ 32
    → let p = settle n b (solve 10 n b n 0) in IsSettled n b p.0 p.1
settled n b size some_blocks fits =
    by_block_size Settles Settles-16384 Settles-65536 Settles-262144 b size n _ fits
      (solve_first n b size some_blocks fits)

-- What `lay_out` returns for `n` blocks of `b` bytes.
abbrev Validates : ℕ → Type 0
Validates b =
    (ce be cb : ℕ) (l : ChunkLayout)
    → b ≤ cb
    → cb < 2 ^ 32
    → cb % 16384 ≡ 0
    → lay_out ce be cb b ≡ ok l
    → (validate_layout l ≡ true)
      × (l.block_size_bytes ≡ b)
      × (l.chunk_size_bytes ≡ cb)
      × (l.blocks_per_chunk ≡ cb / b)

Validates-16384 : Validates 16384
unfolding lay_out validate_layout
Validates-16384 ce be cb l le lt al h =
    ground (arith, settled (cb / 16384) 16384 (inl refl) (omega arith) (omega arith))

Validates-65536 : Validates 65536
unfolding lay_out validate_layout
Validates-65536 ce be cb l le lt al h =
    ground (arith, settled (cb / 65536) 65536 (inr (inl refl)) (omega arith) (omega arith))

Validates-262144 : Validates 262144
unfolding lay_out validate_layout
Validates-262144 ce be cb l le lt al h =
    ground (arith, settled (cb / 262144) 262144 (inr (inr refl)) (omega arith) (omega arith))

-- A layout that calculateLayout returns passes validateLayout, its block size is the class's, its
-- chunk size is the requested one (mod 2 ^ 32 bytes), and its blocks are as many as fit the chunk.
pub calculate_layout-valid :
    (c : RawBlockClass) (chunk_extents : ℕ) (l : ChunkLayout)
    → calculate_layout c chunk_extents ≡ ok l
    → (validate_layout l ≡ true)
      × (l.block_size_bytes ≡ get_block_size_bytes c)
      × (l.chunk_size_bytes ≡ u32 (chunk_extents * 16384))
      × (l.blocks_per_chunk ≡ u32 (chunk_extents * 16384) / get_block_size_bytes c)
unfolding calculate_layout
calculate_layout-valid raw_16k k l h = ground (arith, Validates-16384 k 1 (u32 (k * 16384)) l)
calculate_layout-valid raw_64k k l h = ground (arith, Validates-65536 k 4 (u32 (k * 16384)) l)
calculate_layout-valid raw_256k k l h = ground (arith, Validates-262144 k 16 (u32 (k * 16384)) l)
calculate_layout-valid other k l h = ground arith

abbrev Succeeds : ℕ → Type 0
Succeeds b =
    (ce be cb : ℕ) → 2 * b ≤ cb → cb < 2 ^ 32 → (l : ChunkLayout) × (lay_out ce be cb b ≡ ok l)

abbrev is_ok : Result ChunkLayout → Bool
is_ok (ok l) = true
is_ok (err e) = false

of_is_ok : (r : Result ChunkLayout) → is_ok r ≡ true → (l : ChunkLayout) × (r ≡ ok l)
of_is_ok (ok l) h = (l, refl)
of_is_ok (err e) h = cc

Succeeds-16384 : Succeeds 16384
unfolding lay_out
Succeeds-16384 ce be cb le lt =
    of_is_ok _ (ground (arith, settled (cb / 16384) 16384 (inl refl) (omega arith) (omega arith)))

Succeeds-65536 : Succeeds 65536
unfolding lay_out
Succeeds-65536 ce be cb le lt =
    of_is_ok _
      (ground (arith, settled (cb / 65536) 65536 (inr (inl refl)) (omega arith) (omega arith)))

Succeeds-262144 : Succeeds 262144
unfolding lay_out
Succeeds-262144 ce be cb le lt =
    of_is_ok _
      (ground (arith, settled (cb / 262144) 262144 (inr (inr refl)) (omega arith) (omega arith)))

-- calculateLayout returns a layout, and throws nothing, whenever the chunk has room for two blocks
-- of a class of the enumeration.
pub calculate_layout_succeeds :
    (c : RawBlockClass) (chunk_extents : ℕ)
    → 1 ≤ get_block_size_bytes c
    → 2 * get_block_size_bytes c ≤ u32 (chunk_extents * 16384)
    → (l : ChunkLayout) × (calculate_layout c chunk_extents ≡ ok l)
unfolding calculate_layout
calculate_layout_succeeds raw_16k k p h = ground (arith, Succeeds-16384 k 1 (u32 (k * 16384)))
calculate_layout_succeeds raw_64k k p h = ground (arith, Succeeds-65536 k 4 (u32 (k * 16384)))
calculate_layout_succeeds raw_256k k p h = ground (arith, Succeeds-262144 k 16 (u32 (k * 16384)))
calculate_layout_succeeds other k p h = absurd (omega arith)
