-- ===== src/Mutator/Effect.antt =====
-- What a mutation of any kind does to the file, seen from outside.
use x_tdb.Base.{
  ℕ, ◌+◌, ◌-◌, ◌%◌, ◌^◌, ◌≤◌, ◌<◌, ◌≡◌, ◌≢◌, ◌⊎◌, inl, inr, ap, ◌∙◌, arith, Bool, true, false,
  Bytes, load, store, copy, load-copy, copy_outside, copy_inside, store_outside, Bool-cases, some,
  ltb, ltb→lt, ltb→le,
}
use Prim.Native.Nat.add
use x_tdb.Flags.{clear_bit}
use x_tdb.Flags.Laws.{validate-clear_bit}
use x_tdb.Io.{IoResult, Os, File, Buffer, aligned_buffer, read, write}
use x_tdb.Io.Laws.{
  read-SameContent, Reads, read-success, write_outside, write_failed, Writes, write-success,
  IsReliable, read_succeeds, write_succeeds, aligned_buffer-address,
}
use x_tdb.Mutator.{success, err_invalid_transition, io_ok, write_back, change, mutate}

abbrev pub IsBytes : Bytes → Type 0
IsBytes m = (a : ℕ) → m a < 256

pub load-lt : (m : Bytes) (p : ℕ) → IsBytes m → load m p 4 < 2 ^ 32
unfolding load
load-lt m p h = omega (arith, h p, h (p + 1), h (p + 1 + 1), h (p + 1 + 1 + 1))

pub io_ok→success : (r : IoResult) → io_ok r ≡ true → r ≡ IoResult.success
io_ok→success r h = ground arith

not_ok : (r : IoResult) → io_ok r ≡ false → r ≡ IoResult.success → ⊥
not_ok r h e = ground arith

in_range :
    (a offset : ℕ) → ((a < offset) ⊎ (offset + 16384 ≤ a)) ⊎ ((offset ≤ a) × (a < offset + 16384))
in_range a offset = elim (Bool-cases (ltb a offset)) [
  | inl e ↦ inl (inl (ltb→lt a offset e))
  | inr e ↦ elim (Bool-cases (ltb a (offset + 16384))) [
    | inl h ↦ inr (ltb→le a offset e, ltb→lt a _ h)
    | inr h ↦ inl (inr (ltb→le a _ h))
  ]
]

write_back-success :
    (os : Os) (f : File) (b : Buffer) (offset : ℕ)
    → (write_back os f b offset).0 ≡ success
    → Writes f b 16384 offset (write_back os f b offset).1
unfolding write_back
write_back-success os f b offset h = elim (Bool-cases (io_ok (write os f b 16384 offset).0)) [
  | inl e ↦ ground (arith, write-success os f b 16384 offset (io_ok→success _ e))
  | inr e ↦ ground (arith, e)
]

-- The extent as the mutation reads it, and the flags in the file.
abbrev pub cells_at : Os → File → ℕ → Bytes
cells_at os f offset = copy os.fresh 0 f.bytes offset 16384

abbrev pub flags_in : File → ℕ → ℕ → ℕ
flags_in f offset p = load f.bytes (offset + p) 4

pub load-cells_at :
    (os : Os) (f : File) (offset p k : ℕ)
    → p + k ≤ 16384
    → load (cells_at os f offset) p k ≡ load f.bytes (offset + p) k
load-cells_at os f offset p k h =
    load-copy os.fresh 0 f.bytes offset 16384 p k (omega arith) (omega arith)
    ∙ ap (λ (q : ℕ). load f.bytes q k) (omega arith)

-- A mutation that succeeds found the check negative, and has rewritten the extent with the cleared
-- flags and the patch.
pub record Mutated (os : Os) (f : File) (offset p position : ℕ) (already : ℕ → Bool)
    (patch : Bytes → Bytes) (f' : File) : Type 0 where
  pub was_clear : already (flags_in f offset p) ≡ false
  pub bytes :
      f'.bytes
      ≡ copy f.bytes offset
          (patch (store (cells_at os f offset) p 4 (clear_bit (flags_in f offset p) position)))
          0
          16384
  pub size : f.size ≤ f'.size
  pub is_open : f'.is_open ≡ true
  pub aligned : offset % 16384 ≡ 0

module _ (os : Os) (f : File) (offset : ℕ) where
  abbrev fetch : IoResult × Buffer × File
  fetch = read os f (aligned_buffer os 16384) 16384 offset

  fetch-Reads : io_ok fetch.0 ≡ true → Reads f (aligned_buffer os 16384) 16384 offset fetch.1
  fetch-Reads e = read-success os f (aligned_buffer os 16384) 16384 offset (io_ok→success _ e)

  fetch-cells : io_ok fetch.0 ≡ true → fetch.1.cells ≡ cells_at os f offset
  unfolding aligned_buffer
  fetch-cells e = (fetch-Reads e).cells

  fetch-flags :
      (p : ℕ) → p + 4 ≤ 16384 → io_ok fetch.0 ≡ true → load fetch.1.cells p 4 ≡ flags_in f offset p
  fetch-flags p small e = ap (λ m. load m p 4) (fetch-cells e) ∙ load-cells_at os f offset p 4 small

module _ (os : Os) (f : File) (offset p position : ℕ) (already : ℕ → Bool)
    (patch : Bytes → Bytes) where
  abbrev changed : Buffer → Buffer
  changed b = record b { cells = patch (store b.cells p 4 (clear_bit (load b.cells p 4) position)) }

  change-success :
      (b : Buffer)
      → (change os f b offset p position already patch).0 ≡ success
      → (already (load b.cells p 4) ≡ false)
        × Writes f (changed b) 16384 offset (change os f b offset p position already patch).1
  unfolding change
  change-success b h = ground (arith, write_back-success os f (changed b) offset)

module _ (os : Os) (f : File) (offset p position : ℕ) (already : ℕ → Bool)
    (patch : Bytes → Bytes) where
  pub mutate-Mutated :
      p + 4 ≤ 16384
      → (mutate os f offset p position already patch).0 ≡ success
      → Mutated os f offset p position already patch (mutate os f offset p position already patch).1
  unfolding mutate
  mutate-Mutated small h = elim (Bool-cases (io_ok (fetch os f offset).0)) [
    | inl e ↦ ground (
      arith,
      fetch-Reads os f offset e,
      fetch-cells os f offset e,
      fetch-flags os f offset p small e,
      read-SameContent os f (aligned_buffer os 16384) 16384 offset,
      change-success os (fetch os f offset).2 offset p position already patch (fetch os f offset).1,
    )
    | inr e ↦ ground (arith, e)
  ]

  -- Whatever it returns, a mutation changes no byte outside the extent.
  pub mutate_outside :
      (a : ℕ)
      → (a < offset) ⊎ (offset + 16384 ≤ a)
      → (mutate os f offset p position already patch).1.bytes a ≡ f.bytes a
  unfolding mutate change write_back
  mutate_outside a h = ground (
    arith,
    read-SameContent os f (aligned_buffer os 16384) 16384 offset,
    ap (λ (m : Bytes). m a) (read-SameContent os f (aligned_buffer os 16384) 16384 offset).bytes,
    write_outside os (fetch os f offset).2
        (changed os f offset p position already patch (fetch os f offset).1) 16384 offset a h,
  )

  -- No mutation is refused as an invalid transition: clearing a bit never sets one.
  pub mutate_transition :
      p + 4 ≤ 16384
      → position < 32
      → IsBytes f.bytes
      → (mutate os f offset p position already patch).0 ≢ err_invalid_transition
  unfolding mutate change write_back
  mutate_transition small low is_bytes h = elim (Bool-cases (io_ok (fetch os f offset).0)) [
    | inl e ↦ ground (
      arith,
      fetch-flags os f offset p small e,
      validate-clear_bit (flags_in f offset p) position (load-lt f.bytes (offset + p) is_bytes) low,
    )
    | inr e ↦ ground (arith, e)
  ]

  -- When every system call does its work, a mutation that is not already done succeeds, if the file
  -- is open, the offset is a whole number of extents, the extent lies in the file, the flag word lies
  -- in the extent, the bit is one of its 32 and the bytes are below 256.
  pub mutate_succeeds :
      p + 4 ≤ 16384
      → position < 32
      → IsBytes f.bytes
      → IsReliable os
      → f.is_open ≡ true
      → offset % 16384 ≡ 0
      → offset + 16384 ≤ f.size
      → already (flags_in f offset p) ≡ false
      → (mutate os f offset p position already patch).0 ≡ success
  unfolding mutate change write_back
  mutate_succeeds small low is_bytes r o al room clear =
      let fetched =
        read_succeeds os f (aligned_buffer os 16384) 16384 offset r o
          (aligned_buffer-address os 16384) (omega arith) al room in
      let e : io_ok (fetch os f offset).0 ≡ true = ap io_ok fetched in
      ground (
        arith,
        e,
        fetch-flags os f offset p small e,
        validate-clear_bit (flags_in f offset p) position (load-lt f.bytes (offset + p) is_bytes)
            low,
        read-SameContent os f (aligned_buffer os 16384) 16384 offset,
        fetch-Reads os f offset e,
        aligned_buffer-address os 16384,
        write_succeeds os (fetch os f offset).2
            (changed os f offset p position already patch (fetch os f offset).1) 16384 offset r,
      )

  -- Where a write is done whole or not at all, a mutation that does not succeed changes nothing.
  pub mutate_failed :
      ((call k : ℕ) → os.pwrite call 16384 ≡ some k → k ≡ 16384)
      → (mutate os f offset p position already patch).0 ≢ success
      → (mutate os f offset p position already patch).1.bytes ≡ f.bytes
  unfolding mutate change write_back
  mutate_failed whole h =
      let b = changed os f offset p position already patch (fetch os f offset).1 in
      elim (Bool-cases (io_ok (write os (fetch os f offset).2 b 16384 offset).0)) [
        | inl e ↦ ground (arith, e, read-SameContent os f (aligned_buffer os 16384) 16384 offset)
        | inr e ↦ ground (
          arith,
          e,
          read-SameContent os f (aligned_buffer os 16384) 16384 offset,
          write_failed os (fetch os f offset).2 b 16384 offset whole (λ s. not_ok _ e s),
        )
      ]

-- A word of the extent after a mutation is the word of the rewritten buffer.
pub Mutated-load :
    (os : Os) (f f' : File) (offset p position : ℕ) (already : ℕ → Bool) (patch : Bytes → Bytes)
    → Mutated os f offset p position already patch f'
    → (q k : ℕ) → q + k ≤ 16384
    → load f'.bytes (offset + q) k
      ≡ load
          (patch (store (cells_at os f offset) p 4 (clear_bit (flags_in f offset p) position)))
          q
          k
Mutated-load os f f' offset p position already patch v q k h =
    ap (λ m. load m (offset + q) k) v.bytes
    ∙ load-copy f.bytes offset _ 0 16384 (offset + q) k (omega arith) (omega arith)
    ∙ ap
        (λ (i : ℕ).
          load (patch (store (cells_at os f offset) p 4 (clear_bit (flags_in f offset p) position)))
            i k)
        (omega arith)

-- A byte that neither the flags nor the patch covers is the old one.
pub Mutated-byte :
    (os : Os) (f f' : File) (offset p position : ℕ) (already : ℕ → Bool) (patch : Bytes → Bytes)
    → Mutated os f offset p position already patch f'
    → (a : ℕ) → ((m : Bytes) → patch m (a - offset) ≡ m (a - offset))
    → (a < offset + p) ⊎ (offset + p + 4 ≤ a)
    → f'.bytes a ≡ f.bytes a
Mutated-byte os f f' offset p position already patch v a apart outside =
    let rewritten : Bytes =
      patch (store (cells_at os f offset) p 4 (clear_bit (flags_in f offset p) position)) in
    ap (λ (m : Bytes). m a) v.bytes ∙ elim (in_range a offset) [
      | inl e ↦ copy_outside f.bytes offset _ 0 16384 a e
      | inr (lo, hi) ↦
          copy_inside f.bytes offset _ 0 16384 a lo hi
          ∙ ap rewritten (add.zero (a - offset))
          ∙ apart _
          ∙ store_outside (cells_at os f offset) p 4 _ (a - offset) (omega arith)
          ∙ copy_inside os.fresh 0 f.bytes offset 16384 (a - offset) (omega arith) (omega arith)
          ∙ ap f.bytes (omega arith)
    ]
