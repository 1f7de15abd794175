-- ===== src/Blocks/Rows.antt =====
-- Rows of a fixed size, one behind the other, which is how a data block holds its records and its
-- compressed points.
use x_tdb.Base.{
  All, ℕ, zero, suc, ◌+◌, ◌*◌, ◌≤◌, ◌<◌, ◌≡◌, ◌⊎◌, inl, refl, ap₂, ◌∙◌, arith, List, [], ◌∷◌,
  length, Bytes,
}

-- How one row is written at an address, and read there.
pub record Format (X : Type 0) : Type 0 where
  pub size : ℕ
  pub write_row : Bytes → ℕ → X → Bytes
  pub read_row : Bytes → ℕ → X

-- What the loops over rows rely on. `Fits` says which rows the format can hold.
pub record IsFormat {X : Type 0} (format : Format X) (Fits : X → Type 0) : Type 0 where
  pub read-write :
      (m : Bytes) (p : ℕ) (x : X) → Fits x → format.read_row (format.write_row m p x) p ≡ x
  pub write_outside :
      (m : Bytes) (p : ℕ) (x : X) (a : ℕ)
      → (a < p) ⊎ (p + format.size ≤ a)
      → format.write_row m p x a ≡ m a
  pub read_ext :
      (m n : Bytes) (p : ℕ)
      → ((a : ℕ) → p ≤ a → a < p + format.size → m a ≡ n a)
      → format.read_row m p ≡ format.read_row n p

module _ {X : Type 0} (format : Format X) where
  unfoldable pub write_rows : Bytes → ℕ → List X → Bytes
  write_rows m p [] = m
  write_rows m p (x ∷ xs) = write_rows (format.write_row m p x) (p + format.size) xs

  unfoldable pub read_rows : ℕ → Bytes → ℕ → List X
  read_rows zero m p = []
  read_rows (suc n) m p = format.read_row m p ∷ read_rows n m (p + format.size)

module _ {X : Type 0} (format : Format X) (Fits : X → Type 0) (laws : IsFormat format Fits) where
  pub write_rows_before :
      (m : Bytes) (p : ℕ) (xs : List X) (a : ℕ) → a < p → write_rows format m p xs a ≡ m a
  unfolding write_rows
  write_rows_before m p [] a h = refl
  write_rows_before m p (x ∷ xs) a h =
      write_rows_before (format.write_row m p x) (p + format.size) xs a (omega arith)
      ∙ laws.write_outside m p x a (inl h)

  pub read_rows_ext :
      (n : ℕ) (m k : Bytes) (p : ℕ)
      → ((a : ℕ) → p ≤ a → a < p + n * format.size → m a ≡ k a)
      → read_rows format n m p ≡ read_rows format n k p
  unfolding read_rows
  read_rows_ext zero m k p h = refl
  read_rows_ext (suc n) m k p h =
      ap₂ (λ (x : X) (xs : List X). x ∷ xs) (laws.read_ext m k p (λ a l u. h a l (grind arith)))
        (read_rows_ext n m k (p + format.size) (λ a l u. h a (omega arith) (grind arith)))

  -- Rows that fit are read back, as many as were written.
  pub read_rows-write_rows :
      (m : Bytes) (p : ℕ) (xs : List X)
      → All Fits xs
      → read_rows format (length xs) (write_rows format m p xs) p ≡ xs
  unfolding read_rows write_rows
  read_rows-write_rows m p [] f = refl
  read_rows-write_rows m p (x ∷ xs) f =
      ap₂ (λ (y : X) (ys : List X). y ∷ ys)
        (laws.read_ext _ (format.write_row m p x) p
            (λ a l u. write_rows_before (format.write_row m p x) (p + format.size) xs a u)
          ∙ laws.read-write m p x f.0)
        (read_rows-write_rows (format.write_row m p x) (p + format.size) xs f.1)
