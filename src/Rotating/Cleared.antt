-- ===== src/Rotating/Cleared.antt =====
-- What clearing a segment does to the container.
use x_tdb.Base.{ℕ, ◌+◌, ◌≤◌, ◌<◌, ◌≡◌, ◌⊎◌}
use x_tdb.Io.{File}

-- A successful write of zeros clears the extent and nothing else.
record Zeroed (f : File) (offset : ℕ) (f' : File) : Type 0 where
  cleared : (a : ℕ) → offset ≤ a → a < offset + 16384 → f'.bytes a ≡ 0
  outside : (a : ℕ) → (a < offset) ⊎ (offset + 16384 ≤ a) → f'.bytes a ≡ f.bytes a
