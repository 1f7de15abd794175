-- ===== src/Base/Memory.antt =====
-- Memory and files as functions from an address to a byte, and little-endian words in them: what
-- a packed struct's field access and `memcpy` mean.
use Prim.Native.Nat.{ℕ, zero, suc, ◌+◌, ◌-◌, ◌*◌, ◌/◌, ◌%◌, ◌^◌, ◌≤◌, ◌<◌}
use mathlib.Core.Path.{◌≡◌, refl, ap, ap₂, ◌∙◌}
use mathlib.Core.Bool.{◌&&◌}
use mathlib.Core.Logic.{◌⊎◌, inl, inr}
use native.Mathlib.Nat.{pow-suc}
use native.Mathlib.Omega.{arith}
use x_tdb.Base.Tests.{ltb, leb, ◌==◌, if◌then◌else◌}

abbrev pub Bytes : Type 0
Bytes = ℕ → ℕ

-- `k` bytes at address `p`, as one number.
unfoldable pub load : Bytes → ℕ → ℕ → ℕ
load m p zero = 0
load m p (suc k) = m p + 256 * load m (p + 1) k

-- The `k` low bytes of `v`, written at address `p`.
unfoldable pub store : Bytes → ℕ → ℕ → ℕ → Bytes
store m p zero v a = m a
store m p (suc k) v a = if a == p then v % 256 else store m (p + 1) k (v / 256) a

-- `memcpy` of `n` bytes from `src + q` to `dst + p`.
unfoldable pub copy : Bytes → ℕ → Bytes → ℕ → ℕ → Bytes
copy dst p src q n a = if leb p a && ltb a (p + n) then src (q + (a - p)) else dst a

pub store_outside : (m : Bytes) (p k v a : ℕ) → (a < p) ⊎ (p + k ≤ a) → store m p k v a ≡ m a
unfolding store
store_outside m p zero v a h = refl
store_outside m p (suc k) v a h = ground (arith, store_outside m (p + 1) k (v / 256) a)

-- `load` reads its own range only.
pub load_ext :
    (m n : Bytes) (p k : ℕ) → ((a : ℕ) → p ≤ a → a < p + k → m a ≡ n a) → load m p k ≡ load n p k
unfolding load
load_ext m n p zero h = refl
load_ext m n p (suc k) h =
    ap₂ (λ (x y : ℕ). x + 256 * y) (h p (omega arith) (omega arith))
      (load_ext m n (p + 1) k (λ a l u. h a (omega arith) (omega arith)))

pub load-store_ne :
    (m : Bytes) (p k v q j : ℕ) → (q + j ≤ p) ⊎ (p + k ≤ q) → load (store m p k v) q j ≡ load m q j
load-store_ne m p k v q j (inl h) =
    load_ext _ m q j (λ a l u. store_outside m p k v a (inl (omega arith)))
load-store_ne m p k v q j (inr h) =
    load_ext _ m q j (λ a l u. store_outside m p k v a (inr (omega arith)))

pub load-store : (m : Bytes) (p k v : ℕ) → v < 256 ^ k → load (store m p k v) p k ≡ v
unfolding load store
load-store m p zero v h = omega arith
load-store m p (suc k) v h =
    ground (arith, rest, load-store m (p + 1) k (v / 256) (omega (arith, pow-suc 256 k)))
  where
    rest : load (store m p (suc k) v) (p + 1) k ≡ load (store m (p + 1) k (v / 256)) (p + 1) k
    rest = load_ext _ _ (p + 1) k (λ a l u. ground arith)

pub copy_inside :
    (dst : Bytes) (p : ℕ) (src : Bytes) (q n a : ℕ)
    → p ≤ a
    → a < p + n
    → copy dst p src q n a ≡ src (q + (a - p))
unfolding copy
copy_inside dst p src q n a h k = ground arith

pub copy_outside :
    (dst : Bytes) (p : ℕ) (src : Bytes) (q n a : ℕ)
    → (a < p) ⊎ (p + n ≤ a)
    → copy dst p src q n a ≡ dst a
unfolding copy
copy_outside dst p src q n a h = ground arith

-- A word read inside a copied region is the word of the source.
pub load_shift :
    (m n : Bytes) (p q k : ℕ) → ((i : ℕ) → i < k → m (p + i) ≡ n (q + i)) → load m p k ≡ load n q k
unfolding load
load_shift m n p q zero h = refl
load_shift m n p q (suc k) h =
    ap₂ (λ (x y : ℕ). x + 256 * y) (ap m e₀ ∙ h 0 (omega arith) ∙ ap n e₁)
      (load_shift m n (p + 1) (q + 1) k
        (λ i u. ap m (omega arith) ∙ h (i + 1) (omega arith) ∙ ap n (omega arith)))
  where
    e₀ : p ≡ p + 0
    e₀ = omega arith

    e₁ : q + 0 ≡ q
    e₁ = omega arith

pub load-copy :
    (dst : Bytes) (p : ℕ) (src : Bytes) (q n a k : ℕ)
    → p ≤ a
    → a + k ≤ p + n
    → load (copy dst p src q n) a k ≡ load src (q + (a - p)) k
load-copy dst p src q n a k h l =
    load_shift _ src a (q + (a - p)) k
      (λ i u. copy_inside dst p src q n (a + i) (omega arith) (omega arith) ∙ ap src (omega arith))

pub load-copy_ne :
    (dst : Bytes) (p : ℕ) (src : Bytes) (q n a k : ℕ)
    → (a + k ≤ p) ⊎ (p + n ≤ a)
    → load (copy dst p src q n) a k ≡ load dst a k
load-copy_ne dst p src q n a k (inl h) =
    load_ext _ dst a k (λ b l u. copy_outside dst p src q n b (inl (omega arith)))
load-copy_ne dst p src q n a k (inr h) =
    load_ext _ dst a k (λ b l u. copy_outside dst p src q n b (inr (omega arith)))
