-- ===== src/Base/Bits.antt =====
-- Flag words, bit by bit: what `&` and `~` do at each position.
use Prim.Native.Nat.{
  ℕ, zero, suc, ◌+◌, ◌-◌, ◌*◌, ◌/◌, ◌%◌, ◌^◌, ◌≤◌, ◌<◌, min, digits, bit_and, bit_and-bitwise,
  bit_xor, bit_xor-bitwise, differ,
}
use mathlib.Core.Path.{◌≡◌, refl, ap, ◌∙◌}
use native.Mathlib.Nat.{le_refl, pow-suc}
use native.Mathlib.Omega.{arith}
use x_tdb.Base.Tests.{◌==◌, if◌then◌else◌}

-- The bit of `x` at position `k`, 0 or 1.
unfoldable pub bit : ℕ → ℕ → ℕ
bit x zero = x % 2
bit x (suc k) = bit (x / 2) k

-- The digits of `&` in a given count of rounds.
abbrev and_rounds : ℕ → ℕ → ℕ → ℕ
and_rounds rounds x y = digits (λ d. 0) min rounds x y

and_rounds-suc : (x rounds y : ℕ) → x ≤ rounds → and_rounds (suc rounds) x y ≡ and_rounds rounds x y
and_rounds-suc zero zero y h = refl
and_rounds-suc zero (suc rounds) y h = refl
and_rounds-suc (suc x) zero y h = absurd (omega arith)
and_rounds-suc (suc x) (suc rounds) y h =
    ap (λ (d : ℕ). d * 2 + min (suc x % 2) (y % 2))
      (and_rounds-suc (suc x / 2) rounds (y / 2) (omega arith))

-- Rounds beyond the number itself change nothing.
and_rounds-add : (spare x y : ℕ) → and_rounds (spare + x) x y ≡ bit_and x y
and_rounds-add zero x y = simp bit_and-bitwise (ap (λ n. and_rounds n x y) (omega arith))
and_rounds-add (suc spare) x y =
    ap (λ n. and_rounds n x y) {x = suc spare + x} {y = suc (spare + x)} (omega arith)
    ∙ and_rounds-suc x (spare + x) y (omega arith)
    ∙ and_rounds-add spare x y

-- The lowest digit of `&`, and the rest.
bit_and-halves : (x y : ℕ) → bit_and x y ≡ min (x % 2) (y % 2) + 2 * bit_and (x / 2) (y / 2)
bit_and-halves zero y = simp bit_and-bitwise (omega arith)
bit_and-halves (suc x) y =
    let half = suc x / 2 in
    let all : and_rounds x half (y / 2) ≡ bit_and half (y / 2) =
      ap (λ n. and_rounds n half (y / 2)) {x = x} {y = x - half + half} (omega arith)
      ∙ and_rounds-add (x - half) half (y / 2) in
    and_first ∙ omega (arith, all)
  where
    and_first : bit_and (suc x) y ≡ and_rounds x (suc x / 2) (y / 2) * 2 + min (suc x % 2) (y % 2)
    and_first = simp bit_and-bitwise refl

pub bit-bit_and : (a b k : ℕ) → bit (bit_and a b) k ≡ min (bit a k) (bit b k)
unfolding bit
bit-bit_and a b zero = omega (arith, bit_and-halves a b)
bit-bit_and a b (suc k) = ap (λ x. bit x k) halved ∙ bit-bit_and (a / 2) (b / 2) k
  where
    halved : bit_and a b / 2 ≡ bit_and (a / 2) (b / 2)
    halved = omega (arith, bit_and-halves a b)

pub bit-le : (x k : ℕ) → bit x k ≤ 1
unfolding bit
bit-le x zero = omega arith
bit-le x (suc k) = bit-le (x / 2) k

-- `~x` on `w` bits.
pub bit-complement : (w x k : ℕ) → k < w → x < 2 ^ w → bit (2 ^ w - 1 - x) k ≡ 1 - bit x k
unfolding bit
bit-complement zero x k h l = absurd (omega arith)
bit-complement (suc w) x zero h l = omega (arith, pow-suc 2 w)
bit-complement (suc w) x (suc k) h l =
    ap (λ y. bit y k) (omega (arith, pow-suc 2 w))
    ∙ bit-complement w (x / 2) k (omega arith) (omega (arith, pow-suc 2 w))

pub bit-zero : (k : ℕ) → bit 0 k ≡ 0
unfolding bit
bit-zero zero = refl
bit-zero (suc k) = bit-zero k

pub bit-pow : (j k : ℕ) → bit (2 ^ j) k ≡ (if j == k then 1 else 0)
unfolding bit
bit-pow zero zero = refl
bit-pow zero (suc k) = bit-zero k ∙ ground arith
bit-pow (suc j) zero = ground (arith, pow-suc 2 j)
bit-pow (suc j) (suc k) =
    let halved : 2 ^ suc j / 2 ≡ 2 ^ j = omega (arith, pow-suc 2 j) in
    ground (arith, ap (λ y. bit y k) halved, bit-pow j k)

-- Two words of `w` bits that agree at every position are equal.
pub bit_ext : (w x y : ℕ) → x < 2 ^ w → y < 2 ^ w → ((k : ℕ) → k < w → bit x k ≡ bit y k) → x ≡ y
unfolding bit
bit_ext zero x y p q h = omega arith
bit_ext (suc w) x y p q h = omega (
  arith,
  h 0 (omega arith),
  bit_ext w (x / 2) (y / 2) (omega (arith, pow-suc 2 w)) (omega (arith, pow-suc 2 w))
      (λ k l. h (suc k) (omega arith)),
)

pub bit_and-le : (a b : ℕ) → bit_and a b ≤ a
bit_and-le a b = bound a a b (le_refl a)
  where
    bound : (n a b : ℕ) → a ≤ n → bit_and a b ≤ a
    bound n zero b p = simp bit_and-bitwise (omega arith)
    bound zero (suc a) b p = absurd (omega arith)
    bound (suc n) (suc a) b p =
        omega (arith, bit_and-halves (suc a) b, bound n (suc a / 2) (b / 2) (omega arith))

-- Above its width a word has no bits.
pub bit_above : (w x k : ℕ) → x < 2 ^ w → w ≤ k → bit x k ≡ 0
unfolding bit
bit_above zero x k l h = ap (λ y. bit y k) (omega arith) ∙ bit-zero k
bit_above (suc w) x zero l h = absurd (omega arith)
bit_above (suc w) x (suc k) l h = bit_above w (x / 2) k (omega (arith, pow-suc 2 w)) (omega arith)

differ-le : (x y : ℕ) → x ≤ 1 → y ≤ 1 → differ x y ≤ 1
differ-le zero y h k = k
differ-le (suc x) zero h k = h
differ-le (suc x) (suc y) h k = differ-le x y (omega arith) (omega arith)

digits-differ-lt : (w n a b : ℕ) → a < 2 ^ w → b < 2 ^ w → digits (λ y. y) differ n a b < 2 ^ w
digits-differ-lt w zero a b h k = k
digits-differ-lt w (suc n) zero b h k = k
digits-differ-lt zero (suc n) (suc a) b h k = absurd (omega arith)
digits-differ-lt (suc w) (suc n) (suc a) b h k = omega (
  arith,
  pow-suc 2 w,
  differ-le (suc a % 2) (b % 2) (omega arith) (omega arith),
  digits-differ-lt w n (suc a / 2) (b / 2) (omega (arith, pow-suc 2 w))
      (omega (arith, pow-suc 2 w)),
)

-- Exclusive or keeps the width of its operands.
pub bit_xor-lt : (w a b : ℕ) → a < 2 ^ w → b < 2 ^ w → bit_xor a b < 2 ^ w
bit_xor-lt w a b h k = simp bit_xor-bitwise (digits-differ-lt w a a b h k)
