-- ===== src/Flags/Laws.antt =====
-- What the flag operations do to each bit.
use x_tdb.Base.{
  ℕ, ◌^◌, ◌≤◌, ◌<◌, ◌≡◌, ◌↔◌, inl, inr, sym, ap, ◌∙◌, arith, true, false, min, bit, bit_and,
  bit-bit_and, bit-complement, bit-pow, bit-le, bit_ext, bit_and-le, bit_above, bit-zero, ltb,
  ltb→lt, ltb→le, Bool-cases, ◌==◌, ==→eq, eq→==, if◌then◌else◌,
}
use native.Mathlib.Nat.{pow-le-pow_right}
use x_tdb.Flags.{complement, clear_bit, is_bit_set, validate_transition}

pow_bound : (j : ℕ) → j < 32 → 2 ^ j < 2 ^ 32
pow_bound j h = omega (arith, pow-le-pow_right {n = 2} (omega arith) {i = j} {j = 31} (omega arith))

-- Clearing a bit makes that bit 0 and leaves every other bit alone.
pub bit-clear_bit :
    (flags j k : ℕ)
    → flags < 2 ^ 32
    → j < 32
    → bit (clear_bit flags j) k ≡ (if j == k then 0 else bit flags k)
unfolding clear_bit
bit-clear_bit flags j k h l = elim (Bool-cases (ltb k 32)) [
  | inl low ↦ ground (
    arith,
    bit-bit_and flags (complement (2 ^ j)) k,
    bit-complement 32 (2 ^ j) k (ltb→lt k 32 low) (pow_bound j l),
    bit-pow j k,
    bit-le flags k,
  )
  | inr high ↦
      ground
        (arith, bit-bit_and flags (complement (2 ^ j)) k, bit_above 32 flags k h (ltb→le k 32 high))
]

pub clear_bit-lt : (flags j : ℕ) → flags < 2 ^ 32 → clear_bit flags j < 2 ^ 32
unfolding clear_bit
clear_bit-lt flags j h = omega (arith, bit_and-le flags (complement (2 ^ j)))

-- `(x & y) == 0` says that no position has both bits.
and_zero :
    (x y : ℕ) → x < 2 ^ 32 → ((k : ℕ) → k < 32 → min (bit x k) (bit y k) ≡ 0) → bit_and x y ≡ 0
and_zero x y h none_common =
    bit_ext 32 (bit_and x y) 0 (omega (arith, bit_and-le x y)) (omega arith)
      λ k l. bit-bit_and x y k ∙ none_common k l ∙ sym (bit-zero k)

zero_and : (x y k : ℕ) → bit_and x y ≡ 0 → min (bit x k) (bit y k) ≡ 0
zero_and x y k h = sym (bit-bit_and x y k) ∙ ap (λ t. bit t k) h ∙ bit-zero k

only_at : (flags j k : ℕ) → bit flags j ≡ 0 → min (bit flags k) (bit (2 ^ j) k) ≡ 0
only_at flags j k h = elim (Bool-cases (j == k)) [
  | inl same ↦ omega (arith, sym (ap (bit flags) (==→eq j k same)))
  | inr differs ↦ ground (arith, bit-pow j k)
]

pub is_bit_set-true : (flags j : ℕ) → flags < 2 ^ 32 → is_bit_set flags j ≡ true → bit flags j ≡ 1
unfolding is_bit_set
is_bit_set-true flags j l h = elim (Bool-cases (bit flags j == 0)) [
  | inl clear ↦
      ground
        (arith, and_zero flags (2 ^ j) l (λ k u. only_at flags j k (==→eq (bit flags j) 0 clear)))
  | inr set ↦ ground (arith, bit-le flags j)
]

pub is_bit_set-false : (flags j : ℕ) → is_bit_set flags j ≡ false → bit flags j ≡ 0
unfolding is_bit_set
is_bit_set-false flags j h = ground (arith, zero_and flags (2 ^ j) j, bit-pow j j)

-- validateTransition accepts a new value exactly when no bit goes from 0 to 1.
pub validate_transition_lem :
    (old_value new_value : ℕ)
    → old_value < 2 ^ 32
    → new_value < 2 ^ 32
    → (validate_transition old_value new_value ≡ true)
      ↔ ((k : ℕ) → k < 32 → bit new_value k ≤ bit old_value k)
unfolding validate_transition
validate_transition_lem old_value new_value h l = (
  λ v k u. omega (
    arith,
    zero_and new_value (complement old_value) k (==→eq _ _ v),
    bit-complement 32 old_value k u h,
    bit-le new_value k,
    bit-le old_value k,
  ),
  λ v. eq→== _ _ (
      and_zero new_value (complement old_value) l
        λ k u. omega (arith, v k u, bit-complement 32 old_value k u h, bit-le new_value k)),
)

-- Clearing a bit is always a transition that validateTransition accepts.
pub validate-clear_bit :
    (flags j : ℕ) → flags < 2 ^ 32 → j < 32 → validate_transition flags (clear_bit flags j) ≡ true
validate-clear_bit flags j h l =
    (validate_transition_lem flags (clear_bit flags j) h (clear_bit-lt flags j h)).1
      λ k u. ground (arith, bit-clear_bit flags j k h l)
