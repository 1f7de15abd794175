-- ===== src/Seal/Crc.antt =====
-- calculateCRC32, the same code in src/chunk_sealer.cpp and src/raw_scanner.cpp. The table entry is
-- worked out at each use, which is what the table holds after init_crc32_table.
use x_tdb.Base.{
  ℕ, zero, suc, ◌+◌, ◌/◌, ◌^◌, ◌≤◌, ◌<◌, ◌≡◌, refl, ap, arith, Bytes, bit_and, bit_and-le, bit_xor,
  bit_xor-lt, ◌==◌, if◌then◌else◌,
}

-- One round of the inner loop of init_crc32_table.
unfoldable pub crc_shift : ℕ → ℕ
crc_shift crc = if bit_and crc 1 == 0 then crc / 2 else bit_xor (crc / 2) 0xEDB8_8320

unfoldable pub crc_rounds : ℕ → ℕ → ℕ
crc_rounds zero crc = crc
crc_rounds (suc n) crc = crc_rounds n (crc_shift crc)

-- crc32_table[i]
unfoldable pub crc_table : ℕ → ℕ
unfolding crc_rounds crc_shift
crc_table i = crc_rounds 8 i

-- The loop over the bytes, by the bytes left.
unfoldable pub crc_loop : ℕ → Bytes → ℕ → ℕ → ℕ
crc_loop zero m i crc = crc
crc_loop (suc n) m i crc =
    crc_loop n m (i + 1) (bit_xor (crc / 256) (crc_table (bit_and (bit_xor crc (m i)) 0xFF)))

unfoldable pub calculate_crc32 : Bytes → ℕ → ℕ
unfolding crc_loop crc_table
calculate_crc32 m size = bit_xor (crc_loop size m 0 0xFFFF_FFFF) 0xFFFF_FFFF

crc_loop_ext :
    (n : ℕ) (m k : Bytes) (i crc : ℕ)
    → ((a : ℕ) → i ≤ a → a < i + n → m a ≡ k a)
    → crc_loop n m i crc ≡ crc_loop n k i crc
unfolding crc_loop
crc_loop_ext zero m k i crc h = refl
crc_loop_ext (suc n) m k i crc h =
    rw (h i (omega arith) (omega arith))
      (crc_loop_ext n m k (i + 1) _ (λ a l u. h a (omega arith) (omega arith)))

-- The checksum depends on its `size` bytes alone.
pub calculate_crc32_ext :
    (m k : Bytes) (size : ℕ)
    → ((a : ℕ) → a < size → m a ≡ k a)
    → calculate_crc32 m size ≡ calculate_crc32 k size
unfolding calculate_crc32
calculate_crc32_ext m k size h =
    ap (λ (c : ℕ). bit_xor c 0xFFFF_FFFF)
      (crc_loop_ext size m k 0 0xFFFF_FFFF (λ a l u. h a (omega arith)))

crc_shift-lt : (crc : ℕ) → crc < 2 ^ 32 → crc_shift crc < 2 ^ 32
unfolding crc_shift
crc_shift-lt crc h = ground (arith, bit_xor-lt 32 (crc / 2) 0xEDB8_8320 (omega arith) (omega arith))

crc_rounds-lt : (n crc : ℕ) → crc < 2 ^ 32 → crc_rounds n crc < 2 ^ 32
unfolding crc_rounds
crc_rounds-lt zero crc h = h
crc_rounds-lt (suc n) crc h = crc_rounds-lt n (crc_shift crc) (crc_shift-lt crc h)

crc_loop-lt :
    (n : ℕ) (m : Bytes) (i crc : ℕ)
    → ((a : ℕ) → m a < 256)
    → crc < 2 ^ 32
    → crc_loop n m i crc < 2 ^ 32
unfolding crc_loop crc_table
crc_loop-lt zero m i crc b h = h
crc_loop-lt (suc n) m i crc b h =
    let mixed = bit_xor-lt 32 crc (m i) h (omega (arith, b i)) in
    let index : bit_and (bit_xor crc (m i)) 0xFF < 2 ^ 32 =
      omega (arith, bit_and-le (bit_xor crc (m i)) 0xFF, mixed) in
    crc_loop-lt n m (i + 1) (bit_xor (crc / 256) (crc_table (bit_and (bit_xor crc (m i)) 0xFF))) b (
      bit_xor-lt 32 (crc / 256) (crc_table (bit_and (bit_xor crc (m i)) 0xFF)) (omega arith)
        (crc_rounds-lt 8 (bit_and (bit_xor crc (m i)) 0xFF) index))

-- The checksum of bytes fits in its field.
pub calculate_crc32-lt :
    (m : Bytes) (size : ℕ) → ((a : ℕ) → m a < 256) → calculate_crc32 m size < 2 ^ 32
unfolding calculate_crc32
calculate_crc32-lt m size b =
    bit_xor-lt 32 (crc_loop size m 0 0xFFFF_FFFF) 0xFFFF_FFFF
      (crc_loop-lt size m 0 0xFFFF_FFFF b (omega arith)) (omega arith)

-- The standard check value of CRC-32, of the text "123456789".
abbrev digits_text : Bytes
digits_text i = 0x31 + i

crc_check : calculate_crc32 digits_text 9 ≡ 0xCBF4_3926
unfolding calculate_crc32
crc_check = refl
