-- ===== src/Encoding.antt =====
-- The encoders of src/swinging_door_encoder.cpp and src/quantized_16_encoder.cpp, and the decoder of
-- src/quantized_16_decoder.cpp. The arithmetic of double is a parameter, over 64-bit patterns.
pub mod Door
pub mod Quantized
use x_tdb.Base.{ℕ, ◌+◌, ◌<◌, Bool}

-- What the processor does with doubles: the four operations, the comparisons, the conversion of an
-- unsigned integer, std::isfinite, and std::round followed by the conversion to uint16_t.
pub record Doubles : Type 0 where
  pub add : ℕ → ℕ → ℕ
  pub sub : ℕ → ℕ → ℕ
  pub mul : ℕ → ℕ → ℕ
  pub div : ℕ → ℕ → ℕ
  pub lt : ℕ → ℕ → Bool
  pub le : ℕ → ℕ → Bool
  pub of_nat : ℕ → ℕ
  pub is_finite : ℕ → Bool
  pub round_u16 : ℕ → ℕ
  pub round_u16_lt : (x : ℕ) → round_u16 x < 65536

-- 0.0, 1e-9 and the infinities
abbrev pub zero_double : ℕ
zero_double = 0

abbrev pub nano_double : ℕ
nano_double = 0x3E11_2E0B_E826_D695

abbrev pub infinity : ℕ
infinity = 0x7FF0_0000_0000_0000

abbrev pub neg_infinity : ℕ
neg_infinity = 0xFFF0_0000_0000_0000
