-- ===== src/MemBuffer/Offset.antt =====
-- The 24-bit time offset of a record in MemBuffer.
use x_tdb.Base.{ℕ, ◌-◌, ◌/◌, ◌^◌, ◌≤◌, ◌<◌, ◌≡◌, arith, min}
use x_tdb.Records.{TimeUnit}
use x_tdb.MemBuffer.{signed_sub, signed_div, scaled_offset, clamp_offset, calculate_time_offset}

-- An offset fits in the three bytes that a block gives it, whatever the timestamps.
pub calculate_time_offset-lt :
    (t b : ℕ) (unit : TimeUnit) → calculate_time_offset t b unit < 256 ^ 3
unfolding calculate_time_offset clamp_offset
calculate_time_offset-lt t b unit = ground arith

-- The microseconds of a unit.
abbrev pub unit_us : TimeUnit → ℕ
unit_us TimeUnit.tu_100ms = 100_000
unit_us TimeUnit.tu_10ms = 10_000
unit_us TimeUnit.tu_ms = 1000
unit_us TimeUnit.tu_100us = 100
unit_us TimeUnit.tu_10us = 10
unit_us TimeUnit.tu_us = 1
unit_us TimeUnit.other = 2 ^ 64

module _ (t b : ℕ) (le : b ≤ t) (lt : t < 2 ^ 63) where
  signed_sub_lem : signed_sub t b ≡ t - b
  signed_sub_lem = omega arith

  -- A time not before the base is its distance in units, cut off at the largest offset.
  pub calculate_time_offset_after :
      (unit : TimeUnit) → calculate_time_offset t b unit ≡ min ((t - b) / unit_us unit) 0xFF_FFFF
  unfolding calculate_time_offset scaled_offset clamp_offset signed_div
  calculate_time_offset_after TimeUnit.tu_100ms = ground (arith, signed_sub_lem)
  calculate_time_offset_after TimeUnit.tu_10ms = ground (arith, signed_sub_lem)
  calculate_time_offset_after TimeUnit.tu_ms = ground (arith, signed_sub_lem)
  calculate_time_offset_after TimeUnit.tu_100us = ground (arith, signed_sub_lem)
  calculate_time_offset_after TimeUnit.tu_10us = ground (arith, signed_sub_lem)
  calculate_time_offset_after TimeUnit.tu_us = ground (arith, signed_sub_lem)
  calculate_time_offset_after TimeUnit.other = ground (arith, signed_sub_lem)
