-- ===== src/Encoding/Quantized.antt =====
-- Quantized16Encoder and Quantized16Decoder: a value becomes its place between two extremes, in
-- 65535 steps.
use x_tdb.Base.{ℕ, Bool, not, Option, none, some, List, [], ◌∷◌, ◌++◌, ◌||◌, if◌then◌else◌}
use x_tdb.Records.{MemRecord}
use x_tdb.Encoding.{Doubles, zero_double}

-- Quantized16Encoder::EncodeResult
pub data QuantizeResult : Type 0 where
  success err_invalid_range err_value_out_of_range err_invalid_data : QuantizeResult

-- Quantized16Decoder::DecodeResult
pub data DequantizeResult : Type 0 where
  success err_invalid_range err_invalid_data : DequantizeResult

pub record QuantizedPoint : Type 0 where
  pub time_offset : ℕ
  pub quantized_value : ℕ
  pub quality : ℕ

module _ (d : Doubles) (low_extreme high_extreme : ℕ) where
  open d use {add, sub, mul, div, lt, le, of_nat, is_finite, round_u16}

  -- range_
  abbrev pub range_of : ℕ
  range_of = sub high_extreme low_extreme

  abbrev is_bad_range : Bool
  is_bad_range = le range_of zero_double || not (is_finite range_of)

  unfoldable pub quantize_value : ℕ → Option ℕ
  quantize_value value =
      if lt value low_extreme || lt high_extreme value
      then none
      else some (round_u16 (mul (div (sub value low_extreme) range_of) (of_nat 65535)))

  -- The loop; a value out of range ends it, with the points so far in the output.
  unfoldable pub quantize_points :
      List QuantizedPoint → List MemRecord → QuantizeResult × List QuantizedPoint
  quantize_points points [] = (QuantizeResult.success, points)
  quantize_points points (r ∷ rs) = elim (quantize_value r.value) [
    | none ↦ (QuantizeResult.err_value_out_of_range, points)
    | some quantized ↦
        quantize_points
          (points
            ++ record {
              time_offset = r.time_offset;
              quantized_value = quantized;
              quality = r.quality;
            }
              ∷ [])
          rs
  ]

  unfoldable pub encode_quantized : List MemRecord → QuantizeResult × List QuantizedPoint
  unfolding quantize_points
  encode_quantized [] = (QuantizeResult.success, [])
  encode_quantized (r ∷ rs) =
      if is_bad_range then (QuantizeResult.err_invalid_range, []) else quantize_points [] (r ∷ rs)

  unfoldable pub dequantize_value : ℕ → ℕ
  dequantize_value quantized =
      add low_extreme (mul (div (of_nat quantized) (of_nat 65535)) range_of)

  unfoldable pub dequantize_points : List QuantizedPoint → List MemRecord
  unfolding dequantize_value
  dequantize_points [] = []
  dequantize_points (q ∷ qs) =
      record {
        time_offset = q.time_offset;
        quality = q.quality;
        value = dequantize_value q.quantized_value;
      }
      ∷ dequantize_points qs

  unfoldable pub decode_quantized : List QuantizedPoint → DequantizeResult × List MemRecord
  unfolding dequantize_points
  decode_quantized [] = (DequantizeResult.success, [])
  decode_quantized (q ∷ qs) =
      if is_bad_range
      then (DequantizeResult.err_invalid_range, [])
      else (DequantizeResult.success, dequantize_points (q ∷ qs))
