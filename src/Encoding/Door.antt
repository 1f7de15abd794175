-- ===== src/Encoding/Door.antt =====
-- SwingingDoorEncoder::encode: a line is drawn from an anchor for as long as one slope serves all
-- the records since, within the tolerance; then the last such record is stored and is the anchor.
pub mod Picked
use x_tdb.Base.{
  ℕ, ◌+◌, ◌-◌, ◌%◌, ◌^◌, Bool, true, false, not, List, [], ◌∷◌, ◌++◌, map, ◌==◌, if◌then◌else◌,
}
use x_tdb.Layout.Units.{u32}
use x_tdb.Records.{MemRecord}
use x_tdb.Encoding.{Doubles, zero_double, nano_double, infinity, neg_infinity}

-- SwingingDoorEncoder::EncodeResult
pub data DoorResult : Type 0 where
  success err_invalid_tolerance err_invalid_data err_buffer_too_small : DoorResult

-- CompressedPoint
pub record Point : Type 0 where
  pub time_offset : ℕ
  pub value : ℕ
  pub quality : ℕ

unfoldable pub point_of : MemRecord → Point
point_of r = record { time_offset = r.time_offset; value = r.value; quality = r.quality }

-- The variables of the loop, with the points stored so far.
pub record Door : Type 0 where
  pub anchor : Point
  pub last_candidate : Point
  pub min_slope : ℕ
  pub max_slope : ℕ
  pub points : List Point

module _ (d : Doubles) (effective_tolerance : ℕ) where
  open d use {add, sub, div, lt, le, of_nat}

  -- Seconds from the anchor.
  abbrev pub seconds_from : Point → Point → ℕ
  seconds_from anchor current =
      div (of_nat (u32 (current.time_offset + 2 ^ 32 - anchor.time_offset))) (of_nat 1000)

  abbrev slope_upper : Point → Point → ℕ
  slope_upper anchor current =
      div (sub (add current.value effective_tolerance) (sub anchor.value effective_tolerance))
        (seconds_from anchor current)

  abbrev slope_lower : Point → Point → ℕ
  slope_lower anchor current =
      div (sub (sub current.value effective_tolerance) (add anchor.value effective_tolerance))
        (seconds_from anchor current)

  -- The body of the loop after the slopes of the record are known.
  unfoldable pub door_narrow : Door → Point → ℕ → ℕ → Door
  door_narrow s current lower upper =
      let min_slope = if lt s.min_slope lower then lower else s.min_slope in
      let max_slope = if lt upper s.max_slope then upper else s.max_slope in
      if le min_slope max_slope
      then record s { last_candidate = current; min_slope = min_slope; max_slope = max_slope }
      else record {
        anchor = s.last_candidate;
        last_candidate = current;
        min_slope = neg_infinity;
        max_slope = infinity;
        points = s.points ++ s.last_candidate ∷ [];
      }

  unfoldable pub door_step : Door → MemRecord → Door
  unfolding door_narrow
  door_step s r =
      let current = point_of r in
      if lt (seconds_from s.anchor current) nano_double
      then s
      else door_narrow s current (slope_lower s.anchor current) (slope_upper s.anchor current)

  unfoldable pub door_loop : Door → List MemRecord → Door
  unfolding door_step
  door_loop s [] = s
  door_loop s (r ∷ rs) = door_loop (door_step s r) rs

-- The time offset of the last stored point differs from that of `p`, or nothing is stored.
unfoldable pub is_new : List Point → Point → Bool
is_new [] p = true
is_new (q ∷ []) p = not (q.time_offset == p.time_offset)
is_new (q ∷ q' ∷ qs) p = is_new (q' ∷ qs) p

-- The points after the loop.
unfoldable pub door_points : Door → List Point
unfolding is_new
door_points s =
    if is_new s.points s.last_candidate then s.points ++ s.last_candidate ∷ [] else s.points

unfoldable pub open_door : MemRecord → MemRecord → Door
unfolding point_of
open_door first second = record {
  anchor = point_of first;
  last_candidate = point_of second;
  min_slope = neg_infinity;
  max_slope = infinity;
  points = point_of first ∷ [];
}

-- The branches after the parameters have been checked.
unfoldable pub encode_valid : Doubles → ℕ → List MemRecord → List Point
unfolding door_loop door_points open_door
encode_valid d effective_tolerance [] = []
encode_valid d effective_tolerance (r ∷ []) = point_of r ∷ []
encode_valid d effective_tolerance (r ∷ s ∷ rs) =
    door_points (door_loop d effective_tolerance (open_door r s) (s ∷ rs))

-- encode, by tolerance_ and compression_factor_; the points are those left in the output.
unfoldable pub encode : Doubles → ℕ → ℕ → List MemRecord → DoorResult × List Point
unfolding encode_valid
encode d tolerance compression_factor [] = (success, [])
encode d tolerance compression_factor (r ∷ rs) =
    if d.lt tolerance zero_double
    then (err_invalid_tolerance, [])
    else if d.le compression_factor zero_double
    then (err_invalid_tolerance, [])
    else (success, encode_valid d (d.mul tolerance compression_factor) (r ∷ rs))
