-- ===== src/Measurement.antt =====
-- internal/domain/measurement.go.
pub mod Laws
use tolo_observation.EdgeDevice.{ObservationPointId}
use tolo_observation.Float.{Float, minutes}
use tolo_observation.GoTime.{Time, after, sub}
use tolo_observation.Errors.{
  sentinel, invalid_measurement_window, negative_count, invalid_detected_people,
}
use tolo_observation.Common.{
  ℕ, zero, suc, ◌≡◌, refl, Bool, true, false, Option, none, some, List, [], ◌∷◌, arith, ◌||◌,
  if◌then◌else◌, not,
}
use tolo_observation.Common.Int.{ℤ, pos, ltb_ℤ}
use tolo_observation.Common.Result.{Result, err, ok}
use tolo_observation.Common.Text.{Text, trim_space}
use tolo_observation.PublicId.{parse_public_id}

pub record Measurement (F : Type 0) : Type 0 where
  pub observation_point_id : ObservationPointId
  pub window_start : Time
  pub window_end : Time
  pub count_in : ℤ  -- int32
  pub count_out : ℤ  -- int32
  pub mean_detected_people : Option F

module _ {F : Type 0} (f : Float F) where
  abbrev pub is_bad_mean : Option F → Bool
  is_bad_mean none = false
  is_bad_mean (some x) = f.lt x (f.of_int (pos 0)) || f.is_nan x || f.is_inf x

  -- The checks after the ID was parsed.
  unfoldable pub check_measurement : Measurement F → Result (Measurement F)
  check_measurement m =
      if not (after m.window_end m.window_start)
      then err (sentinel invalid_measurement_window)
      else if ltb_ℤ m.count_in (pos 0) || ltb_ℤ m.count_out (pos 0)
      then err (sentinel negative_count)
      else if is_bad_mean m.mean_detected_people
      then err (sentinel invalid_detected_people)
      else ok m

  unfoldable pub new_measurement : Text → Time → Time → ℤ → ℤ → Option F → Result (Measurement F)
  new_measurement id start end_time count_in count_out mean_people =
      elim (parse_public_id (trim_space id)) [
        | err e ↦ err e
        | ok point_id ↦ check_measurement (record {
          observation_point_id = point_id;
          window_start = start;
          window_end = end_time;
          count_in = count_in;
          count_out = count_out;
          mean_detected_people = mean_people;
        })
      ]

  unfoldable pub rate : Measurement F → ℤ → F
  rate m count =
      let span = minutes f (sub m.window_end m.window_start) in
      if f.le span (f.of_int (pos 0)) then f.of_int (pos 0) else f.over (f.of_int count) span

  unfoldable pub rate_in : Measurement F → F
  rate_in m = rate m m.count_in

  unfoldable pub rate_out : Measurement F → F
  rate_out m = rate m m.count_out
