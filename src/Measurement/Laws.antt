-- ===== src/Measurement/Laws.antt =====
-- Which measurements are accepted.
use tolo_observation.Measurement.{
  Measurement, is_bad_mean, check_measurement, new_measurement, Float, ok, Text, Time, trim_space,
  err,
}
use tolo_observation.PublicId.Laws.{IsPublicId, parse_public_id-cases}
use tolo_observation.Common.{◌≡◌, refl, false, Option, none, some, arith, ◌↔◌, inl, inr, subst, sym}
use tolo_observation.Common.Int.{◌<ℤ◌, pos, ◌≤ℤ◌, ℤ}

-- A mean that is absent, or a number that is not below zero, not NaN and not infinite.
abbrev pub IsFiniteMean : {F : Type 0} → Float F → Option F → Type 0
IsFiniteMean f none = Unit
IsFiniteMean f (some x) =
    (f.lt x (f.of_int (pos 0)) ≡ false) × (f.is_nan x ≡ false) × (f.is_inf x ≡ false)

-- A measurement that may be recorded.
pub record IsMeasurement {F : Type 0} (f : Float F) (m : Measurement F) : Type 0 where
  pub window_forward : m.window_start <ℤ m.window_end
  pub in_nonneg : pos 0 ≤ℤ m.count_in
  pub out_nonneg : pos 0 ≤ℤ m.count_out
  pub mean_finite : IsFiniteMean f m.mean_detected_people

module _ {F : Type 0} (f : Float F) where
  is_bad_mean-IsFinite : (o : Option F) → (is_bad_mean f o ≡ false) ↔ IsFiniteMean f o
  is_bad_mean-IsFinite none = (λ e. tt, λ e. refl)
  is_bad_mean-IsFinite (some x) = ground arith

  check_measurement_ok :
      (m n : Measurement F) → (check_measurement f m ≡ ok n) ↔ ((n ≡ m) × IsMeasurement f m)
  unfolding check_measurement
  check_measurement_ok m n = ground (arith, is_bad_mean-IsFinite m.mean_detected_people)

  -- The measurement with the parts that are given.
  abbrev pub given : Text → Time → Time → ℤ → ℤ → Option F → Measurement F
  given id start end_time count_in count_out mean_people = record {
    observation_point_id = trim_space id;
    window_start = start;
    window_end = end_time;
    count_in = count_in;
    count_out = count_out;
    mean_detected_people = mean_people;
  }

  -- A measurement is accepted exactly if its trimmed ID is a public ID, its window ends after it
  -- starts, neither count is negative, and a mean that is given is not below zero, not NaN and not
  -- infinite; it then holds the parts that were given, the ID trimmed.
  pub new_measurement_ok :
      (id : Text) (start end_time : Time) (count_in count_out : ℤ) (mean_people : Option F)
      (m : Measurement F)
      → (new_measurement f id start end_time count_in count_out mean_people ≡ ok m) ↔ (
          IsPublicId (trim_space id)
          × (m ≡ given id start end_time count_in count_out mean_people)
          × IsMeasurement f m)
  unfolding new_measurement
  new_measurement_ok id start end_time count_in count_out mean_people m =
      let m' = given id start end_time count_in count_out mean_people in
      let (accepted, returned) = check_measurement_ok m' m in
      elim (parse_public_id-cases (trim_space id)) [
        | inl (e, valid) ↦ (
          λ h.
              let (same, good) = accepted (rw (e, new_measurement) at h) in
              (valid, same, subst (IsMeasurement f) (sym same) good),
          λ h. rw (e, new_measurement) (returned (h.1, subst (IsMeasurement f) h.1 h.2)),
        )
        | inr (e, invalid) ↦ (
          λ h. let impossible : err _ ≡ ok m = rw (e, new_measurement) at h in cc impossible,
          λ h. absurd (invalid h.0),
        )
      ]
