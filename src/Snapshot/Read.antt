-- ===== src/Snapshot/Read.antt =====
-- The loop of `NewSnapshot` over the measurements, and the numbers that it takes of a reading.
use mathlib.Core.List.{foldl}
use tolo_observation.Hold.{active, offline, disabled}
use tolo_observation.Snapshot.{
  Reading, PeopleSample, ObservationPointMapping, is_qr, max_hold, occupancy_trend_span,
  half_trend_span, States, ObservationPointId, ObservationPointState, Float, Time, pos, before,
  after, text_eq, minutes, sub,
}
use tolo_observation.Measurement.{Measurement}
use tolo_observation.Common.{
  Bool, true, false, Option, none, some, List, [], ◌∷◌, any, if◌then◌else◌, ◌||◌, get_or, ◌&&◌,
  length, ◌++◌, is_some, map, not,
}
use tolo_observation.Common.Map.{lookup, insert}
use tolo_observation.Common.Int.{ltb_ℤ, wrap_i64, ◌+ℤ◌}

-- `qr[id]`: whether a mapping with the QR method names the point.
unfoldable pub is_qr_point : List ObservationPointMapping → ObservationPointId → Bool
is_qr_point mappings id =
    any (λ (m : ObservationPointMapping). is_qr m.method && text_eq m.observation_point_id id)
      mappings

abbrev pub is_enabled_camera : Option ObservationPointState → Bool
is_enabled_camera none = false
is_enabled_camera (some active) = true
is_enabled_camera (some offline) = true
is_enabled_camera (some disabled) = false

module _ {F : Type 0} (f : Float F) where
  unfoldable pub sum : List F → F
  sum values = foldl f.plus (f.of_int (pos 0)) values

  unfoldable pub mean : List F → F
  unfolding sum
  mean values = f.over (sum values) (f.of_int (pos (length values)))

  -- `first` and `last` of `peopleTrend`, from the first sample on.
  unfoldable pub first_at : Time → List (PeopleSample F) → Time
  first_at t [] = t
  first_at t (s ∷ samples) = first_at (if before s.at t then s.at else t) samples

  unfoldable pub last_at : Time → List (PeopleSample F) → Time
  last_at t [] = t
  last_at t (s ∷ samples) = last_at (if after s.at t then s.at else t) samples

  -- The slope of the line through the samples, by least squares.
  unfoldable pub slope : Time → List (PeopleSample F) → F
  slope first samples =
      let count = f.of_int (pos (length samples)) in
      let minute_of = λ (s : PeopleSample F). minutes f (sub s.at first) in
      let mean_at = f.over (sum (map minute_of samples)) count in
      let mean_people = f.over (sum (map (λ (s : PeopleSample F). s.people) samples)) count in
      let deviation = λ (s : PeopleSample F). f.minus (minute_of s) mean_at in
      let covariance = sum (
        map (λ (s : PeopleSample F). f.times (deviation s) (f.minus s.people mean_people))
          samples) in
      let variance =
        sum (map (λ (s : PeopleSample F). f.times (deviation s) (deviation s)) samples) in
      f.over covariance variance

  unfoldable pub people_trend : List (PeopleSample F) → Option F
  unfolding first_at last_at slope
  people_trend [] = none
  people_trend (s ∷ []) = none
  people_trend (s ∷ t ∷ samples) =
      let first = first_at s.at (s ∷ t ∷ samples) in
      let last = last_at s.at (s ∷ t ∷ samples) in
      if ltb_ℤ (sub last first) half_trend_span then none else some (slope first (s ∷ t ∷ samples))

abbrev pub Readings : Type 0 → Type 0
Readings F = List (ObservationPointId × Reading F)

module _ {F : Type 0} (window_start window_end : Time) (mappings : List ObservationPointMapping)
    (states : States) where
  -- Whether the loop takes a measurement into account.
  unfoldable pub is_usable : Measurement F → Bool
  is_usable m =
      (is_qr_point mappings m.observation_point_id
        || is_enabled_camera (lookup text_eq m.observation_point_id states)
          && is_some m.mean_detected_people)
      && not (ltb_ℤ max_hold (sub window_end m.window_end))

  abbrev pub new_reading : Measurement F → Reading F
  new_reading m = record { latest = m; detected = []; trend = []; count_in = pos 0 }

  abbrev pub sample : Measurement F → List (PeopleSample F)
  sample m = elim m.mean_detected_people [
    | none ↦ []
    | some people ↦
        if ltb_ℤ (sub window_end m.window_end) occupancy_trend_span
        then record { at = m.window_end; people = people } ∷ []
        else []
  ]

  abbrev pub detection : Measurement F → List F
  detection m = elim m.mean_detected_people [
    | none ↦ []
    | some people ↦ if after m.window_end window_start then people ∷ [] else []
  ]

  -- One round on the reading of the measurement's point.
  unfoldable pub add_measurement : Reading F → Measurement F → Reading F
  add_measurement r m = record {
    latest = if after m.window_end r.latest.window_end then m else r.latest;
    detected = r.detected ++ detection m;
    trend = r.trend ++ sample m;
    count_in =
        if after m.window_end window_start then wrap_i64 (r.count_in +ℤ m.count_in) else r.count_in;
  }

  unfoldable pub read_measurement : Measurement F → Readings F → Readings F
  read_measurement m readings =
      let current = get_or (lookup text_eq m.observation_point_id readings) (new_reading m) in
      if is_usable m
      then insert text_eq m.observation_point_id (add_measurement current m) readings
      else readings

  unfoldable pub read_measurements : List (Measurement F) → Readings F → Readings F
  read_measurements [] readings = readings
  read_measurements (m ∷ ms) readings = read_measurements ms (read_measurement m readings)
