-- ===== src/Snapshot/Ignore.antt =====
-- Measurements that cannot influence a snapshot.
use tolo_observation.Snapshot.{
  ObservationPointMapping, max_hold, States, Time, Float, text_eq, Text,
}
use tolo_observation.Snapshot.Read.{
  Readings, is_qr_point, is_usable, read_measurement, read_measurements,
}
use tolo_observation.Snapshot.Build.{anchors_of, new_snapshot}
use tolo_observation.Measurement.{Measurement}
use tolo_observation.Hold.{disabled}
use tolo_observation.Common.{ℕ, ◌≡◌, false, none, some, List, [], ◌∷◌, arith, ◌++◌, ◌⊎◌}
use tolo_observation.Common.Map.{lookup}
use tolo_observation.Common.Int.{sat_i64, ◌<ℤ◌, ◌-ℤ◌}
use tolo_observation.Common.Result.{Action}

module _ {F : Type 0} (window_start window_end : Time) (mappings : List ObservationPointMapping)
    (states : States) where
  read_measurement-unusable :
      (m : Measurement F) (r : Readings F)
      → is_usable window_start window_end mappings states m ≡ false
      → read_measurement window_start window_end mappings states m r ≡ r
  unfolding read_measurement
  read_measurement-unusable m r e = rw e

  read_measurements-unusable :
      (xs ys : List (Measurement F)) (m : Measurement F) (r : Readings F)
      → is_usable window_start window_end mappings states m ≡ false
      → read_measurements window_start window_end mappings states (xs ++ m ∷ ys) r
        ≡ read_measurements window_start window_end mappings states (xs ++ ys) r
  unfolding read_measurements
  read_measurements-unusable [] ys m r e = rw (read_measurement-unusable m r e, read_measurements)
  read_measurements-unusable (x ∷ xs) ys m r e = read_measurements-unusable xs ys m _ e

  -- The measurement comes from a camera point that is disabled or has no state, or that sent no
  -- mean, and from no QR location; or it ended longer than the longest hold ago.
  abbrev pub IsIgnored : Measurement F → Type 0
  IsIgnored m =
      ((is_qr_point mappings m.observation_point_id ≡ false)
        × ((lookup text_eq m.observation_point_id states ≡ some disabled)
            ⊎ (lookup text_eq m.observation_point_id states ≡ none)
            ⊎ (m.mean_detected_people ≡ none)))
      ⊎ (max_hold <ℤ window_end -ℤ m.window_end)

  is_usable-IsIgnored :
      (m : Measurement F)
      → IsIgnored m
      → is_usable window_start window_end mappings states m ≡ false
  unfolding is_usable sat_i64
  is_usable-IsIgnored m h = ground arith

  -- A measurement that is ignored can be left out anywhere in the list without a change to the
  -- snapshot, its gaps and its sensor sets, whatever else was measured.
  pub new_snapshot-IsIgnored :
      {S : Type 0} (f : Float F) (read : Action S (List ℕ)) (event : Text)
      (xs ys : List (Measurement F)) (m : Measurement F) (s : S)
      → IsIgnored m
      → new_snapshot f read event window_start window_end (xs ++ m ∷ ys) mappings states s
        ≡ new_snapshot f read event window_start window_end (xs ++ ys) mappings states s
  unfolding new_snapshot anchors_of
  new_snapshot-IsIgnored f read event xs ys m s h =
      rw (read_measurements-unusable xs ys m [] (is_usable-IsIgnored m h))
