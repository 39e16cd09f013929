-- ===== src/Snapshot/Total.antt =====
-- `NewSnapshot` dereferences no nil mean where no point is mapped both as a camera and as a QR
-- location.
use mathlib.Core.Option
use tolo_observation.Snapshot.{
  ObservationPointMapping, is_qr, Reading, AnchorScore, States, Float, Time, ObservationPointId,
  text_eq, anchor_eq,
}
use tolo_observation.Snapshot.Read.{
  Readings, is_qr_point, is_usable, new_reading, add_measurement, read_measurement,
  read_measurements,
}
use tolo_observation.Snapshot.Compose.{
  Anchors, add_mapping, add_mappings, score_mapping, add_camera, new_anchor_score,
}
use tolo_observation.Snapshot.Build.{anchors_of}
use tolo_observation.Measurement.{Measurement}
use tolo_observation.Common.{
  ◌≡◌, refl, true, false, Option, none, some, List, [], ◌∷◌, arith, All, ◌||◌, not, is_some, get_or,
  Bool-cases, Option-cases, inl, inr, subst,
}
use tolo_observation.Common.Map.{lookup, insert, lookup-insert}
use tolo_observation.Common.Text.{text_eq_iff}

-- No camera mapping names a point that a QR mapping names.
abbrev pub AreSeparate : List ObservationPointMapping → List ObservationPointMapping → Type 0
AreSeparate mappings = All (λ (m : ObservationPointMapping).
    is_qr m.method || not (is_qr_point mappings m.observation_point_id) ≡ true)

module _ {F : Type 0} (f : Float F) (window_start window_end : Time)
    (mappings : List ObservationPointMapping) (states : States) where
  -- A reading of a point that is no QR location has a mean in its latest measurement.
  abbrev HaveMeans : Readings F → Type 0
  HaveMeans readings =
      (id : ObservationPointId) (r : Reading F)
      → lookup text_eq id readings ≡ some r
      → is_qr_point mappings id ≡ false
      → is_some r.latest.mean_detected_people ≡ true

  usable-mean :
      (m : Measurement F)
      → is_usable window_start window_end mappings states m ≡ true
      → is_qr_point mappings m.observation_point_id ≡ false
      → is_some m.mean_detected_people ≡ true
  unfolding is_usable
  usable-mean m u q = ground arith

  latest-mean :
      (r : Reading F) (m : Measurement F)
      → is_some m.mean_detected_people ≡ true
      → is_some r.latest.mean_detected_people ≡ true
      → is_some
          (add_measurement window_start window_end mappings states r m).latest.mean_detected_people
        ≡ true
  unfolding add_measurement
  latest-mean r m hm hr = ground arith

  current-mean :
      (m : Measurement F) (o : Option (Reading F))
      → is_some m.mean_detected_people ≡ true
      → ((r : Reading F) → o ≡ some r → is_some r.latest.mean_detected_people ≡ true)
      → is_some
          (get_or o
            (new_reading window_start window_end mappings states m)).latest.mean_detected_people
        ≡ true
  current-mean m none hm h = hm
  current-mean m (some r) hm h = h r refl

  -- The reading that is written for the measurement's own point, and the readings of other points.
  write-HaveMeans :
      (m : Measurement F) (c : Reading F) (readings : Readings F)
      → HaveMeans readings
      → (is_qr_point mappings m.observation_point_id ≡ false
          → is_some c.latest.mean_detected_people ≡ true)
      → HaveMeans (insert text_eq m.observation_point_id c readings)
  write-HaveMeans m c readings h own id r e q =
      elim (Bool-cases (text_eq m.observation_point_id id)) [
        | inl same ↦
            let here : m.observation_point_id ≡ id =
              (text_eq_iff m.observation_point_id id).0 same in
            let eq : c ≡ r =
              cc
                (e, lookup-insert text_eq text_eq_iff m.observation_point_id id c readings, same) in
            subst (λ (x : Reading F). is_some x.latest.mean_detected_people ≡ true) eq
              (own (rw here q))
        | inr other ↦
            h id r
              (ground
                (arith, lookup-insert text_eq text_eq_iff m.observation_point_id id c readings))
              q
      ]

  read_measurement-HaveMeans :
      (m : Measurement F) (readings : Readings F)
      → HaveMeans readings
      → HaveMeans (read_measurement window_start window_end mappings states m readings)
  unfolding read_measurement
  read_measurement-HaveMeans m readings h =
      elim (Bool-cases (is_usable window_start window_end mappings states m)) [
        | inr unusable ↦ rw unusable h
        | inl usable ↦ rw usable (
            write-HaveMeans m _ readings h (λ q.
              let hm = usable-mean m usable q in
              latest-mean _ m hm (
                current-mean m (lookup text_eq m.observation_point_id readings) hm
                  (λ r e. h m.observation_point_id r e q))))
      ]

  read_measurements-HaveMeans :
      (ms : List (Measurement F)) (readings : Readings F)
      → HaveMeans readings
      → HaveMeans (read_measurements window_start window_end mappings states ms readings)
  unfolding read_measurements
  read_measurements-HaveMeans [] readings h = h
  read_measurements-HaveMeans (m ∷ ms) readings h =
      read_measurements-HaveMeans ms _ (read_measurement-HaveMeans m readings h)

  add_camera_total :
      (r : Option (Reading F)) (s : AnchorScore F)
      → ((x : Reading F) → r ≡ some x → is_some x.latest.mean_detected_people ≡ true)
      → is_some (add_camera f window_start window_end r s) ≡ true
  add_camera_total none s h = refl
  add_camera_total (some x) s h = ground (arith, h x refl)

  score_mapping_total :
      (m : ObservationPointMapping) (readings : Readings F) (s : AnchorScore F)
      → HaveMeans readings
      → (is_qr m.method || not (is_qr_point mappings m.observation_point_id)) ≡ true
      → is_some (
          score_mapping f window_start window_end m
            (lookup text_eq m.observation_point_id readings)
            s)
        ≡ true
  unfolding score_mapping
  score_mapping_total m readings s h separate = elim (Bool-cases (is_qr m.method)) [
    | inl e ↦ rw e
    | inr e ↦
        let alone : is_qr_point mappings m.observation_point_id ≡ false = ground arith in
        rw e (
          add_camera_total (lookup text_eq m.observation_point_id readings) _
            (λ r found. h m.observation_point_id r found alone))
  ]

  add_mapping_total :
      (m : ObservationPointMapping) (readings : Readings F) (anchors : Anchors F)
      → HaveMeans readings
      → (is_qr m.method || not (is_qr_point mappings m.observation_point_id)) ≡ true
      → is_some (add_mapping f window_start window_end states readings m anchors) ≡ true
  unfolding add_mapping
  add_mapping_total m readings anchors h separate = ground (
    arith,
    score_mapping_total m readings
        (get_or (lookup anchor_eq m.anchor anchors) (new_anchor_score f window_start window_end)) h
        separate,
  )

  add_mappings_total :
      (ms : List ObservationPointMapping) (readings : Readings F) (anchors : Anchors F)
      → HaveMeans readings
      → AreSeparate mappings ms
      → is_some (add_mappings f window_start window_end states readings ms anchors) ≡ true
  unfolding add_mappings Option.bind
  add_mappings_total [] readings anchors h separate = refl
  add_mappings_total (m ∷ ms) readings anchors h separate =
      elim (Option-cases (add_mapping f window_start window_end states readings m anchors)) [
        | inl e ↦ cc (e, add_mapping_total m readings anchors h separate.0)
        | inr (a, e) ↦ rw e (add_mappings_total ms readings a h separate.1)
      ]

  -- If no camera mapping names a point that a QR mapping names, the readings and the scores of a
  -- snapshot are composed without a panic.
  pub anchors_of_total :
      (measurements : List (Measurement F))
      → AreSeparate mappings mappings
      → is_some (anchors_of f window_start window_end measurements mappings states) ≡ true
  unfolding anchors_of
  anchors_of_total measurements separate =
      add_mappings_total mappings _ []
        (read_measurements-HaveMeans measurements [] (λ id r e q. cc e)) separate
