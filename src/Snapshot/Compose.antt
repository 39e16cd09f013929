-- ===== src/Snapshot/Compose.antt =====
-- The loop of `NewSnapshot` over the mappings, the scores of one anchor, and the snapshot with its
-- gaps and sensor sets.
use tolo_observation.Snapshot.{
  GraphAnchor, anchor_eq, ObservationPointMapping, is_qr, Reading, CameraScore, AnchorScore,
  Confidence, confidence_ok, confidence_hold, confidence_invalid, ComposedScore, PointScore,
  RouteScore, SensorSet, States, ObservationPointId, Float, Time, pos, Text, minutes, text_eq,
}
use tolo_observation.Snapshot.Read.{mean, people_trend, sum, Readings}
use tolo_observation.Measurement.{rate_in, rate_out}
use tolo_observation.Common.{
  suc, Bool, true, false, Option, none, some, List, [], ◌∷◌, if◌then◌else◌, get_or, ◌++◌, not,
  length, is_some, map, is_nil, ◌&&◌, ltb, ◌==◌,
}
use tolo_observation.Common.Sort.{compact, sort, text_compare}
use tolo_observation.GoTime.{zero_time, after, sub}
use tolo_observation.Common.Int.{max_ℤ}
use tolo_observation.Common.Map.{lookup, insert}
use mathlib.Core.Option

abbrev pub Anchors : Type 0 → Type 0
Anchors F = List (GraphAnchor × AnchorScore F)

-- `slices.Compact(slices.Sorted(…))`.
unfoldable pub distinct_sensors : List ObservationPointId → List ObservationPointId
distinct_sensors sensors = compact (sort text_compare sensors)

module _ {F : Type 0} (f : Float F) (window_start window_end : Time) where
  abbrev pub new_anchor_score : AnchorScore F
  new_anchor_score = record {
    fresh = [];
    held = [];
    cameras = 0;
    qr_rate_in = f.of_int (pos 0);
    sensors = [];
    qr = false;
    resolution = pos 0;
  }

  abbrev pub camera_score : Reading F → F → CameraScore F
  camera_score r detected = record {
    score_in = rate_in f r.latest;
    score_out = rate_out f r.latest;
    detected = detected;
    trend = people_trend f r.trend;
  }

  -- The sensor is noted, and a reading may coarsen the resolution.
  abbrev pub note_sensor : ObservationPointId → Option (Reading F) → AnchorScore F → AnchorScore F
  note_sensor id none s = record s { sensors = s.sensors ++ (id ∷ []) }
  note_sensor id (some r) s = record s {
    sensors = s.sensors ++ (id ∷ []);
    resolution = max_ℤ s.resolution (sub r.latest.window_end r.latest.window_start);
  }

  abbrev pub add_qr : Option (Reading F) → AnchorScore F → AnchorScore F
  add_qr none s = record s { qr = true }
  add_qr (some r) s = record s {
    qr = true;
    qr_rate_in =
        f.plus s.qr_rate_in
          (f.over (f.of_int r.count_in) (minutes f (sub window_end window_start)));
  }

  -- A held score dereferences the mean of the latest measurement: `none` is the panic where that is
  -- nil.
  abbrev pub add_held : Reading F → AnchorScore F → Option F → Option (AnchorScore F)
  add_held r s none = none
  add_held r s (some people) =
      some (record s { cameras = suc s.cameras; held = s.held ++ (camera_score r people ∷ []) })

  abbrev pub add_camera : Option (Reading F) → AnchorScore F → Option (AnchorScore F)
  add_camera none s = some (record s { cameras = suc s.cameras })
  add_camera (some r) s =
      if after r.latest.window_end window_start
      then some (record s {
        cameras = suc s.cameras;
        fresh = s.fresh ++ (camera_score r (mean f r.detected) ∷ []);
      })
      else add_held r s r.latest.mean_detected_people

  -- One round of the loop, on the score of the mapping's anchor.
  unfoldable pub score_mapping :
      ObservationPointMapping → Option (Reading F) → AnchorScore F → Option (AnchorScore F)
  score_mapping m reading s =
      let noted = note_sensor m.observation_point_id reading s in
      if is_qr m.method then some (add_qr reading noted) else add_camera reading noted

  -- Whether the loop leaves a mapping out: a camera without a state.
  abbrev pub is_unknown : States → ObservationPointMapping → Bool
  is_unknown states m =
      not (is_some (lookup text_eq m.observation_point_id states)) && not (is_qr m.method)

  unfoldable pub add_mapping :
      States → Readings F → ObservationPointMapping → Anchors F → Option (Anchors F)
  add_mapping states readings m anchors =
      let score = get_or (lookup anchor_eq m.anchor anchors) new_anchor_score in
      if is_unknown states m
      then some anchors
      else Option.map (λ (s : AnchorScore F). insert anchor_eq m.anchor s anchors)
          (score_mapping m (lookup text_eq m.observation_point_id readings) score)

  unfoldable pub add_mappings :
      States → Readings F → List ObservationPointMapping → Anchors F → Option (Anchors F)
  add_mappings states readings [] anchors = some anchors
  add_mappings states readings (m ∷ ms) anchors =
      Option.bind (add_mapping states readings m anchors) (add_mappings states readings ms)

module _ {F : Type 0} (f : Float F) where
  -- The trends that are not nil.
  unfoldable pub trends_of : List (CameraScore F) → List F
  trends_of [] = []
  trends_of (s ∷ scores) =
      let rest = trends_of scores in elim s.trend [ none ↦ rest | some t ↦ t ∷ rest ]

  unfoldable pub average_camera_scores : Confidence → List (CameraScore F) → F → ComposedScore F
  average_camera_scores level scores qr_rate_in =
      let count = f.of_int (pos (length scores)) in
      let trends = trends_of scores in
      record {
        confidence = level;
        score_in =
            f.plus (f.over (sum f (map (λ (s : CameraScore F). s.score_in) scores)) count)
              qr_rate_in;
        score_out = f.over (sum f (map (λ (s : CameraScore F). s.score_out) scores)) count;
        detected = some (f.over (sum f (map (λ (s : CameraScore F). s.detected) scores)) count);
        occupancy_delta = if is_nil trends then none else some (mean f trends);
      }

  unfoldable pub compose : AnchorScore F → ComposedScore F
  compose s =
      if not (is_nil s.fresh)
      then average_camera_scores confidence_ok s.fresh s.qr_rate_in
      else if not (is_nil s.held)
      then average_camera_scores confidence_hold s.held s.qr_rate_in
      else if ltb 0 s.cameras
      then record {
        confidence = confidence_invalid;
        score_in = f.of_int (pos 0);
        score_out = f.of_int (pos 0);
        detected = none;
        occupancy_delta = none;
      }
      else record {
        confidence = confidence_ok;
        score_in = s.qr_rate_in;
        score_out = f.of_int (pos 0);
        detected = none;
        occupancy_delta = some s.qr_rate_in;
      }

  unfoldable pub route_score : AnchorScore F → Text → ComposedScore F → RouteScore F
  route_score s route_id c =
      if s.qr
      then record {
        route_id = route_id;
        forward = f.of_int (pos 0);
        backward = f.of_int (pos 0);
        scalar_flow = some (f.plus c.score_in c.score_out);
        stagnation_score = c.detected;
        exhaustive = false;
        same_sensor_flow = false;
      }
      else record {
        route_id = route_id;
        forward = c.score_in;
        backward = c.score_out;
        scalar_flow = none;
        stagnation_score = c.detected;
        exhaustive = true;
        same_sensor_flow = is_some c.detected && length (distinct_sensors s.sensors) == 1;
      }

  unfoldable pub point_score : AnchorScore F → Text → ComposedScore F → PointScore F
  point_score s point_id c = record {
    point_id = point_id;
    people_score = c.detected;
    occupancy_delta = c.occupancy_delta;
    exhaustive = not s.qr;
  }

  unfoldable pub sensor_set : AnchorScore F → GraphAnchor → SensorSet
  sensor_set s anchor = record {
    anchor = anchor;
    observation_point_ids = distinct_sensors s.sensors;
    changed_at = zero_time;
  }
