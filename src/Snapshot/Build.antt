-- ===== src/Snapshot/Build.antt =====
-- The last loop of `NewSnapshot`: each anchor, in order, goes to the scores, the held scores or the
-- missing anchors.
use tolo_observation.Snapshot.{
  GraphAnchor, compare_anchors, ObservationPointMapping, AnchorScore, Confidence, confidence_ok,
  confidence_hold, confidence_invalid, SensorSet, Snapshot, Gaps, States, Float, Ordering, Text,
  Time, anchor_eq,
}
use tolo_observation.Snapshot.Read.{read_measurements}
use tolo_observation.Snapshot.Compose.{
  Anchors, add_mappings, compose, route_score, point_score, sensor_set,
}
use tolo_observation.Measurement.{Measurement}
use tolo_observation.Common.{ℕ, Option, List, [], ◌∷◌, if◌then◌else◌, ◌++◌, not}
use tolo_observation.Common.Result.{Action, ◌>>=◌, pure}
use tolo_observation.Common.Int.{ltb_ℤ, pos}
use tolo_observation.Common.Text.{is_empty}
use tolo_observation.PublicId.{new_public_id}
use tolo_observation.Common.Map.{insert}
use tolo_observation.Common.Sort.{sort}
use mathlib.Core.Option

-- What `NewSnapshot` returns besides its error.
pub record Output (F : Type 0) : Type 0 where
  pub snapshot : Snapshot F
  pub gaps : Gaps F
  pub sensors : List SensorSet

module _ {F : Type 0} (f : Float F) where
  -- A resolution is recorded if it is positive.
  abbrev pub note_resolution : GraphAnchor → AnchorScore F → Snapshot F → Snapshot F
  note_resolution anchor s snap =
      if ltb_ℤ (pos 0) s.resolution
      then record snap { resolutions = insert anchor_eq anchor s.resolution snap.resolutions }
      else snap

  abbrev pub place_route : GraphAnchor → AnchorScore F → Output F → Confidence → Output F
  place_route anchor s o confidence_invalid = record {
    snapshot = record o.snapshot {
      missing_route_ids = o.snapshot.missing_route_ids ++ (anchor.route_id ∷ []);
    };
    gaps = record o.gaps { invalid_route_ids = o.gaps.invalid_route_ids ++ (anchor.route_id ∷ []) };
    sensors = o.sensors;
  }
  place_route anchor s o confidence_hold = record {
    snapshot = record o.snapshot {
      missing_route_ids = o.snapshot.missing_route_ids ++ (anchor.route_id ∷ []);
    };
    gaps = record o.gaps {
      held_route_scores =
          o.gaps.held_route_scores ++ (route_score f s anchor.route_id (compose f s) ∷ []);
    };
    sensors = o.sensors;
  }
  place_route anchor s o confidence_ok = record {
    snapshot = record o.snapshot {
      route_scores =
          o.snapshot.route_scores ++ (route_score f s anchor.route_id (compose f s) ∷ []);
    };
    gaps = o.gaps;
    sensors = o.sensors ++ (sensor_set f s anchor ∷ []);
  }

  abbrev pub place_point : GraphAnchor → AnchorScore F → Output F → Confidence → Output F
  place_point anchor s o confidence_invalid = record {
    snapshot = record o.snapshot {
      missing_point_ids = o.snapshot.missing_point_ids ++ (anchor.point_id ∷ []);
    };
    gaps = record o.gaps { invalid_point_ids = o.gaps.invalid_point_ids ++ (anchor.point_id ∷ []) };
    sensors = o.sensors;
  }
  place_point anchor s o confidence_hold = record {
    snapshot = record o.snapshot {
      missing_point_ids = o.snapshot.missing_point_ids ++ (anchor.point_id ∷ []);
    };
    gaps = record o.gaps {
      held_point_scores =
          o.gaps.held_point_scores ++ (point_score f s anchor.point_id (compose f s) ∷ []);
    };
    sensors = o.sensors;
  }
  place_point anchor s o confidence_ok = record {
    snapshot = record o.snapshot {
      point_scores =
          o.snapshot.point_scores ++ (point_score f s anchor.point_id (compose f s) ∷ []);
    };
    gaps = o.gaps;
    sensors = o.sensors ++ (sensor_set f s anchor ∷ []);
  }

  -- One round of the loop; an anchor without an ID is left out.
  unfoldable pub place : GraphAnchor × AnchorScore F → Output F → Output F
  place (anchor, s) o =
      let noted = record o { snapshot = note_resolution anchor s o.snapshot } in
      if not (is_empty anchor.route_id)
      then place_route anchor s noted (compose f s).confidence
      else if not (is_empty anchor.point_id)
      then place_point anchor s noted (compose f s).confidence
      else noted

  unfoldable pub place_all : Anchors F → Output F → Output F
  place_all [] o = o
  place_all (a ∷ anchors) o = place_all anchors (place a o)

  -- `slices.SortedFunc(maps.Keys(anchors), compareAnchors)`, each key with its score.
  abbrev pub compare_keys : GraphAnchor × AnchorScore F → GraphAnchor × AnchorScore F → Ordering
  compare_keys a b = compare_anchors a.0 b.0

  abbrev pub empty_output : Text → Text → Time → Time → Output F
  empty_output id event window_start window_end = record {
    snapshot = record {
      id = id;
      event_id = event;
      window_start = window_start;
      window_end = window_end;
      point_scores = [];
      route_scores = [];
      missing_point_ids = [];
      missing_route_ids = [];
      resolutions = [];
    };
    gaps = record {
      held_point_scores = [];
      held_route_scores = [];
      invalid_point_ids = [];
      invalid_route_ids = [];
    };
    sensors = [];
  }

  -- The anchors with their scores, before they are sorted; `none` is a panic.
  unfoldable pub anchors_of :
      Time
      → Time
      → List (Measurement F)
      → List ObservationPointMapping
      → States
      → Option (Anchors F)
  anchors_of window_start window_end measurements mappings states =
      add_mappings f window_start window_end states
        (read_measurements window_start window_end mappings states measurements []) mappings []

  -- The whole of `NewSnapshot`; `none` is a panic.
  unfoldable pub new_snapshot :
      {S : Type 0}
      → Action S (List ℕ)
      → Text
      → Time
      → Time
      → List (Measurement F)
      → List ObservationPointMapping
      → States
      → Action S (Option (Output F))
  new_snapshot read event window_start window_end measurements mappings states = do
    id ← new_public_id read
    pure (
        Option.map
          (λ (anchors : Anchors F).
            place_all (sort compare_keys anchors) (empty_output id event window_start window_end))
          (anchors_of window_start window_end measurements mappings states))
