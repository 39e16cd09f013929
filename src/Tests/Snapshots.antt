-- ===== src/Tests/Snapshots.antt =====
-- Runs over measurements, sensor sets and the table of holds.
use tolo_observation.Tests.Data.{
  page, gate_id, hall_id, read, int_float, hold_policy, measurement, window_end, window_start,
  mapping,
}
use tolo_observation.Snapshot.{States, SensorSet}
use tolo_observation.Snapshot.Build.{Output, anchors_of, new_snapshot}
use tolo_observation.Snapshot.Compose.{Anchors}
use tolo_observation.Hold.{active}
use tolo_observation.Common.{
  ◌⊎◌, ◌≡◌, refl, true, none, some, [], ◌∷◌, arith, get_or, ◌++◌, is_some, inl, inr,
}
use tolo_observation.Common.Int.{ℤ, pos, ◌+ℤ◌}
use tolo_observation.Snapshot.Read.{is_qr_point}
use tolo_observation.Common.Text.{codes, text_eq}
use tolo_observation.SensorSet.{track_sensor_sets}
use tolo_observation.Db.Holds.{
  Tables, Faults, counting, finding, inserting, counting_inserted, ending, counting_ended, open_row,
  postgres_holds,
}
use tolo_observation.Db.Holds.Laws.{open_count}
use tolo_observation.SensorSet.Track.{AreUpdates, track_sensor_sets-AreUpdates}
use tolo_observation.Db.Holds.Evaluate.{Evaluated}
use tolo_observation.Db.Holds.Faulty.{Faulted, evaluate-Evaluated}
use tolo_observation.Errors.{external}
use tolo_observation.Snapshot.Ignore.{new_snapshot-IsIgnored}
use tolo_observation.Snapshot.Total.{anchors_of_total}
use tolo_observation.Holds.{evaluate}
use mathlib.Core.Option

abbrev pub states : States
states = (gate_id, active) ∷ []

abbrev anchors : Anchors ℤ
anchors =
    get_or (anchors_of int_float window_start window_end (measurement ∷ []) (mapping ∷ []) states)
      []

abbrev pub output : Output ℤ
output = record {
  snapshot = record {
    id = codes "0707070707070707";
    event_id = codes "ev";
    window_start = window_start;
    window_end = window_end;
    point_scores = [];
    route_scores =
        record {
          route_id = codes "r1";
          forward = pos 3;
          backward = pos 1;
          scalar_flow = none;
          stagnation_score = some (pos 5);
          exhaustive = true;
          same_sensor_flow = true;
        }
        ∷ [];
    missing_point_ids = [];
    missing_route_ids = [];
    resolutions = (mapping.anchor, pos 60_000_000_000) ∷ [];
  };
  gaps = record {
    held_point_scores = [];
    held_route_scores = [];
    invalid_point_ids = [];
    invalid_route_ids = [];
  };
  sensors =
      record { anchor = mapping.anchor; observation_point_ids = gate_id ∷ []; changed_at = pos 0 }
      ∷ [];
}

new_snapshot-IsIgnored_example :
    new_snapshot int_float read
      (codes "ev")
      window_start
      window_end
      ((measurement ∷ []) ++ record measurement { observation_point_id = hall_id } ∷ [])
      (mapping ∷ [])
      states
      []
    ≡ new_snapshot int_float read
        (codes "ev")
        window_start
        window_end
        ((measurement ∷ []) ++ [])
        (mapping ∷ [])
        states
        []
unfolding is_qr_point text_eq
new_snapshot-IsIgnored_example =
    new_snapshot-IsIgnored window_start window_end (mapping ∷ []) states int_float read (codes "ev")
      (measurement ∷ []) [] (record measurement { observation_point_id = hall_id }) []
      (inl (refl, inr (inl refl)))

anchors_of_total_example :
    is_some (anchors_of int_float window_start window_end (measurement ∷ []) (mapping ∷ []) states)
    ≡ true
unfolding is_qr_point text_eq
anchors_of_total_example =
    anchors_of_total int_float window_start window_end (mapping ∷ []) states (measurement ∷ [])
      (refl, tt)

abbrev recorded_set : SensorSet
recorded_set = record {
  anchor = record { point_id = codes "p1"; route_id = [] };
  observation_point_ids = gate_id ∷ [];
  changed_at = pos 5;
}

track_sensor_sets-AreUpdates_example :
    AreUpdates
      (recorded_set ∷ [])
      (pos 9)
      (record recorded_set { observation_point_ids = hall_id ∷ [] } ∷ [])
      (track_sensor_sets
        (recorded_set ∷ [])
        (record recorded_set { observation_point_ids = hall_id ∷ [] } ∷ [])
        (pos 9)).1
track_sensor_sets-AreUpdates_example =
    track_sensor_sets-AreUpdates (recorded_set ∷ [])
      (record recorded_set { observation_point_ids = hall_id ∷ [] } ∷ []) (pos 9) (tt, tt)

abbrev tables : Tables
tables = record {
  heartbeat_loss_holds = record { started_at = pos 200; ended_at = none; device_count = 1 } ∷ [];
  edge_devices = page ∷ [];
}

-- The driver does not answer the count.
abbrev no_count : Faults
no_count q t = elim q [
  | counting ↦ some (external "bad connection")
  | finding ↦ none
  | inserting ↦ none
  | counting_inserted ↦ none
  | ending ↦ none
  | counting_ended ↦ none
]

evaluate-Evaluated_example :
    Evaluated int_float
      (λ x. x)
      hold_policy
      (pos 300)
      (evaluate int_float (postgres_holds (λ x. x) no_count) hold_policy (pos 300) tables)
    ⊎ Faulted
        (λ x. x)
        no_count
        (evaluate int_float (postgres_holds (λ x. x) no_count) hold_policy (pos 300) tables)
unfolding open_row open_count ◌+ℤ◌
evaluate-Evaluated_example =
    evaluate-Evaluated (λ x. x) no_count int_float hold_policy (pos 300) (λ x. refl) (omega arith)
      (some (pos 200)) tables (refl, omega arith, refl)
