-- ===== src/Tests/Queries.antt =====
-- Runs of the status query, the sensitivity to flow, and the history.
use tolo_observation.Tests.Data.{claims, int_float}
use tolo_observation.Snapshot.Flow.{ArcHistory, FlowRegression, flow_sensitivity_eta, eta}
use tolo_observation.StatusQuery.{
  OptimizationOutcome, SnapshotReads, EventOverview, get_event_overview, overview_of,
}
use tolo_observation.Common.Result.{ok, or_err}
use tolo_observation.Common.{◌≡◌, refl, Option, none, some, [], ◌∷◌, true}
use tolo_observation.Common.Int.{ℤ, ◌-ℤ◌, pos, ◌+ℤ◌}
use tolo_observation.Common.Text.{codes, Text, trim_space, trim_left, trim_right, is_space, text_eq}
use tolo_observation.TenantCtx.{ensure_event, event_public_id_from_context}
use tolo_observation.Errors.{sentinel, snapshot_not_found}
use tolo_observation.Snapshot.{Snapshot, SensorSet}
use tolo_observation.SensorSet.History.{AreKept, history_since_sensor_set_changes-AreKept}
use tolo_observation.SensorSet.{history_since_sensor_set_changes}

abbrev regression : ℤ → FlowRegression ℤ
regression n = record {
  sample_count = n;
  stagnation_sum = pos 100;
  flow_sum = pos 2;
  flow_square_sum = pos 10;
  flow_stagnation_sum = pos 0;
}

abbrev history : ArcHistory ℤ
history = record {
  route_id = codes "r1";
  sample_count = pos 20;
  p90_stagnation = pos 9;
  mean_stagnation = pos 5;
  first_start = pos 0;
  last_end = pos 100;
  flow = regression (pos 20);
  same_sensor_flow = regression (pos 12);
  flow_dwell = record { flow_p90 = pos 1; free_flow_dwell_min = none; span = pos 100 };
}

eta-found : flow_sensitivity_eta int_float history ≡ some (pos 1)
unfolding flow_sensitivity_eta eta ◌-ℤ◌ ◌+ℤ◌
eta-found = refl

abbrev outcome : OptimizationOutcome
outcome = record {
  snapshot_id = codes "s1";
  server_time = pos 5;
  verdict = codes "optimized";
  detection_state = none;
  optimization_result = none;
  feedback_values = none;
  diagnostics = some (1 ∷ 2 ∷ []);
}

-- A store of a snapshot's name, or of none.
abbrev reads : SnapshotReads (Option Text) Text
reads = record {
  latest_snapshot = λ event s. (or_err s (sentinel snapshot_not_found), s);
  latest_optimization_outcome = λ event s. (ok outcome, s);
}

abbrev overview : EventOverview Text
overview = record { snapshot = some (codes "s1"); diagnostics = some (1 ∷ 2 ∷ []) }

overview-given :
    (get_event_overview reads (some claims) (codes "ev") (some (codes "s1"))).0 ≡ ok overview
unfolding get_event_overview overview_of ensure_event event_public_id_from_context trim_space
    trim_left trim_right is_space text_eq
overview-given = refl

abbrev old_snapshot : Snapshot ℤ
old_snapshot = record {
  id = codes "s0";
  event_id = codes "ev";
  window_start = pos 0;
  window_end = pos 4;
  point_scores =
      record {
        point_id = codes "p1";
        people_score = some (pos 2);
        occupancy_delta = none;
        exhaustive = true;
      }
      ∷ record {
        point_id = codes "p2";
        people_score = none;
        occupancy_delta = none;
        exhaustive = true;
      }
      ∷ [];
  route_scores = [];
  missing_point_ids = [];
  missing_route_ids = [];
  resolutions = [];
}

abbrev changed_set : SensorSet
changed_set = record {
  anchor = record { point_id = codes "p1"; route_id = [] };
  observation_point_ids = [];
  changed_at = pos 5;
}

history_since_sensor_set_changes-AreKept_example :
    AreKept
      (changed_set ∷ [])
      (old_snapshot ∷ [])
      (history_since_sensor_set_changes (old_snapshot ∷ []) (changed_set ∷ []))
history_since_sensor_set_changes-AreKept_example =
    history_since_sensor_set_changes-AreKept (old_snapshot ∷ []) (changed_set ∷ [])
