-- ===== src/Tests/Cycles.antt =====
-- Runs of a cycle, and of what is sent to the other services.
use tolo_observation.Tests.Data.{int_float, measurement, page, hold_policy, window_end, mapping}
use tolo_observation.Tests.Snapshots.{output}
use tolo_observation.Cycle.{ObservationCycle, run, history_since, day}
use tolo_observation.Cycle.Run.{Stored, Kept, StoreLaws, is_written, Ends, run-Ends}
use tolo_observation.Cycle.Since.{history_since-eq}
use tolo_observation.Graph.{Graph, goal}
use tolo_observation.FlowClient.{Ids}
use tolo_observation.FlowClient.Observations.{flow_observations}
use tolo_observation.FlowClient.Observations.OfGraph.{AreOfGraph, flow_observations-AreOfGraph}
use tolo_observation.FlowClient.Digest.{flow_history_digest}
use tolo_observation.FlowClient.Digest.Stats.{IsShare, flow_history_digest-IsShare}
use tolo_observation.GraphClient.{GraphService}
use tolo_observation.OperationClient.{
  OperationService, OptimizationResult, request_proposal_delivery, pause_ingress,
}
use tolo_observation.OperationClient.Calls.{Delivers, request_proposal_delivery-Delivers}
use tolo_observation.FlowClient.Request.{ProtoJson}
use tolo_observation.Common.{ℕ, ◌≡◌, refl, true, false, none, some, [], ◌∷◌, arith, ◌*◌, ◌+◌}
use tolo_observation.Common.Int.{ℤ, pos, ◌-ℤ◌}
use tolo_observation.StatusQuery.{OptimizationOutcome}
use tolo_observation.Common.Result.{Action, ok, err, or_err}
use tolo_observation.Common.Text.{Text, codes}
use tolo_observation.Snapshot.Flow.{FlowRegression, ArcHistory}
use tolo_observation.Errors.{
  sentinel, external, deadline_exceeded, snapshot_not_found, optimization_outcome_missing,
  observation_settings_not_found, guest_status_not_found, canceled,
}

abbrev graph : Graph ℤ
graph = record {
  event_id = codes "ev";
  revision_id = codes "rev";
  points = record { id = codes "p1"; point_type = goal; boundary = none } ∷ [];
  routes =
      record {
        id = codes "r1";
        from_point_id = codes "p1";
        to_point_id = codes "p1";
        one_way = true;
        capacity_hint = none;
      }
      ∷ [];
}

abbrev found_outcome : OptimizationOutcome
found_outcome = record {
  snapshot_id = codes "s1";
  server_time = window_end;
  verdict = codes "ok";
  detection_state = some [];
  optimization_result = some [];
  feedback_values = none;
  diagnostics = none;
}

-- Answers without a write.
abbrev answer_with : {A : Type 0} → A → Action (Stored ℤ) A
answer_with a s = (ok a, s)

-- A cycle over the two things stored; everything else is constant, and every delivery fails.
-- Keeps no resolutions and no feedback values.
abbrev kept : Kept ℤ
kept = record {
  shot = λ shot. record shot { resolutions = [] };
  outcome = λ o. record o { feedback_values = none };
}

abbrev cycle : ObservationCycle (Stored ℤ) ℤ
cycle = record {
  read = answer_with (7 ∷ 7 ∷ 7 ∷ 7 ∷ 7 ∷ 7 ∷ 7 ∷ 7 ∷ []);
  graphs = record {
    current_graph = λ e. answer_with graph;
    observation_point_mappings = λ e r. answer_with (mapping ∷ []);
    qr_locations = λ t e r. answer_with [];
  };
  optimize = λ i. answer_with found_outcome;
  operation = record {
    request_proposal_delivery = λ t e o s. (err (sentinel deadline_exceeded), s);
    record_feedback_values = λ t e o s. (err (sentinel deadline_exceeded), s);
    proposals_first = false;
  };
  devices = record {
    within_transaction = λ m. m;
    create = λ d. answer_with tt;
    find_by_id = λ id. answer_with page;
    find_by_id_for_update = λ id. answer_with page;
    find_by_observation_point_id_for_update = λ id. answer_with page;
    list_by_event = λ e b. answer_with (page ∷ []);
    save = λ d. answer_with tt;
    save_heartbeat = λ d. answer_with tt;
  };
  holds = record {
    count_across_tenants = λ a b. answer_with (record { recent = 1; lost = 0 });
    find_open = answer_with none;
    start = λ a n. answer_with true;
    end_at = λ a b. answer_with true;
  };
  policy = hold_policy;
  measurements = record {
    record_all = λ t e d ms. answer_with (pos 0);
    list_window_ending_since = λ e t. answer_with (measurement ∷ []);
  };
  snapshots = record {
    save_snapshot = λ t shot s. (ok tt, record s { shot = some (kept.shot shot) });
    latest_snapshot = λ e s. (or_err s.shot (sentinel snapshot_not_found), s);
    list_snapshots_ending_after = λ e t. answer_with [];
    summarize_arc_history = λ e t. answer_with [];
    earliest_snapshot_start = λ e s. (err (sentinel snapshot_not_found), s);
    list_sensor_sets = λ e. answer_with [];
    save_sensor_sets = λ e sets. answer_with tt;
    save_optimization_outcome = λ e o s. (ok tt, record s { outcome = some (kept.outcome o) });
    latest_optimization_outcome =
        λ e s. (or_err s.outcome (sentinel optimization_outcome_missing), s);
  };
  settings = record {
    find = λ e s. (err (sentinel observation_settings_not_found), s);
    save = λ t e o. answer_with tt;
  };
  guests = record {
    save_guest_status = λ t g. answer_with g;
    latest_guest_status = λ e s. (err (sentinel guest_status_not_found), s);
  };
  publish_guest_status = λ g s. (err (sentinel canceled), s);
  window = pos 60_000_000_000;
  clock = answer_with window_end;
}

abbrev all_of : Text → Stored ℤ → Stored ℤ
all_of event s = s

cycle-StoreLaws : StoreLaws cycle all_of kept
cycle-StoreLaws = record {
  others = λ event v. record {
    clock = record { at = λ s h. h };
    read = record { at = λ s h. h };
    current_graph = λ e. record { at = λ s h. h };
    mappings = λ e r. record { at = λ s h. h };
    qr_locations = λ t e r. record { at = λ s h. h };
    windows = λ e t. record { at = λ s h. h };
    list_by_event = λ e b. record { at = λ s h. h };
    count = λ t u. record { at = λ s h. h };
    find_open = record { at = λ s h. h };
    start = λ t n. record { at = λ s h. h };
    end_at = λ t u. record { at = λ s h. h };
    list_sets = λ e. record { at = λ s h. h };
    save_sets = λ e sets. record { at = λ s h. h };
    find_settings = λ e. record { at = λ s h. h };
    ending_after = λ e t. record { at = λ s h. h };
    summarize = λ e t. record { at = λ s h. h };
    earliest = λ e. record { at = λ s h. h };
    save_status = λ t g. record { at = λ s h. h };
    publish = λ g. record { at = λ s h. h };
    latest_outcome = λ e. record { at = λ s h. h };
    optimize = λ i. record { at = λ s h. h };
    proposals = λ t e o. record { at = λ s h. h };
    feedback = λ t e o. record { at = λ s h. h };
  };
  saves_snapshot = λ tenant shot s. is_written refl;
  saves_outcome = λ event o s. is_written refl;
}

abbrev nothing_stored : Stored ℤ
nothing_stored = record { shot = none; outcome = none }

run-Ends_example :
    Ends kept
      (codes "ev")
      nothing_stored
      (run int_float cycle (codes "tn") (codes "ev") nothing_stored).0
      (run int_float cycle (codes "tn") (codes "ev") nothing_stored).1
run-Ends_example =
    run-Ends int_float cycle all_of kept cycle-StoreLaws (codes "tn") (codes "ev") nothing_stored

history_since-eq_example :
    history_since (pos 63_000_000_000_000_000_000) (pos 30)
    ≡ pos 63_000_000_000_000_000_000 -ℤ pos (30 * day)
history_since-eq_example = history_since-eq (pos 63_000_000_000_000_000_000) 30 (omega arith)

abbrev ids : Ids
ids = (codes "r1", true) ∷ []

flow_observations-AreOfGraph_example :
    AreOfGraph [] ids (flow_observations int_float output.snapshot output.gaps [] ids)
flow_observations-AreOfGraph_example =
    flow_observations-AreOfGraph int_float output.snapshot output.gaps [] ids

abbrev regression : FlowRegression ℤ
regression = record {
  sample_count = pos 20;
  stagnation_sum = pos 1;
  flow_sum = pos 2;
  flow_square_sum = pos 3;
  flow_stagnation_sum = pos 4;
}

abbrev arc : ArcHistory ℤ
arc = record {
  route_id = codes "r1";
  sample_count = pos 20;
  p90_stagnation = pos 7;
  mean_stagnation = pos 5;
  first_start = pos 0;
  last_end = pos 18_000_000_000_000;
  flow = regression;
  same_sensor_flow = regression;
  flow_dwell = record { flow_p90 = pos 2; free_flow_dwell_min = none; span = pos 0 };
}

flow_history_digest-IsShare_example :
    IsShare int_float ids (arc ∷ []) (flow_history_digest int_float [] (arc ∷ []) ids).completeness
flow_history_digest-IsShare_example =
    flow_history_digest-IsShare int_float [] (arc ∷ []) ids (refl, tt)

-- A graph service that denies every tenant.
abbrev denying : GraphService ℕ ℤ
denying = record {
  get_current_revision = λ e n. (err (external "denied"), n);
  get_observation_point_mappings = λ e r n. (err (external "denied"), n);
  get_qr_locations = λ e r t n. (err (external "denied"), n + 1);
  is_permission_denied = λ e. true;
}

-- A result that closes one boundary, and a service that counts its calls.
abbrev result : OptimizationResult ℤ
result = record {
  route_importance = [];
  direction_proposal = [];
  restriction_proposal = [];
  detour_paths = [];
  boundary_control = record { node_id = codes "p1"; action = pause_ingress } ∷ [];
  solved_at = none;
}

abbrev results : ProtoJson (OptimizationResult ℤ)
results = record { encode = λ r. ok []; decode = λ b. ok result }

abbrev counting : OperationService ℕ ℤ
counting = record {
  send_proposals = λ t e p n. (ok tt, n + 1);
  send_feedback = λ t e l at n. (ok tt, n + 1);
}

request_proposal_delivery-Delivers_example :
    Delivers counting results
      (codes "tn")
      (codes "ev")
      found_outcome
      0
      (request_proposal_delivery counting results (codes "tn") (codes "ev") found_outcome 0)
request_proposal_delivery-Delivers_example =
    request_proposal_delivery-Delivers counting results (codes "tn") (codes "ev") found_outcome 0
