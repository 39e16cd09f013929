-- ===== src/Cycle.antt =====
-- internal/application/observation_cycle.go: one cycle of observation of an event, over the
-- interfaces of the parts that it drives. A call with a timeout answers with an error when it runs
-- out. The two calls to the operation service run at once: which comes first is a parameter.
pub mod Keeps
pub mod Composed
pub mod Since
pub mod Run
use tolo_observation.Graph.{Graph}
use tolo_observation.Common.Text.{Text}
use tolo_observation.Common.Int.{ℤ, pos, negsuc, ◌-ℤ◌, wrap_i64}
use tolo_observation.Common.{
  ℕ, Option, none, some, List, Bool, true, false, ◌++◌, ◌/◌, ◌*◌, ◌+◌, ◌-◌, if◌then◌else◌, suc, [],
}
use tolo_observation.GoTime.{Time, Duration, sub, zero_time, add}
use tolo_observation.Snapshot.{Snapshot, SensorSet, ObservationPointMapping, Gaps, States, max_hold}
use tolo_observation.EdgeDevice.{EdgeDeviceId}
use tolo_observation.Db.GuestStatuses.{GuestStatus}
use tolo_observation.Common.Result.{
  Action, Result, ok, ◌>>◌, ◌>>=◌, err, wrap_err, pure, lift, or_err,
}
use tolo_observation.Settings.{EventType, ObservationSettingsRepository, find_observation_settings}
use tolo_observation.StatusQuery.{OptimizationOutcome, or_missing}
use tolo_observation.Float.{Float}
use tolo_observation.Snapshot.Flow.{ArcHistory}
use tolo_observation.Measurement.{Measurement}
use tolo_observation.EdgeDeviceService.{EdgeDeviceRepository}
use tolo_observation.Snapshot.Build.{Output, new_snapshot}
use tolo_observation.Holds.{HeartbeatLossHoldRepository, evaluate}
use tolo_observation.Errors.{
  optimization_outcome_missing, is, snapshot_not_found, wrapped, external,
}
use tolo_observation.SensorSet.{
  sensor_sets_changed_after, track_sensor_sets, history_since_sensor_set_changes,
}
use tolo_observation.Hold.{HeartbeatLossHoldPolicy, observation_point_states}

-- internal/repository/snapshot.go.
pub record SnapshotRepository (S F : Type 0) : Type 0 where
  pub save_snapshot : Text → Snapshot F → Action S (Unit {0})
  pub latest_snapshot : Text → Action S (Snapshot F)
  pub list_snapshots_ending_after : Text → Time → Action S (List (Snapshot F))
  pub summarize_arc_history : Text → Time → Action S (List (ArcHistory F))
  pub earliest_snapshot_start : Text → Action S Time
  pub list_sensor_sets : Text → Action S (List SensorSet)
  pub save_sensor_sets : Text → List SensorSet → Action S (Unit {0})
  pub save_optimization_outcome : Text → OptimizationOutcome → Action S (Unit {0})
  pub latest_optimization_outcome : Text → Action S OptimizationOutcome

-- internal/repository/measurement.go.
pub record MeasurementRepository (S F : Type 0) : Type 0 where
  pub record_all : Text → Text → EdgeDeviceId → List (Measurement F) → Action S ℤ
  pub list_window_ending_since : Text → Time → Action S (List (Measurement F))

-- internal/repository/guest_status.go.
pub record GuestStatusRepository (S F : Type 0) : Type 0 where
  pub save_guest_status : Text → GuestStatus F → Action S (GuestStatus F)
  pub latest_guest_status : Text → Action S (GuestStatus F)

pub record GraphSupply (S F : Type 0) : Type 0 where
  pub current_graph : Text → Action S (Graph F)
  pub observation_point_mappings : Text → Text → Action S (List ObservationPointMapping)
  pub qr_locations : Text → Text → Text → Action S (List ObservationPointMapping)

pub record OptimizeInput (F : Type 0) : Type 0 where
  pub tenant_public_id : Text
  pub event_type : EventType
  pub graph : Graph F
  pub snapshot : Snapshot F
  pub gaps : Gaps F
  pub sensor_set_changes : List SensorSet
  pub history : List (Snapshot F)
  pub arc_history : List (ArcHistory F)
  pub available_history : Duration
  pub previous : Option OptimizationOutcome
  pub server_time : Time

-- The interface of the operation service.
pub record Operation (S : Type 0) : Type 0 where
  pub request_proposal_delivery : Text → Text → OptimizationOutcome → Action S (Unit {0})
  pub record_feedback_values : Text → Text → OptimizationOutcome → Action S (Unit {0})
  pub proposals_first : Bool

-- The fields of `ObservationCycle`, with the source of random bytes.
pub record ObservationCycle (S F : Type 0) : Type 1 where
  pub read : Action S (List ℕ)
  pub graphs : GraphSupply S F
  pub optimize : OptimizeInput F → Action S OptimizationOutcome
  pub operation : Operation S
  pub devices : EdgeDeviceRepository S
  pub holds : HeartbeatLossHoldRepository S
  pub policy : HeartbeatLossHoldPolicy F
  pub measurements : MeasurementRepository S F
  pub snapshots : SnapshotRepository S F
  pub settings : ObservationSettingsRepository S
  pub guests : GuestStatusRepository S F
  pub publish_guest_status : GuestStatus F → Action S (Unit {0})
  pub window : Duration
  pub clock : Action S Time

abbrev pub history_window : Duration
history_window = pos (30 * 60 * 1_000_000_000)

-- `Truncate(time.Microsecond)`.
abbrev pub truncate_microsecond : Time → Time
truncate_microsecond (pos n) = pos (n / 1000 * 1000)
truncate_microsecond (negsuc n) = negsuc ((n / 1000 + 1) * 1000 - 1)

-- `-time.Duration(days) * 24 * time.Hour`: the product wraps around.
abbrev pub day : ℕ
day = 24 * 3600 * 1_000_000_000

abbrev pub minus_days : ℤ → Duration
minus_days (pos n) = wrap_i64 (pos 0 -ℤ pos (n * day))
minus_days (negsuc n) = wrap_i64 (pos (suc n * day))

unfoldable pub history_since : Time → ℤ → Time
history_since window_end days = add window_end (minus_days days)

-- An error that is only logged.
abbrev pub ignore_error : {S : Type 0} → Action S (Unit {0}) → Action S (Unit {0})
ignore_error m s = (ok tt, (m s).1)

-- What is known of the past before the snapshot is saved.
pub record Past (F : Type 0) : Type 0 where
  pub sensor_sets : List SensorSet
  pub event_type : EventType
  pub history : List (Snapshot F)
  pub arc_history : List (ArcHistory F)
  pub available_history : Duration

-- `previousCycle`.
abbrev pub previous_cycle : Option OptimizationOutcome → Time
previous_cycle none = zero_time
previous_cycle (some latest) = latest.server_time

abbrev pub or_no_history : Time → Result Time → Result Duration
or_no_history now (ok earliest) = ok (sub now earliest)
or_no_history now (err e) =
    if is e snapshot_not_found then ok (pos 0) else err (wrapped "find earliest snapshot start" e)

abbrev pub or_no_previous : Result OptimizationOutcome → Result (Option OptimizationOutcome)
or_no_previous r = or_missing "find previous optimization outcome" optimization_outcome_missing r

module _ {S F : Type 0} (f : Float F) (c : ObservationCycle S F) where
  unfoldable pub available_history : Text → Time → Action S Duration
  available_history event now s =
      let (r, s') = c.snapshots.earliest_snapshot_start event s in (or_no_history now r, s')

  unfoldable pub cycle_point_states : Text → Time → Action S States
  cycle_point_states event now = do
    devices ← wrap_err "list edge devices" (c.devices.list_by_event event true)
    hold ← evaluate f c.holds c.policy now
    pure (observation_point_states devices now hold)

  -- The calls for the graph, with the mappings of both kinds.
  unfoldable pub read_graph : Text → Text → Action S (Graph F × List ObservationPointMapping)
  read_graph tenant event = do
    graph ← wrap_err "get current graph" (c.graphs.current_graph event)
    mappings ←
        wrap_err "get observation point mappings"
          (c.graphs.observation_point_mappings event graph.revision_id)
    locations ← wrap_err "get qr locations" (c.graphs.qr_locations tenant event graph.revision_id)
    pure (graph, mappings ++ locations)

  -- From the measurements to the snapshot. A panic ends the cycle like an error.
  unfoldable pub compose_snapshot : Text → Time → List ObservationPointMapping → Action S (Output F)
  compose_snapshot event window_end mappings = do
    measurements ←
        wrap_err "list window measurements"
          (c.measurements.list_window_ending_since event (window_end -ℤ max_hold))
    states ← cycle_point_states event window_end
    out ←
        new_snapshot f c.read event (window_end -ℤ c.window) window_end measurements mappings states
    lift (or_err out (external "panic"))

  -- From the sensor sets to the history that is available.
  unfoldable pub look_back : Text → Time → List SensorSet → Action S (Past F)
  look_back event window_end composed = do
    recorded ← wrap_err "list sensor sets" (c.snapshots.list_sensor_sets event)
    let tracked = track_sensor_sets recorded composed window_end
    wrap_err "save sensor sets" (c.snapshots.save_sensor_sets event tracked.1)
    settings ← find_observation_settings c.settings event
    history ←
        wrap_err "list history snapshots"
          (c.snapshots.list_snapshots_ending_after event (window_end -ℤ history_window))
    arcs ← wrap_err "summarize arc history" (
        c.snapshots.summarize_arc_history event
          (history_since window_end settings.history_window_days))
    available ← available_history event window_end
    pure (record {
      sensor_sets = tracked.0;
      event_type = settings.event_type;
      history = history_since_sensor_set_changes history tracked.0;
      arc_history = arcs;
      available_history = available;
    })

  -- `publishGuestStatus`.
  unfoldable pub publish_guest_status : Text → Text → Time → Action S (Unit {0})
  publish_guest_status tenant event taken_at = do
    status ← wrap_err "save guest status" (
        c.guests.save_guest_status tenant
          (record { event_id = event; sequence = 0; taken_at = taken_at; crowd = []; queues = [] }))
    ignore_error (c.publish_guest_status status)

  unfoldable pub find_previous : Text → Action S (Option OptimizationOutcome)
  find_previous event s =
      let (r, s') = c.snapshots.latest_optimization_outcome event s in (or_no_previous r, s')

  abbrev pub optimize_input :
      Text → Graph F → Output F → Past F → Option OptimizationOutcome → Time → OptimizeInput F
  optimize_input tenant graph out past previous window_end = record {
    tenant_public_id = tenant;
    event_type = past.event_type;
    graph = graph;
    snapshot = out.snapshot;
    gaps = out.gaps;
    sensor_set_changes = sensor_sets_changed_after past.sensor_sets (previous_cycle previous);
    history = past.history;
    arc_history = past.arc_history;
    available_history = past.available_history;
    previous = previous;
    server_time = window_end;
  }

  unfoldable pub deliver_to_operation : Text → Text → OptimizationOutcome → Action S (Unit {0})
  deliver_to_operation tenant event outcome =
      let proposals = ignore_error (c.operation.request_proposal_delivery tenant event outcome) in
      let feedback = ignore_error (c.operation.record_feedback_values tenant event outcome) in
      if c.operation.proposals_first then proposals >> feedback else feedback >> proposals

  -- From the previous outcome to the end.
  unfoldable pub optimize_flow :
      Text → Text → Graph F → Output F → Past F → Time → Action S (Unit {0})
  optimize_flow tenant event graph out past window_end = do
    previous ← find_previous event
    outcome ←
        wrap_err "optimize" (c.optimize (optimize_input tenant graph out past previous window_end))
    let recorded = record outcome { snapshot_id = out.snapshot.id }
    wrap_err "save optimization outcome" (c.snapshots.save_optimization_outcome event recorded)
    deliver_to_operation tenant event recorded

  unfoldable pub run : Text → Text → Action S (Unit {0})
  run tenant event = do
    mapped ← read_graph tenant event
    now ← c.clock
    let window_end = truncate_microsecond now
    out ← compose_snapshot event window_end mapped.1
    past ← look_back event window_end out.sensors
    wrap_err "save snapshot" (c.snapshots.save_snapshot tenant out.snapshot)
    publish_guest_status tenant event window_end
    optimize_flow tenant event mapped.0 out past window_end
