-- ===== src/Cycle/Keeps.antt =====
-- What the parts of a cycle leave as it is.
use Prim.Native.String.{String}
use tolo_observation.Cycle.{
  ObservationCycle, read_graph, Text, Float, Time, Action, available_history, find_previous,
  cycle_point_states, look_back, publish_guest_status, deliver_to_operation, SensorSet,
  ignore_error, OptimizationOutcome, GuestStatus, ◌>>◌, OptimizeInput, wrap_err, compose_snapshot,
  ObservationPointMapping, Measurement, States,
}
use tolo_observation.Common.Keeps.{Keeps, keeps_rules, Keeps-wrap}
use tolo_observation.Common.{ℕ, Bool, true, false, Option, List, if◌then◌else◌}
use tolo_observation.Holds.{end_open, start_new, evaluate_from, evaluate}
use tolo_observation.Settings.{find_observation_settings}
use tolo_observation.PublicId.{new_public_id}
use tolo_observation.Snapshot.Build.{new_snapshot}
use tolo_observation.PublicId.{new_public_id}

-- The calls that write neither snapshots nor outcomes.
pub record ReadsKeep {S F : Type 0} (c : ObservationCycle S F) (P : S → Type 0) : Type 0 where
  pub clock : Keeps P c.clock
  pub read : Keeps P c.read
  pub current_graph : (e : Text) → Keeps P (c.graphs.current_graph e)
  pub mappings : (e r : Text) → Keeps P (c.graphs.observation_point_mappings e r)
  pub qr_locations : (t e r : Text) → Keeps P (c.graphs.qr_locations t e r)
  pub windows : (e : Text) (t : Time) → Keeps P (c.measurements.list_window_ending_since e t)
  pub list_by_event : (e : Text) (b : Bool) → Keeps P (c.devices.list_by_event e b)
  pub count : (t u : Time) → Keeps P (c.holds.count_across_tenants t u)
  pub find_open : Keeps P c.holds.find_open
  pub start : (t : Time) (n : ℕ) → Keeps P (c.holds.start t n)
  pub end_at : (t u : Time) → Keeps P (c.holds.end_at t u)
  pub list_sets : (e : Text) → Keeps P (c.snapshots.list_sensor_sets e)
  pub save_sets : (e : Text) (sets : List SensorSet) → Keeps P (c.snapshots.save_sensor_sets e sets)
  pub find_settings : (e : Text) → Keeps P (c.settings.find e)
  pub ending_after : (e : Text) (t : Time) → Keeps P (c.snapshots.list_snapshots_ending_after e t)
  pub summarize : (e : Text) (t : Time) → Keeps P (c.snapshots.summarize_arc_history e t)
  pub earliest : (e : Text) → Keeps P (c.snapshots.earliest_snapshot_start e)
  pub save_status : (t : Text) (g : GuestStatus F) → Keeps P (c.guests.save_guest_status t g)
  pub publish : (g : GuestStatus F) → Keeps P (c.publish_guest_status g)
  pub latest_outcome : (e : Text) → Keeps P (c.snapshots.latest_optimization_outcome e)
  pub optimize : (i : OptimizeInput F) → Keeps P (c.optimize i)
  pub proposals :
      (t e : Text) (o : OptimizationOutcome) → Keeps P (c.operation.request_proposal_delivery t e o)
  pub feedback :
      (t e : Text) (o : OptimizationOutcome) → Keeps P (c.operation.record_feedback_values t e o)

module _ {S F : Type 0} (f : Float F) (c : ObservationCycle S F) {P : S → Type 0}
    (k : ReadsKeep c P) where
  Keeps-ignore : (m : Action S (Unit {0})) → Keeps P m → Keeps P (ignore_error m)
  Keeps-ignore m h = record { at = h.at }

  pub read_graph-Keeps : (tenant event : Text) → Keeps P (read_graph f c tenant event)
  unfolding read_graph
  read_graph-Keeps tenant event = search (keeps_rules, k.current_graph, k.mappings, k.qr_locations)

  available_history-Keeps : (event : Text) (now : Time) → Keeps P (available_history f c event now)
  unfolding available_history
  available_history-Keeps event now = record { at = (k.earliest event).at }

  find_settings-Keeps : (event : Text) → Keeps P (find_observation_settings c.settings event)
  unfolding find_observation_settings
  find_settings-Keeps event = record { at = (k.find_settings event).at }

  pub find_previous-Keeps : (event : Text) → Keeps P (find_previous f c event)
  unfolding find_previous
  find_previous-Keeps event = record { at = (k.latest_outcome event).at }

  end_open-Keeps :
      (now : Time) (opened : Option Time) (b : Bool)
      → Keeps P (end_open f c.holds c.policy now opened b)
  unfolding end_open
  end_open-Keeps now opened true = search (keeps_rules, k.end_at)
  end_open-Keeps now opened false = search (keeps_rules)

  find_open-Keeps : (context : String) → Keeps P (wrap_err context c.holds.find_open)
  find_open-Keeps context = Keeps-wrap context c.holds.find_open k.find_open

  start_new-Keeps :
      (now : Time) (opened : Option Time) (n : ℕ) (b : Bool)
      → Keeps P (start_new f c.holds c.policy now opened n b)
  unfolding start_new
  start_new-Keeps now opened n true = search (keeps_rules, k.start, find_open-Keeps)
  start_new-Keeps now opened n false = search (keeps_rules)

  evaluate-Keeps : (now : Time) → Keeps P (evaluate f c.holds c.policy now)
  unfolding evaluate evaluate_from
  evaluate-Keeps now =
      search (keeps_rules, find_open-Keeps, k.count, end_open-Keeps, start_new-Keeps) depth 14

  pub point_states-Keeps : (event : Text) (now : Time) → Keeps P (cycle_point_states f c event now)
  unfolding cycle_point_states
  point_states-Keeps event now = search (keeps_rules, k.list_by_event, evaluate-Keeps)

  pub look_back-Keeps :
      (event : Text) (now : Time) (sets : List SensorSet) → Keeps P (look_back f c event now sets)
  unfolding look_back
  look_back-Keeps event now sets =
      search
        (
          keeps_rules, k.list_sets, k.save_sets, find_settings-Keeps, k.ending_after, k.summarize,
          available_history-Keeps,
        )
        depth 20

  pub publish-Keeps :
      (tenant event : Text) (at : Time) → Keeps P (publish_guest_status f c tenant event at)
  unfolding publish_guest_status
  publish-Keeps tenant event at = search (keeps_rules, k.save_status, Keeps-ignore, k.publish)

  deliver_in-Keeps :
      (b : Bool) (m n : Action S (Unit {0}))
      → Keeps P m
      → Keeps P n
      → Keeps P (if b then m >> n else n >> m)
  deliver_in-Keeps true m n h g = search (keeps_rules)
  deliver_in-Keeps false m n h g = search (keeps_rules)

  pub deliver-Keeps :
      (tenant event : Text) (o : OptimizationOutcome)
      → Keeps P (deliver_to_operation f c tenant event o)
  unfolding deliver_to_operation
  deliver-Keeps tenant event o = search (deliver_in-Keeps, Keeps-ignore, k.proposals, k.feedback)

  read-Keeps : (context : String) → Keeps P (wrap_err context c.read)
  read-Keeps context = Keeps-wrap context c.read k.read

  pub new_id-Keeps : Keeps P (new_public_id c.read)
  unfolding new_public_id
  new_id-Keeps = search (keeps_rules, read-Keeps)

  new_snapshot-Keeps :
      (event : Text) (from to : Time) (ms : List (Measurement F))
      (mappings : List ObservationPointMapping) (states : States)
      → Keeps P (new_snapshot f c.read event from to ms mappings states)
  unfolding new_snapshot new_public_id
  new_snapshot-Keeps event from to ms mappings states = search (keeps_rules, read-Keeps)

  compose-Keeps :
      (event : Text) (now : Time) (mappings : List ObservationPointMapping)
      → Keeps P (compose_snapshot f c event now mappings)
  unfolding compose_snapshot
  compose-Keeps event now mappings =
      search (keeps_rules, k.windows, point_states-Keeps, new_snapshot-Keeps) depth 14
