-- ===== src/Tests/Data.antt =====
-- The data of the examples: a float that is an integer, one event with a page and a camera.
use tolo_observation.Common.{ℕ, true, false, Option, none, some, List, [], ◌∷◌, if◌then◌else◌, ◌*◌}
use tolo_observation.Float.{Float, quot}
use tolo_observation.Common.Text.{Text, codes, text_eq}
use tolo_observation.EdgeDevice.{
  ObservationPoint, EdgeDevice, ObservationPointId, EdgeDeviceId, observation_page, camera,
  has_point,
}
use tolo_observation.TenantCtx.{Claims}
use tolo_observation.Common.Result.{Action, ok, or_err, err}
use tolo_observation.EdgeDeviceService.{EdgeDeviceRepository}
use tolo_observation.Hold.{HeartbeatLossHoldPolicy}
use tolo_observation.GoTime.{Time}
use tolo_observation.Measurement.{Measurement}
use tolo_observation.Ingest.{MeasurementInput}
use tolo_observation.Snapshot.{ObservationPointMapping, camera_method}
use tolo_observation.Common.Int.{ℤ, pos, ◌+ℤ◌, ◌-ℤ◌, pos_part, leb_ℤ, ltb_ℤ}
use tolo_observation.Errors.{sentinel, edge_device_not_found}

abbrev pub int_float : Float ℤ
int_float = record {
  of_int = λ n. n;
  nano = pos 0;
  plus = λ a b. a +ℤ b;
  minus = λ a b. a -ℤ b;
  times = λ a b. pos (pos_part a * pos_part b);
  over = λ a b. quot a (pos_part b);
  negate = λ a. pos 0 -ℤ a;
  le = leb_ℤ;
  lt = ltb_ℤ;
  is_nan = λ a. false;
  is_inf = λ a. false;
}

abbrev pub page_id : Text
page_id = codes "00000000000000a1"

abbrev pub camera_id : Text
camera_id = codes "00000000000000a2"

abbrev pub gate_id : Text
gate_id = codes "00000000000000b1"

abbrev pub hall_id : Text
hall_id = codes "00000000000000b2"

abbrev pub gate : ObservationPoint
gate = record { id = gate_id; name = codes "gate"; enabled = true; last_active_at = none }

abbrev pub hall : ObservationPoint
hall = record { id = hall_id; name = codes "hall"; enabled = true; last_active_at = none }

abbrev pub page : EdgeDevice
page = record {
  id = page_id;
  tenant_public_id = codes "tn";
  event_id = codes "ev";
  name = codes "page";
  unregistered = false;
  last_heartbeat_at = some (pos 100);
  kind = observation_page;
  observation_points = gate ∷ hall ∷ [];
  camera_links = record { camera_edge_device_id = camera_id; observation_point_id = gate_id } ∷ [];
}

abbrev pub camera_device : EdgeDevice
camera_device = record {
  id = camera_id;
  tenant_public_id = codes "tn";
  event_id = codes "ev";
  name = codes "cam";
  unregistered = false;
  last_heartbeat_at = none;
  kind = camera;
  observation_points = [];
  camera_links = record { camera_edge_device_id = camera_id; observation_point_id = gate_id } ∷ [];
}

abbrev pub claims : Claims
claims = record {
  subject = codes "user";
  tenant_public_id = codes "tn";
  event_public_id = codes "ev";
  is_event_access = true;
}

-- A source of randomness that fills its buffer with one byte.
abbrev pub read : Action (List EdgeDevice) (List ℕ)
read s = (ok (7 ∷ 7 ∷ 7 ∷ 7 ∷ 7 ∷ 7 ∷ 7 ∷ 7 ∷ []), s)

abbrev pub clock : Action (List EdgeDevice) Time
clock s = (ok (pos 150), s)

-- A store of devices: the newest entry for an ID counts.
abbrev pub device_at : List EdgeDevice → EdgeDeviceId → Option EdgeDevice
device_at [] id = none
device_at (d ∷ ds) id = if text_eq id d.id then some d else device_at ds id

abbrev pub owner_of : ObservationPointId → List EdgeDevice → Option EdgeDevice
owner_of id [] = none
owner_of id (d ∷ ds) = if has_point id d.observation_points then some d else owner_of id ds

-- A transaction over the list: an error brings the list back.
abbrev pub rollback : {A : Type 0} → Action (List EdgeDevice) A → Action (List EdgeDevice) A
rollback m s = let r = m s in elim r.0 [ ok a ↦ (ok a, r.1) | err e ↦ (err e, s) ]

abbrev pub memory : EdgeDeviceRepository (List EdgeDevice)
memory = record {
  within_transaction = rollback;
  create = λ d s. (ok tt, d ∷ s);
  find_by_id = λ id s. (or_err (device_at s id) (sentinel edge_device_not_found), s);
  find_by_id_for_update = λ id s. (or_err (device_at s id) (sentinel edge_device_not_found), s);
  find_by_observation_point_id_for_update =
      λ id s. (or_err (owner_of id s) (sentinel edge_device_not_found), s);
  list_by_event = λ event gone s. (ok s, s);
  save = λ d s. (ok tt, d ∷ s);
  save_heartbeat = λ d s. (ok tt, d ∷ s);
}

abbrev pub hold_policy : HeartbeatLossHoldPolicy ℤ
hold_policy = record {
  heartbeat_timeout = pos 60;
  threshold = pos 1;
  min_devices = pos 1;
  max_duration = pos 600;
}

-- One measurement of 60 seconds that ended at the window's end.
abbrev pub window_end : Time
window_end = pos 600_000_000_000

abbrev pub window_start : Time
window_start = pos 540_000_000_000

abbrev pub measurement : Measurement ℤ
measurement = record {
  observation_point_id = gate_id;
  window_start = window_start;
  window_end = window_end;
  count_in = pos 3;
  count_out = pos 1;
  mean_detected_people = some (pos 5);
}

abbrev pub measurement_input : MeasurementInput ℤ
measurement_input = record {
  observation_point_id = gate_id;
  window_start = window_start;
  window_end = window_end;
  count_in = pos 3;
  count_out = pos 1;
  mean_detected_people = some (pos 5);
}

abbrev pub mapping : ObservationPointMapping
mapping = record {
  observation_point_id = gate_id;
  anchor = record { point_id = []; route_id = codes "r1" };
  method = camera_method;
}
