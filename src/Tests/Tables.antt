-- ===== src/Tests/Tables.antt =====
-- Runs over the tables, with a driver that does what it is asked to.
use tolo_observation.Db.GuestStatuses.{write_status}
use tolo_observation.Db.Settings.{event_type_of}
use tolo_observation.Db.Settings.{save_settings}
use tolo_observation.Settings.{new_observation_settings}
use tolo_observation.TenantCtx.{tenant_public_id_from_context}
use tolo_observation.Common.Text.{text_eq}
use tolo_observation.Common.Text.{is_space}
use tolo_observation.Common.Text.{trim_left}
use tolo_observation.Common.Text.{trim_right}
use tolo_observation.Common.Text.{trim_space}
use tolo_observation.TenantCtx.{event_public_id_from_context}
use tolo_observation.TenantCtx.{ensure_event}
use tolo_observation.Settings.{update_observation_settings}
use tolo_observation.Common.Int.{◌+ℤ◌}
use tolo_observation.Common.Int.{wrap_i32}
use tolo_observation.Db.Measurements.{has_key}
use tolo_observation.Db.Measurements.{insert_measurement}
use tolo_observation.Db.Measurements.{record_one}
use tolo_observation.Db.Measurements.{record_from}
use tolo_observation.Db.Transaction.{finish}
use tolo_observation.Db.EdgeDevices.Heartbeats.{KeepsConfig, save_heartbeat-KeepsConfig}
use tolo_observation.Db.EdgeDevices.{postgres_devices}
use tolo_observation.Db.DeviceTables.{DeviceTables}
use tolo_observation.EdgeDevice.{EdgeDevice, observation_page}
use tolo_observation.Common.{true, false}
use tolo_observation.EdgeDevice.{camera}
use tolo_observation.Tests.Data.{claims, int_float, measurement, page_id}
use tolo_observation.Db.Transaction.{Driver, Session, run_in_transaction, execute}
use tolo_observation.Db.Transaction.Atomic.{
  IsSafe, StaysInside, IsAtomic, IsReliable, RunsAs, run_in_transaction-IsAtomic,
  run_in_transaction-execute,
}
use tolo_observation.Db.Measurements.Resend.{record_all-IsIdempotent, IsIdempotent}
use tolo_observation.Db.Settings.RoundTrip.{get_observation_settings-update}
use tolo_observation.Db.Settings.{postgres_settings, no_faults, SettingsRow}
use tolo_observation.Db.GuestStatuses.{Codec, GuestStatus, GuestStatusRow, save_guest_status}
use tolo_observation.Db.GuestStatuses.RoundTrip.{RoundTrips, IsSaved, save_guest_status-IsSaved}
use tolo_observation.Settings.{long_term, get_observation_settings}
use tolo_observation.Common.{ℕ, ◌≡◌, refl, none, some, List, [], ◌∷◌, inl, ◌+◌, ◌≢◌}
use tolo_observation.Common.Result.{ok, Action, err}
use tolo_observation.Common.Text.{codes, Text}
use tolo_observation.Common.Int.{ℤ, pos}
use tolo_observation.Errors.{external}
use tolo_observation.Db.Measurements.{row_of, record_all, MeasurementRow}
use tolo_observation.Db.Settings.{find_row}

abbrev pub driver : {D : Type 0} → Driver D
driver = record { begin_with = λ d. ok tt; commit = λ d d'. (ok tt, d'); roll_back = λ d. ok tt }

driver-IsReliable : {D : Type 0} → IsReliable {D = D} driver
driver-IsReliable = record { begins = λ d. refl; commits = λ d d'. refl; rolls_back = λ d. refl }

pub driver-IsSafe : {D : Type 0} → IsSafe {D = D} driver
driver-IsSafe d d' = inl refl

-- A statement that counts up.
abbrev count_up : Action ℕ ℕ
count_up n = (ok n, n + 1)

count_up-StaysInside : StaysInside (execute count_up)
unfolding execute
count_up-StaysInside d now = (now + 1, refl)

run_in_transaction-IsAtomic_example :
    IsAtomic driver
      (execute count_up)
      4
      (run_in_transaction driver (execute count_up) (record { committed = 4; transaction = none }))
run_in_transaction-IsAtomic_example =
    run_in_transaction-IsAtomic driver (execute count_up) 4 driver-IsSafe count_up-StaysInside

run_in_transaction-execute_example :
    RunsAs 4
      (ok 4, 5)
      (run_in_transaction driver (execute count_up) (record { committed = 4; transaction = none }))
run_in_transaction-execute_example = run_in_transaction-execute driver count_up 4 driver-IsReliable

-- The table after the measurement was recorded.
abbrev one_row : Session (List (MeasurementRow ℤ))
one_row = record {
  committed = row_of int_float (λ t. t) (codes "tn") (codes "ev") page_id measurement ∷ [];
  transaction = none;
}

record_all-IsIdempotent_example :
    IsIdempotent int_float
      (λ t. t)
      (codes "tn")
      (codes "ev")
      page_id
      driver
      (measurement ∷ [])
      []
      one_row
unfolding record_all run_in_transaction finish execute record_from record_one insert_measurement
    has_key wrap_i32 ◌+ℤ◌
record_all-IsIdempotent_example =
    record_all-IsIdempotent int_float (λ t. t) (codes "tn") (codes "ev") page_id driver
      (measurement ∷ []) [] one_row (pos 1) driver-IsReliable refl refl

abbrev settings_row : SettingsRow
settings_row = record {
  event_id = codes "ev";
  tenant_public_id = codes "tn";
  history_window_days = pos 14;
  event_type = codes "long_term";
}

get_observation_settings-update_example :
    (get_observation_settings
        (postgres_settings no_faults (some claims))
        (some claims)
        (codes "ev")
        (settings_row ∷ [])
      ≡ (ok (record { history_window_days = pos 14; event_type = long_term }), settings_row ∷ []))
    × ((j : Text) → j ≢ codes "ev" → find_row j (settings_row ∷ []) ≡ find_row j [])
unfolding update_observation_settings ensure_event event_public_id_from_context trim_space
    trim_right trim_left is_space text_eq tenant_public_id_from_context new_observation_settings
    save_settings event_type_of
get_observation_settings-update_example =
    get_observation_settings-update no_faults (some claims) (codes "ev") (pos 14) long_term []
      (settings_row ∷ []) (record { history_window_days = pos 14; event_type = long_term }) refl

-- Encodes only empty lists, as the service writes them.
abbrev pub empties : {A : Type 0} → Codec (List A)
empties = record {
  marshal = λ l. elim l [ [] ↦ ok (codes "[]") | (a ∷ _) ↦ err (external "unsupported") ];
  jsonb = λ b. b;
  unmarshal = λ b. ok [];
}

pub empties-RoundTrips : {A : Type 0} → RoundTrips {A = List A} empties
empties-RoundTrips [] bytes h = refl
empties-RoundTrips (a ∷ l) bytes h = cc

abbrev pub status : GuestStatus ℤ
status = record { event_id = codes "ev"; sequence = 0; taken_at = pos 9; crowd = []; queues = [] }

abbrev pub status_row : ℕ → GuestStatusRow
status_row n = record {
  event_id = codes "ev";
  tenant_public_id = codes "tn";
  sequence = n;
  taken_at = pos 9;
  crowd = codes "[]";
  queues = codes "[]";
}

save_guest_status-IsSaved_example :
    IsSaved empties empties
      (λ t. t)
      status
      (record status { sequence = 4 })
      (status_row 3 ∷ [])
      (status_row 4 ∷ [])
unfolding save_guest_status write_status text_eq
save_guest_status-IsSaved_example =
    save_guest_status-IsSaved empties empties (λ t. t) none (codes "tn") status
      (record status { sequence = 4 }) (status_row 3 ∷ []) (status_row 4 ∷ []) empties-RoundTrips
      empties-RoundTrips refl

-- A page with one point, both heard of at 5.
abbrev pub beaten_page : EdgeDevice
beaten_page = record {
  id = page_id;
  tenant_public_id = codes "tn";
  event_id = codes "ev";
  name = codes "new name";
  unregistered = false;
  last_heartbeat_at = some (pos 5);
  kind = observation_page;
  observation_points =
      record { id = codes "pt"; name = codes "b"; enabled = false; last_active_at = some (pos 5) }
      ∷ [];
  camera_links = [];
}

-- Its rows before.
abbrev pub page_tables : DeviceTables
page_tables = record {
  devices =
      record {
        id = 1;
        edge_device_id = page_id;
        tenant_public_id = codes "tn";
        event_id = codes "ev";
        name = codes "gate";
        unregistered = false;
        last_heartbeat_at = none;
        kind = codes "observation_page";
      }
      ∷ [];
  points =
      record {
        id = 1;
        observation_point_id = codes "pt";
        device = 1;
        name = codes "a";
        enabled = true;
        last_active_at = none;
      }
      ∷ [];
  links = [];
  next_device = 2;
  next_point = 2;
}

save_heartbeat-KeepsConfig_example :
    let (r, s) =
      (postgres_devices (λ t. t) driver (some claims)).save_heartbeat beaten_page
        (record { committed = page_tables; transaction = none }) in
    (s.transaction ≡ none) × KeepsConfig page_tables s.committed
save_heartbeat-KeepsConfig_example =
    save_heartbeat-KeepsConfig (λ t. t) driver (some claims) beaten_page page_tables driver-IsSafe

-- A camera for the page's point.
abbrev pub point_camera : EdgeDevice
point_camera = record beaten_page {
  id = codes "cm";
  kind = camera;
  observation_points = [];
  camera_links =
      record { camera_edge_device_id = codes "cm"; observation_point_id = codes "pt" } ∷ [];
}
