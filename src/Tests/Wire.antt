-- ===== src/Tests/Wire.antt =====
-- Runs of the Connect handlers and of the clients.
use tolo_observation.Connect.Settings.{proto_event_type, handle_get_settings}
use tolo_observation.Connect.Settings.{new_proto_observation_settings}
use tolo_observation.Db.Settings.{event_type_of}
use tolo_observation.Db.Settings.{save_settings}
use tolo_observation.Connect.Settings.{domain_event_type}
use tolo_observation.Settings.{new_observation_settings, get_observation_settings}
use tolo_observation.TenantCtx.{tenant_public_id_from_context}
use tolo_observation.Common.Text.{text_eq}
use tolo_observation.Common.Text.{is_space}
use tolo_observation.Common.Text.{trim_left}
use tolo_observation.Common.Text.{trim_right}
use tolo_observation.Common.Text.{trim_space}
use tolo_observation.TenantCtx.{event_public_id_from_context}
use tolo_observation.Settings.{update_observation_settings}
use tolo_observation.Tests.Data.{
  claims, int_float, page_id, gate_id, camera_device, page, memory, clock, read, hold_policy,
  window_start, window_end,
}
use tolo_observation.Tests.Services.{no_holds}
use tolo_observation.Connect.{response, refusal}
use tolo_observation.Connect.Ingest.{ReportMeasurementsRequest, handle_report, source_edge}
use tolo_observation.Connect.Ingest.Sources.{EdgeAccepted, QrAccepted, handle_report_iff}
use tolo_observation.Connect.Settings.{
  ProtoObservationSettings, proto_long_term, handle_update_settings,
}
use tolo_observation.Connect.Settings.Types.{Updates, handle_update_settings_ok}
use tolo_observation.Connect.Devices.{
  EdgeDeviceUseCases, RegisterEdgeDeviceRequest, RegisterEdgeDeviceResponse, handle_register,
  handle_unregister, handle_list, proto_camera, handle_list_points, handle_heartbeat,
  handle_update_point,
}
use tolo_observation.Connect.Devices.Shown.{Answers, HidesCamera, handlers-HidesCamera}
use tolo_observation.Connect.Refused.{handlers_refused, edge_device_use_cases}
use tolo_observation.Connect.Status.{handle_overview, handle_guest_snapshot}
use tolo_observation.Db.GuestStatuses.{GuestStatus}
use tolo_observation.Db.Settings.{postgres_settings, no_faults}
use tolo_observation.Common.{
  ℕ, ◌≡◌, refl, true, none, some, List, [], ◌∷◌, ◌↔◌, length, ◌⊎◌, All, ◌+◌,
}
use tolo_observation.Common.Int.{ℤ, pos}
use tolo_observation.TenantCtx.{Context, ensure_event}
use tolo_observation.Common.Result.{ok, err, Action, Result}
use tolo_observation.StatusQuery.{get_guest_snapshot, SnapshotReads, Bytes, get_event_overview}
use tolo_observation.Settings.{ObservationSettingsRepository}
use tolo_observation.Common.Text.{Text, codes}
use tolo_observation.Ingest.{ReportMeasurementsInput}
use tolo_observation.EdgeDevice.{EdgeDevice}
use tolo_observation.Errors.{
  sentinel, foreign_event, observation_settings_not_found, snapshot_not_found,
  guest_status_not_found, event_mismatch, optimization_outcome_missing,
}
use tolo_observation.Snapshot.{Snapshot}
use tolo_observation.ClientErrors.{ConnectError, permission_denied, client_error}

abbrev request : ReportMeasurementsRequest ℤ
request = record {
  tenant_id = [];
  event_id = codes "ev";
  edge_device_id = page_id;
  measurements =
      record {
        source = source_edge;
        observation_point_id = gate_id;
        qr_location_id = [];
        window_start = some window_start;
        window_end = some window_end;
        count_in = pos 3;
        count_out = pos 1;
        mean_detected_people = none;
      }
      ∷ [];
}

-- A use case that accepts every measurement, and counts them in its state.
abbrev accept_all : Context → ReportMeasurementsInput ℤ → Action ℕ ℤ
accept_all ctx input n = (ok (pos (length input.measurements)), n + length input.measurements)

handle_report_iff_example :
    ((handle_report accept_all (some claims) request 0).0 ≡ response (pos 1)) ↔ (
      EdgeAccepted accept_all (some claims) request 0 (pos 1)
      ⊎ QrAccepted accept_all (some claims) request 0 (pos 1))
handle_report_iff_example = handle_report_iff accept_all (some claims) request 0 (pos 1)

abbrev message : ProtoObservationSettings
message = record { history_window_days = pos 14; event_type = proto_long_term }

handle_update_settings_ok_example : Updates (some claims) (codes "ev") (some message) message
unfolding handle_update_settings update_observation_settings ensure_event
    event_public_id_from_context trim_space trim_right trim_left is_space text_eq
    tenant_public_id_from_context new_observation_settings domain_event_type save_settings
    event_type_of new_proto_observation_settings proto_event_type
handle_update_settings_ok_example =
    handle_update_settings_ok (postgres_settings no_faults (some claims)) (some claims) (codes "ev")
      (some message) message [] refl

-- Use cases that answer with a camera that claims to be online.
abbrev camera_cases : EdgeDeviceUseCases ℕ
camera_cases = record {
  register = λ ctx input n. (
    ok (record {
      device = record { device = camera_device; is_online = true };
      observation_page_path = [];
    }),
    n,
  );
  unregister = λ ctx event id n. (ok (record { device = camera_device; is_online = true }), n);
  list = λ ctx event b n. (
    ok (
        record { device = camera_device; is_online = true }
        ∷ record { device = page; is_online = true }
        ∷ []),
    n,
  );
  list_points = λ ctx event id n. (ok [], n);
  heartbeat = λ ctx event id ids n. (ok tt, n);
  update_point = λ ctx event id name b n. (err (sentinel foreign_event), n);
}

abbrev register_request : RegisterEdgeDeviceRequest
register_request = record {
  event_id = codes "ev";
  name = codes "cam";
  observation_point_names = [];
  kind = proto_camera;
  linked_observation_point_id = gate_id;
}

handlers-HidesCamera_example :
    Answers
      (λ (r : RegisterEdgeDeviceResponse). HidesCamera r.device)
      (handle_register camera_cases (some claims) register_request 0).0
    × Answers HidesCamera (handle_unregister camera_cases (some claims) (codes "ev") page_id 0).0
    × Answers (All HidesCamera) (handle_list camera_cases (some claims) (codes "ev") true 0).0
handlers-HidesCamera_example =
    handlers-HidesCamera camera_cases (some claims) register_request (codes "ev") page_id true 0

abbrev stored_settings : ObservationSettingsRepository (List EdgeDevice)
stored_settings = record {
  find = λ event s. (err (sentinel observation_settings_not_found), s);
  save = λ tenant event o s. (ok tt, s);
}

abbrev no_snapshots : SnapshotReads (List EdgeDevice) (Snapshot ℤ)
no_snapshots = record {
  latest_snapshot = λ event s. (err (sentinel snapshot_not_found), s);
  latest_optimization_outcome = λ event s. (err (sentinel optimization_outcome_missing), s);
}

abbrev no_status : Text → Action (List EdgeDevice) (GuestStatus ℤ)
no_status event s = (err (sentinel guest_status_not_found), s)

abbrev no_diagnostics : Bytes → Result ℕ
no_diagnostics b = ok 0

other-refused : ensure_event (some claims) (codes "other") ≡ err (sentinel event_mismatch)
unfolding ensure_event event_public_id_from_context trim_space trim_right trim_left is_space text_eq
other-refused = refl

abbrev cases : EdgeDeviceUseCases (List EdgeDevice)
cases = edge_device_use_cases int_float memory no_holds hold_policy clock read (pos 60)

abbrev denied : ConnectError
denied = client_error (sentinel event_mismatch)

handlers_refused_example :
    (denied.code ≡ permission_denied)
    × (handle_unregister cases (some claims) (codes "other") page_id (page ∷ [])
        ≡ (refusal denied, page ∷ []))
    × (handle_list cases (some claims) (codes "other") true (page ∷ [])
        ≡ (refusal denied, page ∷ []))
    × (handle_list_points cases (some claims) (codes "other") page_id (page ∷ [])
        ≡ (refusal denied, page ∷ []))
    × (handle_heartbeat cases (some claims) (codes "other") page_id (gate_id ∷ []) (page ∷ [])
        ≡ (refusal denied, page ∷ []))
    × (handle_update_point cases
          (some claims)
          (codes "other")
          page_id
          (codes "door")
          true
          (page ∷ [])
        ≡ (refusal denied, page ∷ []))
    × (handle_get_settings
          (get_observation_settings stored_settings)
          (some claims)
          (codes "other")
          (page ∷ [])
        ≡ (refusal denied, page ∷ []))
    × (handle_update_settings
          (update_observation_settings stored_settings)
          (some claims)
          (codes "other")
          (some message)
          (page ∷ [])
        ≡ (refusal denied, page ∷ []))
    × (handle_overview no_diagnostics
          (get_event_overview no_snapshots)
          (some claims)
          (codes "other")
          (page ∷ [])
        ≡ (refusal denied, page ∷ []))
    × (handle_guest_snapshot
          (get_guest_snapshot no_status)
          (some claims)
          (codes "other")
          (page ∷ [])
        ≡ (refusal denied, page ∷ []))
handlers_refused_example =
    handlers_refused int_float memory no_holds hold_policy clock read (pos 60) stored_settings
      no_snapshots no_status no_diagnostics (some message) (some claims) (codes "other") page_id
      (codes "door") true (gate_id ∷ []) (page ∷ []) (sentinel event_mismatch) other-refused
