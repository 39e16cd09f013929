-- ===== src/Tests/Services.antt =====
-- Runs of the use cases over a store in memory.
use tolo_observation.Tests.Data.{
  page, page_id, hall_id, read, memory, int_float, measurement_input, claims,
}
use tolo_observation.EdgeDeviceService.{RegisterEdgeDeviceInput}
use tolo_observation.EdgeDevice.{camera, EdgeDevice, has_observation_point}
use tolo_observation.Common.{◌≡◌, refl, true, Option, none, some, List, [], ◌∷◌, arith}
use tolo_observation.Common.Text.{
  text_eq, codes, Text, trim_space, trim_left, trim_right, is_space, byte_len,
}
use tolo_observation.Ingest.{
  check_device, GraphSupply, ReportMeasurementsInput, report_measurements, make_measurements,
  make_measurement, resolve_tenant, resolve_by_method, resolve_device, run_cycle,
}
use tolo_observation.Holds.{HeartbeatLossHoldRepository}
use tolo_observation.TenantCtx.{
  ensure_event, event_public_id_from_context, tenant_public_id_from_context,
}
use tolo_observation.Common.Int.{pos, ℤ}
use tolo_observation.Ingest.Laws.{Reported, report_measurements_ok}
use tolo_observation.Settings.{
  ObservationSettingsRepository, ObservationSettings, update_observation_settings,
  new_observation_settings, long_term,
}
use tolo_observation.ClientErrors.{client_error}
use tolo_observation.PublicId.Laws.{FillsBuffer, new_public_id-parses}
use tolo_observation.PublicId.{
  new_public_id, parse_public_id, encode_to_string, to_lower, is_decodable,
}
use tolo_observation.Common.Result.{ok, err, Action, or_err}
use tolo_observation.Measurement.{Measurement, new_measurement, check_measurement}
use tolo_observation.ClientErrors.{client_error}
use tolo_observation.Errors.{sentinel, event_mismatch, observation_settings_not_found}
use tolo_observation.Snapshot.{camera_method}

-- The claims let the event pass, and the page's ID parses.
event-allowed : ensure_event (some claims) (codes "ev") ≡ ok tt
unfolding ensure_event event_public_id_from_context trim_space trim_left trim_right is_space text_eq
event-allowed = refl

page-parses : parse_public_id page_id ≡ ok page_id
unfolding parse_public_id byte_len to_lower is_decodable text_eq
page-parses = refl

abbrev pub no_holds : HeartbeatLossHoldRepository (List EdgeDevice)
no_holds = record {
  count_across_tenants = λ a b s. (ok (record { recent = 1; lost = 0 }), s);
  find_open = λ s. (ok none, s);
  start = λ a n s. (ok true, s);
  end_at = λ a b s. (ok true, s);
}

abbrev other_event : RegisterEdgeDeviceInput
other_event = record {
  event_id = codes "other";
  name = codes "cam";
  observation_point_names = [];
  kind = camera;
  linked_observation_point_id = hall_id;
}

event-refused : ensure_event (some claims) (codes "other") ≡ err (sentinel event_mismatch)
unfolding ensure_event event_public_id_from_context trim_space trim_left trim_right is_space text_eq
event-refused = refl

abbrev no_graphs : GraphSupply (List EdgeDevice)
no_graphs = record {
  current_revision = λ e s. (ok (codes "rev"), s);
  qr_locations = λ t e r s. (ok [], s);
}

abbrev report : ReportMeasurementsInput ℤ
report = record {
  tenant_id = [];
  event_id = codes "ev";
  edge_device_id = page_id;
  method = camera_method;
  measurements = measurement_input ∷ [];
}

abbrev record_all : Text → Text → Text → List (Measurement ℤ) → Action (List EdgeDevice) ℤ
record_all tenant event id ms s = (ok (pos 1), s)

abbrev no_cycle : Text → Text → Action (List EdgeDevice) (Unit {0})
no_cycle tenant event s = (ok tt, s)

report-accepted :
    (report_measurements int_float memory no_graphs record_all no_cycle
      (some claims)
      report
      (page ∷ [])).0
    ≡ ok (pos 1)
unfolding report_measurements ensure_event event_public_id_from_context trim_space trim_left
    trim_right is_space text_eq make_measurements make_measurement new_measurement check_measurement
    parse_public_id to_lower is_decodable resolve_tenant resolve_by_method resolve_device
    check_device has_observation_point run_cycle byte_len
report-accepted = refl

report_measurements_ok_example : Reported int_float memory (some claims) report (page ∷ [])
report_measurements_ok_example =
    report_measurements_ok int_float memory no_graphs record_all no_cycle (some claims) report
      (page ∷ []) (pos 1) refl report-accepted

-- A store of the last settings that were saved.
abbrev settings : ObservationSettingsRepository (Option ObservationSettings)
settings = record {
  find = λ event s. (or_err s (sentinel observation_settings_not_found), s);
  save = λ tenant event o s. (ok tt, some o);
}

abbrev two_weeks : ObservationSettings
two_weeks = record { history_window_days = pos 14; event_type = long_term }

settings-updated :
    update_observation_settings settings (some claims) (codes "ev") (pos 14) long_term none
    ≡ (ok two_weeks, some two_weeks)
unfolding update_observation_settings ensure_event event_public_id_from_context
    tenant_public_id_from_context trim_space trim_left trim_right is_space text_eq
    new_observation_settings
settings-updated = refl

read-FillsBuffer : FillsBuffer read
read-FillsBuffer s bs h = ground (arith, h)

id-made : (new_public_id read []).0 ≡ ok (codes "0707070707070707")
unfolding new_public_id encode_to_string
id-made = refl

new_public_id-parses_example :
    parse_public_id (codes "0707070707070707") ≡ ok (codes "0707070707070707")
new_public_id-parses_example =
    new_public_id-parses read read-FillsBuffer [] (codes "0707070707070707") id-made
