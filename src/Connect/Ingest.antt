-- ===== src/Connect/Ingest.antt =====
-- internal/infra/connect/service.go: MeasurementIngestService. A Timestamp is the instant that its
-- `AsTime` gives.
pub mod Sources
use tolo_observation.Connect.{Response, respond}
use tolo_observation.Common.Text.{Text, is_empty}
use tolo_observation.Common.Int.{ℤ}
use tolo_observation.Common.{
  Option, none, some, List, [], ◌∷◌, Bool, true, false, if◌then◌else◌, not, ◌&&◌,
}
use tolo_observation.Common.Result.{Result, Action, ok, err, raise_if, lift, ◌>>=◌, ◌>>◌}
use tolo_observation.Errors.{
  sentinel, edge_device_not_allowed, mixed_measurement_sources, qr_location_not_allowed,
  observation_point_not_allowed, measurement_source_required,
}
use tolo_observation.Ingest.{MeasurementInput, ReportMeasurementsInput}
use tolo_observation.Snapshot.{MeasurementMethod, camera_method, qr_method, is_qr}
use tolo_observation.GoTime.{Time, zero_time}
use tolo_observation.TenantCtx.{Context}

-- An int32 in the message; `other_source` is any value without a name.
pub data MeasurementSource : Type 0 where
  source_unspecified source_edge source_qr other_source : MeasurementSource

pub record ReportedMeasurement (F : Type 0) : Type 0 where
  pub source : MeasurementSource
  pub observation_point_id : Text
  pub qr_location_id : Text
  pub window_start : Option Time
  pub window_end : Option Time
  pub count_in : ℤ  -- int32
  pub count_out : ℤ  -- int32
  pub mean_detected_people : Option F

pub record ReportMeasurementsRequest (F : Type 0) : Type 0 where
  pub tenant_id : Text
  pub event_id : Text
  pub edge_device_id : Text
  pub measurements : List (ReportedMeasurement F)

-- A timestamp that is missing is the zero time.
abbrev pub timestamp_time : Option Time → Time
timestamp_time none = zero_time
timestamp_time (some t) = t

abbrev pub method_of_source : MeasurementSource → MeasurementMethod
method_of_source source_qr = qr_method
method_of_source source_edge = camera_method
method_of_source source_unspecified = camera_method
method_of_source other_source = camera_method

-- `measurementPointID` by the source of the measurement.
abbrev pub point_id_by : MeasurementSource → Text → Text → MeasurementMethod → Result Text
point_id_by source_edge point location chosen =
    if is_qr chosen
    then err (sentinel mixed_measurement_sources)
    else if not (is_empty location)
    then err (sentinel qr_location_not_allowed)
    else ok point
point_id_by source_qr point location chosen =
    if not (is_qr chosen)
    then err (sentinel mixed_measurement_sources)
    else if not (is_empty point)
    then err (sentinel observation_point_not_allowed)
    else ok location
point_id_by source_unspecified point location chosen = err (sentinel measurement_source_required)
point_id_by other_source point location chosen = err (sentinel measurement_source_required)

module _ {F : Type 0} where
  -- The first measurement decides.
  unfoldable pub method_of : List (ReportedMeasurement F) → MeasurementMethod
  method_of [] = camera_method
  method_of (m ∷ ms) = method_of_source m.source

  unfoldable pub measurement_point_id : ReportedMeasurement F → MeasurementMethod → Result Text
  measurement_point_id m chosen =
      point_id_by m.source m.observation_point_id m.qr_location_id chosen

  abbrev pub input_at : Text → ReportedMeasurement F → MeasurementInput F
  input_at point_id m = record {
    observation_point_id = point_id;
    window_start = timestamp_time m.window_start;
    window_end = timestamp_time m.window_end;
    count_in = m.count_in;
    count_out = m.count_out;
    mean_detected_people = m.mean_detected_people;
  }

  -- The loop over the measurements.
  unfoldable pub measurement_inputs :
      MeasurementMethod → List (ReportedMeasurement F) → Result (List (MeasurementInput F))
  measurement_inputs chosen [] = ok []
  measurement_inputs chosen (m ∷ ms) =
      let rest = measurement_inputs chosen ms in
      elim (measurement_point_id m chosen) [
        | err e ↦ err e
        | ok id ↦ elim rest [ err e ↦ err e | ok inputs ↦ ok (input_at id m ∷ inputs) ]
      ]

  abbrev pub report_input :
      ReportMeasurementsRequest F
      → MeasurementMethod
      → List (MeasurementInput F)
      → ReportMeasurementsInput F
  report_input req method inputs = record {
    tenant_id = req.tenant_id;
    event_id = req.event_id;
    edge_device_id = req.edge_device_id;
    method = method;
    measurements = inputs;
  }

  -- What `ReportMeasurements` does once the method is chosen.
  unfoldable pub report_request :
      {S : Type 0}
      → (Context → ReportMeasurementsInput F → Action S ℤ)
      → Context
      → ReportMeasurementsRequest F
      → MeasurementMethod
      → Action S ℤ
  report_request report ctx req chosen = do
    raise_if (is_qr chosen && not (is_empty req.edge_device_id)) (sentinel edge_device_not_allowed)
    inputs ← lift (measurement_inputs chosen req.measurements)
    report ctx (report_input req chosen inputs)

  unfoldable pub handle_report :
      {S : Type 0}
      → (Context → ReportMeasurementsInput F → Action S ℤ)
      → Context
      → ReportMeasurementsRequest F
      → S
      → Response ℤ × S
  handle_report report ctx req =
      respond (report_request report ctx req (method_of req.measurements))
