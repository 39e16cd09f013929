-- ===== src/Ingest.antt =====
-- internal/application/measurement_ingest.go: which measurements a request may record. The graph
-- supply (internal/application/observation_cycle.go), the measurement store
-- (internal/repository/measurement.go) and the cycle are interfaces; a failed cycle is only logged.
pub mod Laws
use tolo_observation.EdgeDeviceService.{EdgeDeviceRepository}
use tolo_observation.Common.{
  ℕ, zero, suc, ◌≡◌, refl, Bool, true, false, Option, none, some, List, [], ◌∷◌, arith, any, all,
  if◌then◌else◌, not,
}
use tolo_observation.Common.Text.{Text, text_eq, trim_space, is_empty}
use tolo_observation.Float.{Float}
use tolo_observation.EdgeDevice.{ObservationPointId, EdgeDevice, is_camera, has_observation_point}
use tolo_observation.Snapshot.{
  ObservationPointMapping, MeasurementMethod, is_qr, qr_method, camera_method,
}
use tolo_observation.TenantCtx.{Context, ensure_event, verify_ownership}
use tolo_observation.Common.Result.{
  Action, Result, ok, ◌>>◌, err, raise_if, lift, ◌>>=◌, wrap_err, pure,
}
use tolo_observation.GoTime.{Time}
use tolo_observation.Measurement.{Measurement, new_measurement}
use tolo_observation.Common.Int.{ℤ, eq_ℤ, pos}
use tolo_observation.Errors.{
  sentinel, foreign_event, tenant_required, edge_device_required, edge_device_camera_unsupported,
  edge_device_unregistered,
}
use tolo_observation.PublicId.{parse_public_id}

-- The revision of a graph is all that this use case reads of it.
pub record GraphSupply (S : Type 0) : Type 0 where
  pub current_revision : Text → Action S Text
  pub qr_locations : Text → Text → Text → Action S (List ObservationPointMapping)

pub record MeasurementInput (F : Type 0) : Type 0 where
  pub observation_point_id : Text
  pub window_start : Time
  pub window_end : Time
  pub count_in : ℤ  -- int32
  pub count_out : ℤ  -- int32
  pub mean_detected_people : Option F

pub record ReportMeasurementsInput (F : Type 0) : Type 0 where
  pub tenant_id : Text
  pub event_id : Text
  pub edge_device_id : Text
  pub method : MeasurementMethod
  pub measurements : List (MeasurementInput F)

module _ {F : Type 0} (f : Float F) where
  unfoldable pub make_measurement : MeasurementInput F → Result (Measurement F)
  make_measurement m =
      new_measurement f m.observation_point_id m.window_start m.window_end m.count_in m.count_out
        m.mean_detected_people

  unfoldable pub make_measurements : List (MeasurementInput F) → Result (List (Measurement F))
  make_measurements [] = ok []
  make_measurements (m ∷ inputs) =
      let rest = make_measurements inputs in
      elim (make_measurement m) [
        | err e ↦ err e
        | ok made ↦ elim rest [ err e ↦ err e | ok ms ↦ ok (made ∷ ms) ]
      ]

abbrev pub is_placed : List ObservationPointMapping → ObservationPointId → Bool
is_placed locations id =
    any (λ (l : ObservationPointMapping). text_eq l.observation_point_id id) locations

module _ {F : Type 0} where
  abbrev pub are_all_at : (ObservationPointId → Bool) → List (Measurement F) → Bool
  are_all_at at = all (λ (m : Measurement F). at m.observation_point_id)

  -- The checks of `resolveTenant` on the reporting device.
  unfoldable pub check_device : Text → List (Measurement F) → EdgeDevice → Result (Text × Text)
  check_device event ms d =
      if not (text_eq d.event_id event)
      then err (sentinel foreign_event)
      else if is_camera d.kind
      then err (sentinel edge_device_camera_unsupported)
      else if d.unregistered
      then err (sentinel edge_device_unregistered)
      else if not (are_all_at (has_observation_point d) ms)
      then err (sentinel foreign_event)
      else ok (d.tenant_public_id, d.id)

  module _ {S : Type 0} (devices : EdgeDeviceRepository S) (graphs : GraphSupply S) where
    unfoldable pub resolve_qr_tenant : Text → Text → List (Measurement F) → Action S Text
    resolve_qr_tenant tenant event ms = do
      raise_if (is_empty tenant) (sentinel tenant_required)
      revision ← wrap_err "get current graph" (graphs.current_revision event)
      locations ← wrap_err "get qr locations" (graphs.qr_locations tenant event revision)
      raise_if (not (are_all_at (is_placed locations) ms)) (sentinel foreign_event)
      pure tenant

    -- The part for a device, with its trimmed ID.
    unfoldable pub resolve_device : Text → Text → List (Measurement F) → Action S (Text × Text)
    resolve_device event device_id ms = do
      raise_if (is_empty device_id) (sentinel edge_device_required)
      id ← lift (parse_public_id device_id)
      d ← wrap_err "find edge device" (devices.find_by_id id)
      lift (check_device event ms d)

    -- The rest, after the ownership of the trimmed tenant was verified.
    unfoldable pub resolve_by_method :
        MeasurementMethod
        → Text
        → ReportMeasurementsInput F
        → List (Measurement F)
        → Action S (Text × Text)
    resolve_by_method qr_method tenant input ms = do
      found ← resolve_qr_tenant tenant input.event_id ms
      pure (found, [])
    resolve_by_method camera_method tenant input ms =
        resolve_device input.event_id (trim_space input.edge_device_id) ms

    unfoldable pub resolve_tenant :
        Context → ReportMeasurementsInput F → List (Measurement F) → Action S (Text × Text)
    resolve_tenant ctx input ms = do
      let tenant = trim_space input.tenant_id
      lift (if is_empty tenant then ok tt else verify_ownership ctx tenant)
      resolve_by_method input.method tenant input ms

module _ {S F : Type 0} (f : Float F) (devices : EdgeDeviceRepository S) (graphs : GraphSupply S)
    (record_all : Text → Text → Text → List (Measurement F) → Action S ℤ)
    (run : Text → Text → Action S (Unit {0})) where
  -- The cycle runs after at least one measurement was accepted, and its failure is no failure.
  unfoldable pub run_cycle : Text → Text → ℤ → Action S ℤ
  run_cycle tenant event accepted s =
      let (_, s') = run tenant event s in (ok accepted, if eq_ℤ accepted (pos 0) then s else s')

  unfoldable pub report_measurements : Context → ReportMeasurementsInput F → Action S ℤ
  report_measurements ctx input = do
    lift (ensure_event ctx input.event_id)
    ms ← lift (make_measurements f input.measurements)
    owner ← resolve_tenant devices graphs ctx input ms
    accepted ← wrap_err "record measurements" (record_all owner.0 input.event_id owner.1 ms)
    run_cycle owner.0 input.event_id accepted
