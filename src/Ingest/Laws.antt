-- ===== src/Ingest/Laws.antt =====
-- Which reports of measurements are recorded.
use tolo_observation.Ingest.{
  check_device, are_all_at, resolve_tenant, report_measurements, resolve_device, make_measurements,
  ReportMeasurementsInput, GraphSupply, Text, ok, Float, EdgeDeviceRepository, Context,
  parse_public_id, resolve_by_method, ℤ, is_qr, ensure_event,
}
use tolo_observation.Measurement.{Measurement}
use tolo_observation.EdgeDevice.{EdgeDevice, is_camera, has_observation_point, EdgeDeviceId}
use tolo_observation.TenantCtx.Laws.{MayActOn, ensure_event_iff}
use tolo_observation.Common.{◌≡◌, refl, Bool, true, false, List, [], ◌∷◌, arith, All, ◌↔◌, inr, inl}
use tolo_observation.Common.Text.{text_eq_iff, trim_space}
use tolo_observation.Common.Result.{Result-cases, Action}

-- The device may report the measurements for the event.
pub record MayReport {F : Type 0} (event : Text) (ms : List (Measurement F)) (d : EdgeDevice)
    : Type 0 where
  pub of_event : d.event_id ≡ event
  pub no_camera : is_camera d.kind ≡ false
  pub registered : d.unregistered ≡ false
  pub own_points :
      All (λ (m : Measurement F). has_observation_point d m.observation_point_id ≡ true) ms

module _ {F : Type 0} where
  are_all_at_iff :
      (at : Text → Bool) (ms : List (Measurement F))
      → (are_all_at at ms ≡ true) ↔ All (λ (m : Measurement F). at m.observation_point_id ≡ true) ms
  are_all_at_iff at [] = (λ h. tt, λ h. refl)
  are_all_at_iff at (m ∷ ms) = let (to, from) = are_all_at_iff at ms in ground (arith, to, from)

  -- The checks on a device let a report through exactly if the device is of the event, is no camera,
  -- is registered and has every point that is measured; they answer with its tenant and its ID.
  pub check_device_iff :
      (event : Text) (ms : List (Measurement F)) (d : EdgeDevice) (r : Text × Text)
      → (check_device event ms d ≡ ok r) ↔ (MayReport event ms d × (r ≡ (d.tenant_public_id, d.id)))
  unfolding check_device
  check_device_iff event ms d r =
      let (same_event, of_same) = text_eq_iff d.event_id event in
      let (own, of_own) = are_all_at_iff (has_observation_point d) ms in
      (
        λ h. ground (arith, same_event, own, h),
        λ g. ground (
          arith,
          of_same g.0.of_event,
          of_own g.0.own_points,
          g.0.no_camera,
          g.0.registered,
          g.1,
        ),
      )

  -- A report of a device that the service recorded or found nothing to record in.
  pub record Reported {S : Type 0} (f : Float F) (devices : EdgeDeviceRepository S) (ctx : Context)
      (input : ReportMeasurementsInput F) (s : S) : Type 0 where
    pub event_allowed : MayActOn ctx input.event_id
    pub made : List (Measurement F)
    pub well_formed : make_measurements f input.measurements ≡ ok made
    pub id : EdgeDeviceId
    pub id_parses : parse_public_id (trim_space input.edge_device_id) ≡ ok id
    pub device : EdgeDevice
    pub found : (devices.find_by_id id s).0 ≡ ok device
    pub allowed : MayReport input.event_id made device

  resolve_device_ok :
      {S : Type 0} (devices : EdgeDeviceRepository S) (graphs : GraphSupply S)
      (event device_id : Text) (ms : List (Measurement F)) (s : S) (r : Text × Text)
      → (resolve_device devices graphs event device_id ms s).0 ≡ ok r
      → (id : EdgeDeviceId) × (d : EdgeDevice) × (parse_public_id device_id ≡ ok id)
        × ((devices.find_by_id id s).0 ≡ ok d)
        × (check_device event ms d ≡ ok r)
  unfolding resolve_device
  resolve_device_ok devices graphs event device_id ms s r h =
      elim (Result-cases (parse_public_id device_id)) [
        | inr (e, p) ↦ ground (arith, h, p)
        | inl (id, p) ↦ elim (Result-cases (devices.find_by_id id s).0) [
          | inr (e, q) ↦ ground (arith, h, p, q)
          | inl (d, q) ↦ (id, d, p, q, ground (arith, h, p, q))
        ]
      ]

  resolve_tenant_ok :
      {S : Type 0} (devices : EdgeDeviceRepository S) (graphs : GraphSupply S) (ctx : Context)
      (input : ReportMeasurementsInput F) (ms : List (Measurement F)) (s : S)
      → is_qr input.method ≡ false
      → ((r : Text × Text) × ((resolve_tenant devices graphs ctx input ms s).0 ≡ ok r))
      → (r : Text × Text) × ((resolve_device devices graphs input.event_id
            (trim_space input.edge_device_id)
            ms
            s).0
          ≡ ok r)
  unfolding resolve_tenant resolve_by_method
  resolve_tenant_ok devices graphs ctx input ms s camera (r, h) = (r, ground (arith, camera, h))

  reported :
      {S : Type 0} (f : Float F) (devices : EdgeDeviceRepository S) (graphs : GraphSupply S)
      (ctx : Context) (input : ReportMeasurementsInput F) (s : S) (ms : List (Measurement F))
      → MayActOn ctx input.event_id
      → make_measurements f input.measurements ≡ ok ms
      → ((r : Text × Text) × ((resolve_device devices graphs input.event_id
              (trim_space input.edge_device_id)
              ms
              s).0
            ≡ ok r))
      → Reported f devices ctx input s
  reported f devices graphs ctx input s ms may made (r, h) =
      let (id, d, parses, found, checks) = resolve_device_ok devices graphs _ _ ms s r h in
      record {
        event_allowed = may;
        made = ms;
        well_formed = made;
        id = id;
        id_parses = parses;
        device = d;
        found = found;
        allowed = ((check_device_iff input.event_id ms d r).0 checks).0;
      }

  -- A report of a device that succeeds is one for an event that the context may act on, all of whose
  -- measurements are well formed, of a device that is stored and may report them all.
  pub report_measurements_ok :
      {S : Type 0} (f : Float F) (devices : EdgeDeviceRepository S) (graphs : GraphSupply S)
      (record_all : Text → Text → Text → List (Measurement F) → Action S ℤ)
      (run : Text → Text → Action S (Unit {0})) (ctx : Context) (input : ReportMeasurementsInput F)
      (s : S) (n : ℤ)
      → is_qr input.method ≡ false
      → (report_measurements f devices graphs record_all run ctx input s).0 ≡ ok n
      → Reported f devices ctx input s
  unfolding report_measurements
  report_measurements_ok f devices graphs record_all run ctx input s n camera h =
      elim (Result-cases (ensure_event ctx input.event_id)) [
        | inr (e, u) ↦ ground (arith, h, u)
        | inl (_, u) ↦ elim (Result-cases (make_measurements f input.measurements)) [
          | inr (e, v) ↦ ground (arith, h, u, v)
          | inl (ms, v) ↦
              reported f devices graphs ctx input s ms ((ensure_event_iff ctx input.event_id).0 u) v
                (resolve_tenant_ok devices graphs ctx input ms s camera
                  (elim (Result-cases (resolve_tenant devices graphs ctx input ms s).0) [
                    | inl (r, w) ↦ (r, w)
                    | inr (e, w) ↦ ground (arith, h, u, v, w)
                  ]))
        ]
      ]
