-- ===== src/Db/EdgeDevices.antt =====
-- What internal/infra/db/edge_device.go writes. The rounding of timestamps is a parameter.
pub mod Heartbeats
pub mod Links
pub mod Replaces
pub mod Store
use tolo_observation.Common.Text.{Text, text_eq, codes}
use tolo_observation.Common.{
  ℕ, ◌+◌, ◌==◌, Bool, true, false, ◌&&◌, ◌||◌, not, Option, none, some, List, [], ◌∷◌, ◌++◌, map,
  any, if◌then◌else◌,
}
use mathlib.Core.Option
use tolo_observation.Common.Result.{Result, Action, ok, err, ◌>>=◌, ◌>>◌, pure, lift, or_err}
use tolo_observation.EdgeDevice.{
  EdgeDevice, EdgeDeviceId, ObservationPoint, ObservationPointId, CameraLink, kind_string,
  parse_edge_device_kind, observation_page, is_camera,
}
use tolo_observation.EdgeDeviceService.{EdgeDeviceRepository}
use tolo_observation.Errors.{
  sentinel, wrapped, postgres, unique_violation, other_state, edge_device_not_found,
  observation_point_not_found, observation_point_already_linked,
}
use tolo_observation.TenantCtx.{Context, verify_ownership}
use tolo_observation.GoTime.{Time}
use tolo_observation.Db.Transaction.{Driver, Session, run_in_transaction, read_snapshot, execute}
use tolo_observation.Db.DeviceTables.{
  DeviceTables, EdgeDeviceRow, ObservationPointRow, CameraLinkRow, find_first, select, update_where,
  is_device, is_point, find_device, find_point_row, find_device_by_id, find_device_by_point,
  list_devices,
}

-- The UNIQUE constraints on the two columns of camera_links (migration 000009).
abbrev pub is_taken : ℕ → ℕ → List CameraLinkRow → Bool
is_taken camera point links =
    any (λ (r : CameraLinkRow). r.camera == camera || r.point == point) links

-- A point's internal ID, or the error of a missing point; a violation of the constraints is the
-- error of a point that is linked.
unfoldable pub insert_link : ℕ → CameraLink → Action DeviceTables (Unit {0})
insert_link camera l t = elim (find_point_row l.observation_point_id t) [
  | none ↦ (err (sentinel observation_point_not_found), t)
  | some p ↦
      if is_taken camera p.id t.links
      then (err (sentinel observation_point_already_linked), t)
      else (ok tt, record t { links = t.links ++ (record { camera = camera; point = p.id } ∷ []) })
]

unfoldable pub insert_camera_links : ℕ → List CameraLink → Action DeviceTables (Unit {0})
insert_camera_links camera [] = pure tt
insert_camera_links camera (l ∷ links) = do insert_link camera l; insert_camera_links camera links

module _ (stored : Time → Time) where
  abbrev pub row_of_device : ℕ → EdgeDevice → EdgeDeviceRow
  row_of_device n d = record {
    id = n;
    edge_device_id = d.id;
    tenant_public_id = d.tenant_public_id;
    event_id = d.event_id;
    name = d.name;
    unregistered = d.unregistered;
    last_heartbeat_at = Option.map stored d.last_heartbeat_at;
    kind = kind_string d.kind;
  }

  -- The unique ID and the CHECK on the kind.
  unfoldable pub insert_device : EdgeDevice → Action DeviceTables ℕ
  insert_device d t =
      if not (
        text_eq (kind_string d.kind) (codes "observation_page")
        || text_eq (kind_string d.kind) (codes "camera"))
      then (err (wrapped "insert edge device" (postgres other_state)), t)
      else if any (is_device d.id) t.devices
      then (err (wrapped "insert edge device" (postgres unique_violation)), t)
      else (
        ok t.next_device,
        record t {
          devices = t.devices ++ (row_of_device t.next_device d ∷ []);
          next_device = t.next_device + 1;
        },
      )

  abbrev pub row_of_point : ℕ → ℕ → ObservationPoint → ObservationPointRow
  row_of_point n device p = record {
    id = n;
    observation_point_id = p.id;
    device = device;
    name = p.name;
    enabled = p.enabled;
    last_active_at = Option.map stored p.last_active_at;
  }

  unfoldable pub insert_point : ℕ → ObservationPoint → Action DeviceTables (Unit {0})
  insert_point device p t =
      if any (is_point p.id) t.points
      then (err (wrapped "insert observation point" (postgres unique_violation)), t)
      else (
        ok tt,
        record t {
          points = t.points ++ (row_of_point t.next_point device p ∷ []);
          next_point = t.next_point + 1;
        },
      )

  unfoldable pub insert_points : ℕ → List ObservationPoint → Action DeviceTables (Unit {0})
  insert_points device [] = pure tt
  insert_points device (p ∷ points) = do insert_point device p; insert_points device points

  -- The function of `Create`.
  unfoldable pub create_rows : EdgeDevice → Action DeviceTables (Unit {0})
  create_rows d = do
    n ← insert_device d
    insert_points n d.observation_points
    insert_camera_links n d.camera_links

  unfoldable pub update_device : EdgeDevice → Action DeviceTables ℕ
  update_device d t = elim (find_device d.id t) [
    | none ↦ (err (sentinel edge_device_not_found), t)
    | some r ↦ (
      ok r.id,
      record t {
        devices =
            update_where (is_device d.id)
              (λ (o : EdgeDeviceRow). record o {
                name = d.name;
                unregistered = d.unregistered;
                last_heartbeat_at = Option.map stored d.last_heartbeat_at;
                kind = kind_string d.kind;
              })
              t.devices;
      },
    )
  ]

  -- The CHECK on the kind comes before a row is found missing only if there is a row.
  unfoldable pub update_checked : EdgeDevice → Action DeviceTables ℕ
  update_checked d t =
      if any (is_device d.id) t.devices
        && not (
            text_eq (kind_string d.kind) (codes "observation_page")
            || text_eq (kind_string d.kind) (codes "camera"))
      then (err (wrapped "update edge device" (postgres other_state)), t)
      else update_device d t

  abbrev pub is_point_of : ℕ → Text → ObservationPointRow → Bool
  is_point_of device id r = text_eq r.observation_point_id id && r.device == device

  unfoldable pub update_points :
      ℕ → List ObservationPoint → List ObservationPointRow → List ObservationPointRow
  update_points device [] rows = rows
  update_points device (p ∷ points) rows = update_points device points (
      update_where (is_point_of device p.id)
        (λ (o : ObservationPointRow). record o {
          name = p.name;
          enabled = p.enabled;
          last_active_at = Option.map stored p.last_active_at;
        })
        rows)

  abbrev pub save_points : ℕ → List ObservationPoint → Action DeviceTables (Unit {0})
  save_points device points t = (ok tt, record t { points = update_points device points t.points })

  abbrev pub delete_links : ℕ → Action DeviceTables (Unit {0})
  delete_links camera t =
      (ok tt, record t { links = select (λ (r : CameraLinkRow). not (r.camera == camera)) t.links })

  -- The function of `Save`.
  unfoldable pub save_rows : EdgeDevice → Action DeviceTables (Unit {0})
  save_rows d = do
    n ← update_checked d
    save_points n d.observation_points
    if is_camera d.kind then (delete_links n >> insert_camera_links n d.camera_links) else pure tt

  unfoldable pub beat_device : EdgeDevice → Action DeviceTables ℕ
  beat_device d t =
      let is_beaten = λ (r : EdgeDeviceRow). is_device d.id r && not r.unregistered in
      elim (find_first is_beaten t.devices) [
        | none ↦ (err (sentinel edge_device_not_found), t)
        | some r ↦ (
          ok r.id,
          record t {
            devices =
                update_where is_beaten
                  (λ (o : EdgeDeviceRow). record o {
                    last_heartbeat_at = Option.map stored d.last_heartbeat_at;
                  })
                  t.devices;
          },
        )
      ]

  -- A point that was never active is passed over.
  abbrev pub beat_point :
      ℕ → Text → Option Time → List ObservationPointRow → List ObservationPointRow
  beat_point device id none rows = rows
  beat_point device id (some at) rows =
      update_where (is_point_of device id)
        (λ (o : ObservationPointRow). record o { last_active_at = some (stored at) }) rows

  unfoldable pub beat_points :
      ℕ → List ObservationPoint → List ObservationPointRow → List ObservationPointRow
  beat_points device [] rows = rows
  beat_points device (p ∷ points) rows =
      beat_points device points (beat_point device p.id p.last_active_at rows)

  abbrev pub save_beats : ℕ → List ObservationPoint → Action DeviceTables (Unit {0})
  save_beats device points t = (ok tt, record t { points = beat_points device points t.points })

  -- The function of `SaveHeartbeat`.
  unfoldable pub save_heartbeat_rows : EdgeDevice → Action DeviceTables (Unit {0})
  save_heartbeat_rows d = do n ← beat_device d; save_beats n d.observation_points

  abbrev pub postgres_devices :
      Driver DeviceTables → Context → EdgeDeviceRepository (Session DeviceTables)
  postgres_devices driver ctx = record {
    within_transaction = λ m. run_in_transaction driver m;
    create = λ d. run_in_transaction driver (execute (create_rows d));
    find_by_id = λ id. read_snapshot driver (execute (find_device_by_id ctx id));
    find_by_id_for_update = λ id. execute (find_device_by_id ctx id);
    find_by_observation_point_id_for_update = λ id. execute (find_device_by_point ctx id);
    list_by_event = λ event b. read_snapshot driver (execute (list_devices ctx event b));
    save = λ d. run_in_transaction driver (execute (save_rows d));
    save_heartbeat = λ d. run_in_transaction driver (execute (save_heartbeat_rows d));
  }
