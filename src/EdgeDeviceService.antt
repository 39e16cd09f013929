-- ===== src/EdgeDeviceService.antt =====
-- internal/application/edge_device.go, the use cases of edge devices over the repository interface of
-- internal/repository/edge_device.go. The clock is an action, for two calls may give two times. A
-- closure that sets a variable of the caller returns its value.
pub mod Cascade
pub mod Link
pub mod Unregister
pub mod Register
use tolo_observation.Common.{
  if◌then◌else◌, Option, Bool, List, map, ◌&&◌, any, not, ◌++◌, ◌∷◌, ℕ, [],
}
use tolo_observation.Common.Sort.{sort, compact, text_compare}
use tolo_observation.Common.Text.{Text, codes, text_eq}
use tolo_observation.EdgeDevice.{
  EdgeDevice, ObservationPointId, EdgeDeviceKind, ObservationPoint, CameraLink, is_page,
  EdgeDeviceId, is_camera, online, unregister, heartbeat, new_edge_device_with_kind,
}
use tolo_observation.Common.Result.{
  Action, Result, ok, pure, ◌>>=◌, err, wrap_err, ◌>>◌, lift, raise, or_err, raise_if,
}
use tolo_observation.GoTime.{Time, Duration}
use tolo_observation.TenantCtx.{Context, ensure_event, tenant_public_id_from_context}
use tolo_observation.PublicId.{parse_public_id}
use tolo_observation.Errors.{
  sentinel, foreign_event, external, camera_link_to_camera, edge_device_unregistered,
  edge_device_camera_unsupported, observation_point_already_linked, tenant_missing,
}

pub record EdgeDeviceRepository (S : Type 0) : Type 1 where
  pub within_transaction : {A : Type 0} → Action S A → Action S A
  pub create : EdgeDevice → Action S (Unit {0})
  pub find_by_id : EdgeDeviceId → Action S EdgeDevice
  pub find_by_id_for_update : EdgeDeviceId → Action S EdgeDevice
  pub find_by_observation_point_id_for_update : ObservationPointId → Action S EdgeDevice
  pub list_by_event : Text → Bool → Action S (List EdgeDevice)
  pub save : EdgeDevice → Action S (Unit {0})
  pub save_heartbeat : EdgeDevice → Action S (Unit {0})

pub record RegisterEdgeDeviceInput : Type 0 where
  pub event_id : Text
  pub name : Text
  pub observation_point_names : List Text
  pub kind : EdgeDeviceKind
  pub linked_observation_point_id : Text

pub record EdgeDeviceView : Type 0 where
  pub device : EdgeDevice
  pub is_online : Bool

pub record RegisterEdgeDeviceOutput : Type 0 where
  pub device : EdgeDeviceView
  pub observation_page_path : Text

-- `applyEffectiveEnabled`.
abbrev pub enable_if : Bool → ObservationPoint → ObservationPoint
enable_if is_connected p = record p { enabled = p.enabled && is_connected }

unfoldable pub apply_effective_enabled : EdgeDevice → Bool → EdgeDevice
apply_effective_enabled d is_connected = record d {
  observation_points = map (enable_if is_connected) d.observation_points;
}

-- The loop over the owner's camera links.
abbrev pub is_linked : ObservationPointId → List CameraLink → Bool
is_linked id = any (λ (l : CameraLink). text_eq l.observation_point_id id)

-- The checks of `validateCameraLink` on the owner of the point.
unfoldable pub check_camera_link : Text → ObservationPointId → EdgeDevice → Result (Unit {0})
check_camera_link event id owner =
    if not (text_eq owner.event_id event)
    then err (sentinel foreign_event)
    else if is_camera owner.kind
    then err (sentinel camera_link_to_camera)
    else if owner.unregistered
    then err (sentinel edge_device_unregistered)
    else if is_linked id owner.camera_links
    then err (sentinel observation_point_already_linked)
    else ok tt

abbrev pub observation_page_path : EdgeDevice → Text
observation_page_path d =
    if is_page d.kind then codes "/event/" ++ d.event_id ++ codes "/observation/" ++ d.id else []

-- `slices.Compact(slices.Sort(…))` of the linked cameras.
abbrev pub linked_camera_ids : List CameraLink → List EdgeDeviceId
linked_camera_ids links =
    compact (sort text_compare (map (λ (l : CameraLink). l.camera_edge_device_id) links))

unfoldable pub parse_all : List Text → Result (List ObservationPointId)
parse_all [] = ok []
parse_all (v ∷ values) =
    let rest = parse_all values in
    elim (parse_public_id v) [
      | err e ↦ err e
      | ok id ↦ elim rest [ err e ↦ err e | ok ids ↦ ok (id ∷ ids) ]
    ]

module _ {S : Type 0} (clock : Action S Time) where
  unfoldable pub view : Duration → EdgeDevice → Action S EdgeDeviceView
  view timeout d = do now ← clock; pure (record { device = d; is_online = online d now timeout })

module _ {S : Type 0} (devices : EdgeDeviceRepository S) where
  unfoldable pub validate_camera_link : Text → CameraLink → Action S (Unit {0})
  validate_camera_link event link = do
    owner ←
        wrap_err "find linked observation point"
          (devices.find_by_observation_point_id_for_update link.observation_point_id)
    lift (check_camera_link event link.observation_point_id owner)

  -- `create` of `RegisterEdgeDevice`. Indexing no links panics.
  unfoldable pub create_device : Text → EdgeDevice → Action S (Unit {0})
  create_device event d =
      if is_camera d.kind
      then elim d.camera_links [
        | [] ↦ raise (external "index out of range")
        | (link ∷ _) ↦
            devices.within_transaction
              (do validate_camera_link event link; wrap_err "create edge device" (devices.create d))
      ]
      else wrap_err "create edge device" (devices.create d)

  -- One pass of the loop over the linked cameras: a camera that is gone already is skipped.
  unfoldable pub unregister_camera : EdgeDeviceId → Action S (Unit {0})
  unregister_camera id = do
    camera ← wrap_err "find linked camera" (devices.find_by_id_for_update id)
    if camera.unregistered
        then pure tt
        else do gone ← lift (unregister camera); wrap_err "save linked camera" (devices.save gone)

  unfoldable pub unregister_cameras : List EdgeDeviceId → Action S (Unit {0})
  unregister_cameras [] = pure tt
  unregister_cameras (id ∷ ids) = do unregister_camera id; unregister_cameras ids

  -- `if device.Kind == EdgeDeviceKindObservationPage { … }`.
  unfoldable pub drop_links : EdgeDevice → Action S EdgeDevice
  drop_links d = if not (is_page d.kind) then pure d else do
    unregister_cameras (linked_camera_ids d.camera_links)
    pure (record d { camera_links = [] })

module _ {S : Type 0} (devices : EdgeDeviceRepository S) (clock : Action S Time) where
  unfoldable pub register_edge_device :
      Action S (List ℕ)
      → Duration
      → Context
      → RegisterEdgeDeviceInput
      → Action S RegisterEdgeDeviceOutput
  register_edge_device read timeout ctx input = do
    lift (ensure_event ctx input.event_id)
    tenant ← lift (or_err (tenant_public_id_from_context ctx) (sentinel tenant_missing))
    d ←
        new_edge_device_with_kind read tenant input.event_id input.name input.kind
          input.observation_point_names input.linked_observation_point_id
    create_device devices input.event_id d
    v ← view clock timeout d
    pure (record { device = v; observation_page_path = observation_page_path d })

  -- The function that runs in the transaction.
  unfoldable pub unregister_within : Duration → Text → EdgeDeviceId → Action S EdgeDeviceView
  unregister_within timeout event id = do
    d ← wrap_err "find edge device" (devices.find_by_id_for_update id)
    raise_if (not (text_eq d.event_id event)) (sentinel foreign_event)
    gone ← lift (unregister d)
    dropped ← drop_links devices gone
    wrap_err "save edge device" (devices.save dropped)
    view clock timeout dropped

  unfoldable pub unregister_edge_device : Duration → Context → Text → Text → Action S EdgeDeviceView
  unregister_edge_device timeout ctx event device_id = do
    lift (ensure_event ctx event)
    id ← lift (parse_public_id device_id)
    devices.within_transaction (unregister_within timeout event id)

  -- Whether the device is registered is checked by its own method.
  unfoldable pub heartbeat_edge_device : Context → Text → Text → List Text → Action S (Unit {0})
  heartbeat_edge_device ctx event device_id active = do
    lift (ensure_event ctx event)
    id ← lift (parse_public_id device_id)
    d ← wrap_err "find edge device" (devices.find_by_id id)
    raise_if (not (text_eq d.event_id event)) (sentinel foreign_event)
    raise_if (is_camera d.kind) (sentinel edge_device_camera_unsupported)
    ids ← lift (parse_all active)
    now ← clock
    beaten ← lift (heartbeat d now ids)
    wrap_err "save edge device heartbeat" (devices.save_heartbeat beaten)
