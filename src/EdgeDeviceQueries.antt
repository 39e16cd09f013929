-- ===== src/EdgeDeviceQueries.antt =====
-- internal/application/edge_device.go: the use cases that evaluate the hold on disconnections.
use tolo_observation.EdgeDeviceService.{
  EdgeDeviceRepository, EdgeDeviceView, view, apply_effective_enabled,
}
use tolo_observation.Common.{Bool, List, [], ◌∷◌, not}
use tolo_observation.Float.{Float}
use tolo_observation.Holds.{HeartbeatLossHoldRepository, evaluate}
use tolo_observation.Hold.{HeartbeatLossHoldPolicy, HeartbeatLossHold, connected}
use tolo_observation.Common.Result.{Action, ◌>>◌, pure, lift, ◌>>=◌, wrap_err, raise_if, or_err}
use tolo_observation.GoTime.{Time, Duration}
use tolo_observation.TenantCtx.{Context, ensure_event}
use tolo_observation.Common.Text.{Text, text_eq}
use tolo_observation.EdgeDevice.{EdgeDevice, ObservationPoint, is_camera, update_observation_point}
use tolo_observation.PublicId.{parse_public_id}
use tolo_observation.Errors.{
  sentinel, foreign_event, edge_device_camera_unsupported, edge_device_unregistered,
  observation_point_not_found,
}
use tolo_observation.EdgeDevice.Update.{find_point}

module _ {S F : Type 0} (f : Float F) (devices : EdgeDeviceRepository S)
    (holds : HeartbeatLossHoldRepository S) (p : HeartbeatLossHoldPolicy F)
    (clock : Action S Time) where
  -- The loop of `ListEdgeDevices`.
  unfoldable pub list_views :
      Duration → HeartbeatLossHold F → Time → List EdgeDevice → Action S (List EdgeDeviceView)
  list_views timeout h now [] = pure []
  list_views timeout h now (d ∷ ds) = do
    v ← view clock timeout d
    vs ← list_views timeout h now ds
    pure (record v { device = apply_effective_enabled v.device (connected h d now) } ∷ vs)

  unfoldable pub list_edge_devices :
      Duration → Context → Text → Bool → Action S (List EdgeDeviceView)
  list_edge_devices timeout ctx event include_unregistered = do
    lift (ensure_event ctx event)
    ds ← wrap_err "list edge devices" (devices.list_by_event event include_unregistered)
    now ← clock
    h ← evaluate f holds p now
    list_views timeout h now ds

  unfoldable pub list_observation_points : Context → Text → Text → Action S (List ObservationPoint)
  list_observation_points ctx event device_id = do
    lift (ensure_event ctx event)
    id ← lift (parse_public_id device_id)
    d ← wrap_err "find edge device" (devices.find_by_id id)
    raise_if (not (text_eq d.event_id event)) (sentinel foreign_event)
    raise_if (is_camera d.kind) (sentinel edge_device_camera_unsupported)
    raise_if d.unregistered (sentinel edge_device_unregistered)
    now ← clock
    h ← evaluate f holds p now
    pure (apply_effective_enabled d (connected h d now)).observation_points

  -- The device is saved with the points as configured, the answer is the point in effect.
  unfoldable pub update_observation_point_config :
      Context → Text → Text → Text → Bool → Action S ObservationPoint
  update_observation_point_config ctx event point_id name enabled = do
    lift (ensure_event ctx event)
    id ← lift (parse_public_id point_id)
    devices.within_transaction (do
      d ←
          wrap_err "find edge device by observation point"
            (devices.find_by_observation_point_id_for_update id)
      raise_if (not (text_eq d.event_id event)) (sentinel foreign_event)
      updated ← lift (update_observation_point d id name enabled)
      wrap_err "save edge device" (devices.save updated.0)
      now ← clock
      h ← evaluate f holds p now
      lift (
          or_err
            (find_point id
              (apply_effective_enabled updated.0 (connected h updated.0 now)).observation_points)
            (sentinel observation_point_not_found)))
