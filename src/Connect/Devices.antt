-- ===== src/Connect/Devices.antt =====
-- internal/infra/connect/service.go: EdgeDeviceService and its messages.
pub mod Shown
use tolo_observation.EdgeDevice.{
  EdgeDevice, EdgeDeviceKind, observation_page, camera, other_kind, is_camera, ObservationPoint,
  CameraLink,
}
use tolo_observation.EdgeDeviceService.{
  EdgeDeviceView, RegisterEdgeDeviceInput, RegisterEdgeDeviceOutput,
}
use tolo_observation.Errors.{sentinel, edge_device_kind_invalid}
use tolo_observation.Common.{
  ℕ, zero, suc, ◌≡◌, refl, Bool, true, false, Option, none, some, List, [], ◌∷◌, arith, map,
  if◌then◌else◌,
}
use tolo_observation.Common.Text.{Text}
use tolo_observation.Common.Result.{Result, ok, Action, err, ◌>>=◌, lift, pure}
use tolo_observation.Snapshot.{camera_method, MeasurementMethod}
use tolo_observation.TenantCtx.{Context}
use tolo_observation.GoTime.{Time}
use tolo_observation.Connect.{Response, respond}

-- An int32 in the message; `other_proto_kind` is any value without a name.
pub data ProtoEdgeDeviceKind : Type 0 where
  proto_kind_unspecified proto_observation_page proto_camera other_proto_kind : ProtoEdgeDeviceKind

pub record ProtoObservationPoint : Type 0 where
  pub observation_point_id : Text
  pub name : Text
  pub enabled : Bool
  pub method : MeasurementMethod

pub record ProtoCameraLink : Type 0 where
  pub camera_edge_device_id : Text
  pub observation_point_id : Text

pub record ProtoEdgeDevice : Type 0 where
  pub edge_device_id : Text
  pub event_id : Text
  pub name : Text
  pub observation_points : List ProtoObservationPoint
  pub unregistered : Bool
  pub last_heartbeat_at : Option Time
  pub online : Bool
  pub kind : ProtoEdgeDeviceKind
  pub camera_links : List ProtoCameraLink

unfoldable pub domain_edge_device_kind : ProtoEdgeDeviceKind → Result EdgeDeviceKind
domain_edge_device_kind proto_camera = ok camera
domain_edge_device_kind proto_observation_page = ok observation_page
domain_edge_device_kind proto_kind_unspecified = ok observation_page
domain_edge_device_kind other_proto_kind = err (sentinel edge_device_kind_invalid)

unfoldable pub proto_edge_device_kind : EdgeDeviceKind → ProtoEdgeDeviceKind
proto_edge_device_kind camera = proto_camera
proto_edge_device_kind observation_page = proto_observation_page
proto_edge_device_kind other_kind = proto_kind_unspecified

unfoldable pub new_proto_observation_point : ObservationPoint → ProtoObservationPoint
new_proto_observation_point p = record {
  observation_point_id = p.id;
  name = p.name;
  enabled = p.enabled;
  method = camera_method;
}

abbrev pub new_proto_camera_link : CameraLink → ProtoCameraLink
new_proto_camera_link l = record {
  camera_edge_device_id = l.camera_edge_device_id;
  observation_point_id = l.observation_point_id;
}

unfoldable pub new_proto_edge_device : EdgeDeviceView → ProtoEdgeDevice
new_proto_edge_device v = record {
  edge_device_id = v.device.id;
  event_id = v.device.event_id;
  name = v.device.name;
  observation_points = map new_proto_observation_point v.device.observation_points;
  unregistered = v.device.unregistered;
  last_heartbeat_at = if is_camera v.device.kind then none else v.device.last_heartbeat_at;
  online = if is_camera v.device.kind then false else v.is_online;
  kind = proto_edge_device_kind v.device.kind;
  camera_links = map new_proto_camera_link v.device.camera_links;
}

pub record RegisterEdgeDeviceRequest : Type 0 where
  pub event_id : Text
  pub name : Text
  pub observation_point_names : List Text
  pub kind : ProtoEdgeDeviceKind
  pub linked_observation_point_id : Text

pub record RegisterEdgeDeviceResponse : Type 0 where
  pub device : ProtoEdgeDevice
  pub observation_page_path : Text

-- The use cases of internal/application/edge_device.go, as the service holds them.
pub record EdgeDeviceUseCases (S : Type 0) : Type 0 where
  pub register : Context → RegisterEdgeDeviceInput → Action S RegisterEdgeDeviceOutput
  pub unregister : Context → Text → Text → Action S EdgeDeviceView
  pub list : Context → Text → Bool → Action S (List EdgeDeviceView)
  pub list_points : Context → Text → Text → Action S (List ObservationPoint)
  pub heartbeat : Context → Text → Text → List Text → Action S (Unit {0})
  pub update_point : Context → Text → Text → Text → Bool → Action S ObservationPoint

module _ {S : Type 0} (use_cases : EdgeDeviceUseCases S) (ctx : Context) where
  unfoldable pub handle_register :
      RegisterEdgeDeviceRequest → S → Response RegisterEdgeDeviceResponse × S
  handle_register req = respond (do
    kind ← lift (domain_edge_device_kind req.kind)
    output ← use_cases.register ctx (record {
      event_id = req.event_id;
      name = req.name;
      observation_point_names = req.observation_point_names;
      kind = kind;
      linked_observation_point_id = req.linked_observation_point_id;
    })
    pure (record {
      device = new_proto_edge_device output.device;
      observation_page_path = output.observation_page_path;
    }))

  unfoldable pub handle_unregister : Text → Text → S → Response ProtoEdgeDevice × S
  handle_unregister event device_id =
      respond
        (do view ← use_cases.unregister ctx event device_id; pure (new_proto_edge_device view))

  unfoldable pub handle_list : Text → Bool → S → Response (List ProtoEdgeDevice) × S
  handle_list event include_unregistered = respond (do
    views ← use_cases.list ctx event include_unregistered
    pure (map new_proto_edge_device views))

  unfoldable pub handle_list_points : Text → Text → S → Response (List ProtoObservationPoint) × S
  handle_list_points event device_id = respond (do
    points ← use_cases.list_points ctx event device_id
    pure (map new_proto_observation_point points))

  unfoldable pub handle_heartbeat : Text → Text → List Text → S → Response (Unit {0}) × S
  handle_heartbeat event device_id active = respond (use_cases.heartbeat ctx event device_id active)

  unfoldable pub handle_update_point :
      Text → Text → Text → Bool → S → Response ProtoObservationPoint × S
  handle_update_point event point_id name enabled = respond (do
    point ← use_cases.update_point ctx event point_id name enabled
    pure (new_proto_observation_point point))
