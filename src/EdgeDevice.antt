-- ===== src/EdgeDevice.antt =====
-- internal/domain/edge_device.go: edge devices, their observation points and camera links. A method
-- with a pointer receiver returns the new device; on an error the caller's device is unchanged.
use tolo_observation.Common.{
  ℕ, Bool, true, false, ◌||◌, not, Option, none, some, List, [], ◌∷◌, map, any, is_nil,
  if◌then◌else◌,
}
pub mod Create
pub mod Update
pub mod Beat
pub mod Retire
use mathlib.Core.Option
use tolo_observation.Common.Int.{leb_ℤ}
use tolo_observation.Common.Text.{Text, codes, text_eq, is_empty, trim_space}
use tolo_observation.Common.Result.{
  Result, ok, err, Action, ◌>>=◌, ◌>>◌, pure, raise, raise_if, lift,
}
use tolo_observation.Errors.{
  sentinel, tenant_required, event_required, edge_device_name_required, edge_device_unregistered,
  edge_device_kind_invalid, edge_device_camera_unsupported, camera_point_names_not_allowed,
  camera_linked_point_required, page_linked_point_not_allowed, observation_point_name_required,
  observation_point_not_found,
}
use tolo_observation.PublicId.{new_public_id, parse_public_id}
use tolo_observation.GoTime.{Time, Duration, sub}

-- `EdgeDeviceID` and `ObservationPointID` are strings.
abbrev pub EdgeDeviceId : Type 0
EdgeDeviceId = Text

abbrev pub ObservationPointId : Type 0
ObservationPointId = Text

pub record ObservationPoint : Type 0 where
  pub id : ObservationPointId
  pub name : Text
  pub enabled : Bool
  pub last_active_at : Option Time

-- An `int` with two named values; `other_kind` is any other.
pub data EdgeDeviceKind : Type 0 where
  observation_page camera other_kind : EdgeDeviceKind

abbrev pub is_camera : EdgeDeviceKind → Bool
is_camera camera = true
is_camera observation_page = false
is_camera other_kind = false

abbrev pub is_page : EdgeDeviceKind → Bool
is_page observation_page = true
is_page camera = false
is_page other_kind = false

unfoldable pub parse_edge_device_kind : Text → Result EdgeDeviceKind
parse_edge_device_kind value =
    if text_eq value (codes "observation_page")
    then ok observation_page
    else if text_eq value (codes "camera")
    then ok camera
    else err (sentinel edge_device_kind_invalid)

-- `EdgeDeviceKind.String`.
unfoldable pub kind_string : EdgeDeviceKind → Text
kind_string camera = codes "camera"
kind_string observation_page = codes "observation_page"
kind_string other_kind = []

pub record CameraLink : Type 0 where
  pub camera_edge_device_id : EdgeDeviceId
  pub observation_point_id : ObservationPointId

pub record EdgeDevice : Type 0 where
  pub id : EdgeDeviceId
  pub tenant_public_id : Text
  pub event_id : Text
  pub name : Text
  pub unregistered : Bool
  pub last_heartbeat_at : Option Time
  pub kind : EdgeDeviceKind
  pub observation_points : List ObservationPoint
  pub camera_links : List CameraLink

-- The two composite literals of `NewEdgeDeviceWithKind`.
abbrev pub registered_device :
    EdgeDeviceId
    → Text
    → Text
    → Text
    → EdgeDeviceKind
    → List ObservationPoint
    → List CameraLink
    → EdgeDevice
registered_device device_id tenant event name kind points links = record {
  id = device_id;
  tenant_public_id = tenant;
  event_id = event;
  name = name;
  unregistered = false;
  last_heartbeat_at = none;
  kind = kind;
  observation_points = points;
  camera_links = links;
}

module _ {S : Type 0} (read : Action S (List ℕ)) where
  -- The loop over the names of an observation page's points.
  unfoldable pub new_observation_points : List Text → Action S (List ObservationPoint)
  new_observation_points [] = pure []
  new_observation_points (n ∷ names) = do
    raise_if (is_empty (trim_space n)) (sentinel observation_point_name_required)
    point_id ← new_public_id read
    points ← new_observation_points names
    pure (
        record { id = point_id; name = trim_space n; enabled = true; last_active_at = none }
        ∷ points)

  -- The cases of the `switch` on the kind, for trimmed texts.
  unfoldable pub new_device_of_kind :
      EdgeDeviceKind → Text → Text → Text → List Text → Text → Action S EdgeDevice
  new_device_of_kind observation_page tenant event name point_names linked = do
    raise_if (not (is_empty linked)) (sentinel page_linked_point_not_allowed)
    points ← new_observation_points point_names
    device_id ← new_public_id read
    pure (registered_device device_id tenant event name observation_page points [])
  new_device_of_kind camera tenant event name point_names linked = do
    raise_if (not (is_nil point_names)) (sentinel camera_point_names_not_allowed)
    raise_if (is_empty linked) (sentinel camera_linked_point_required)
    linked_point_id ← lift (parse_public_id linked)
    device_id ← new_public_id read
    pure (
        registered_device device_id tenant event name camera [] (
          record { camera_edge_device_id = device_id; observation_point_id = linked_point_id }
          ∷ []))
  new_device_of_kind other_kind tenant event name point_names linked =
      raise (sentinel edge_device_kind_invalid)

  unfoldable pub new_edge_device_with_kind :
      Text → Text → Text → EdgeDeviceKind → List Text → Text → Action S EdgeDevice
  new_edge_device_with_kind tenant event name kind point_names linked = do
    raise_if (is_empty (trim_space tenant)) (sentinel tenant_required)
    raise_if (is_empty (trim_space event)) (sentinel event_required)
    raise_if (is_empty (trim_space name)) (sentinel edge_device_name_required)
    new_device_of_kind kind (trim_space tenant) (trim_space event) (trim_space name) point_names
        (trim_space linked)

  unfoldable pub new_edge_device : Text → Text → Text → List Text → Action S EdgeDevice
  new_edge_device tenant event name point_names =
      new_edge_device_with_kind tenant event name observation_page point_names []

abbrev pub disable : ObservationPoint → ObservationPoint
disable p = record p { enabled = false }

unfoldable pub unregister : EdgeDevice → Result EdgeDevice
unregister d =
    if d.unregistered
    then err (sentinel edge_device_unregistered)
    else if is_camera d.kind
    then ok (record d { unregistered = true; camera_links = [] })
    else ok
        (record d { unregistered = true; observation_points = map disable d.observation_points })

-- The loop of `UpdateObservationPoint`: the first point with the ID is changed and returned.
unfoldable pub update_point :
    ObservationPointId
    → Text
    → Bool
    → List ObservationPoint
    → Option (List ObservationPoint × ObservationPoint)
update_point id name enabled [] = none
update_point id name enabled (p ∷ ps) =
    let here = record p { name = name; enabled = enabled } in
    let rest = update_point id name enabled ps in
    if text_eq p.id id
    then some (here ∷ ps, here)
    else Option.map (λ (r : List ObservationPoint × ObservationPoint). (p ∷ r.0, r.1)) rest

unfoldable pub update_observation_point :
    EdgeDevice → ObservationPointId → Text → Bool → Result (EdgeDevice × ObservationPoint)
update_observation_point d id name enabled =
    if d.unregistered
    then err (sentinel edge_device_unregistered)
    else if is_empty (trim_space name)
    then err (sentinel observation_point_name_required)
    else elim (update_point id (trim_space name) enabled d.observation_points) [
      | some (ps, p) ↦ ok (record d { observation_points = ps }, p)
      | none ↦ err (sentinel observation_point_not_found)
    ]

-- The last test of `Online`, on the time of the last heartbeat.
abbrev pub is_fresh : Option Time → Time → Duration → Bool
is_fresh none now timeout = false
is_fresh (some at) now timeout = leb_ℤ (sub now at) timeout

unfoldable pub online : EdgeDevice → Time → Duration → Bool
online d now timeout =
    if is_camera d.kind || d.unregistered then false else is_fresh d.last_heartbeat_at now timeout

abbrev pub has_point : ObservationPointId → List ObservationPoint → Bool
has_point id = any (λ (p : ObservationPoint). text_eq p.id id)

unfoldable pub has_observation_point : EdgeDevice → ObservationPointId → Bool
has_observation_point d id = has_point id d.observation_points

-- `slices.Contains`.
abbrev pub contains : List Text → Text → Bool
contains ids id = any (λ (v : Text). text_eq id v) ids

abbrev pub mark_active : Time → List ObservationPointId → ObservationPoint → ObservationPoint
mark_active now ids p = if contains ids p.id then record p { last_active_at = some now } else p

unfoldable pub heartbeat : EdgeDevice → Time → List ObservationPointId → Result EdgeDevice
unfolding has_observation_point
heartbeat d now ids =
    if is_camera d.kind
    then err (sentinel edge_device_camera_unsupported)
    else if d.unregistered
    then err (sentinel edge_device_unregistered)
    else if any (λ (id : Text). not (has_observation_point d id)) ids
    then err (sentinel observation_point_not_found)
    else ok (record d {
      last_heartbeat_at = some now;
      observation_points = map (mark_active now ids) d.observation_points;
    })
