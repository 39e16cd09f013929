-- ===== src/Db/DeviceTables.antt =====
-- The tables edge_devices, observation_points and camera_links (migrations 000001 and 000009) and the
-- queries of internal/infra/db/edge_device.go. Rows stand in the order of their IDs, which a sequence
-- counts up; a lock is no step, for statements run one after the other.
use tolo_observation.Common.Text.{Text, text_eq, codes}
use tolo_observation.Common.{
  ℕ, ◌==◌, Bool, ◌&&◌, ◌||◌, not, Option, none, some, List, [], ◌∷◌, ◌++◌, map, if◌then◌else◌,
}
use mathlib.Core.Option
use tolo_observation.Common.Result.{Result, Action, ok, err}
use tolo_observation.EdgeDevice.{
  EdgeDevice, EdgeDeviceId, ObservationPoint, ObservationPointId, CameraLink,
  parse_edge_device_kind, observation_page,
}
use tolo_observation.Errors.{sentinel, edge_device_not_found}
use tolo_observation.TenantCtx.{Context, verify_ownership}
use tolo_observation.GoTime.{Time}

pub record EdgeDeviceRow : Type 0 where
  pub id : ℕ
  pub edge_device_id : Text
  pub tenant_public_id : Text
  pub event_id : Text
  pub name : Text
  pub unregistered : Bool
  pub last_heartbeat_at : Option Time
  pub kind : Text

pub record ObservationPointRow : Type 0 where
  pub id : ℕ
  pub observation_point_id : Text
  pub device : ℕ
  pub name : Text
  pub enabled : Bool
  pub last_active_at : Option Time

-- The internal IDs of a camera and of a point.
pub record CameraLinkRow : Type 0 where
  pub camera : ℕ
  pub point : ℕ

pub record DeviceTables : Type 0 where
  pub devices : List EdgeDeviceRow
  pub points : List ObservationPointRow
  pub links : List CameraLinkRow
  pub next_device : ℕ
  pub next_point : ℕ

-- The first row that a condition selects.
abbrev pub find_first : {A : Type 0} → (A → Bool) → List A → Option A
find_first p [] = none
find_first p (a ∷ l) = if p a then some a else find_first p l

-- The rows that a condition selects, in their order.
abbrev pub select : {A : Type 0} → (A → Bool) → List A → List A
select p [] = []
select p (a ∷ l) = let rest = select p l in if p a then a ∷ rest else rest

-- `UPDATE … WHERE`.
abbrev pub update_where : {A : Type 0} → (A → Bool) → (A → A) → List A → List A
update_where p g l = map (λ a. if p a then g a else a) l

abbrev pub is_device : Text → EdgeDeviceRow → Bool
is_device id r = text_eq r.edge_device_id id

abbrev pub is_point : Text → ObservationPointRow → Bool
is_point id r = text_eq r.observation_point_id id

abbrev pub find_device : Text → DeviceTables → Option EdgeDeviceRow
find_device id t = find_first (is_device id) t.devices

abbrev pub find_point_row : Text → DeviceTables → Option ObservationPointRow
find_point_row id t = find_first (is_point id) t.points

-- The links of a camera or of a page: the join of a link with its camera and its point.
abbrev pub joined_link : DeviceTables → CameraLinkRow → Option (EdgeDeviceRow × ObservationPointRow)
joined_link t l =
    Option.bind (find_first (λ (r : EdgeDeviceRow). r.id == l.camera) t.devices)
      (λ (c : EdgeDeviceRow).
        Option.map (λ (p : ObservationPointRow). (c, p))
          (find_first (λ (r : ObservationPointRow). r.id == l.point) t.points))

abbrev pub link_if : Bool → EdgeDeviceRow × ObservationPointRow → List CameraLink
link_if b (c, p) =
    if b
    then record {
      camera_edge_device_id = c.edge_device_id;
      observation_point_id = p.observation_point_id;
    }
      ∷ []
    else []

abbrev pub links_where :
    (CameraLinkRow → EdgeDeviceRow × ObservationPointRow → Bool)
    → DeviceTables
    → List CameraLinkRow
    → List CameraLink
links_where p t [] = []
links_where p t (l ∷ links) =
    let rest = links_where p t links in
    elim (joined_link t l) [ none ↦ rest | some j ↦ link_if (p l j) j ++ rest ]

unfoldable pub camera_links_of : ℕ → DeviceTables → List CameraLink
camera_links_of id t =
    links_where (λ l j. l.camera == id) t t.links
    ++ links_where
        (λ l j. j.1.device == id && text_eq j.0.kind (codes "camera") && not j.0.unregistered) t
        t.links

abbrev pub point_of_row : ObservationPointRow → ObservationPoint
point_of_row r = record {
  id = r.observation_point_id;
  name = r.name;
  enabled = r.enabled;
  last_active_at = r.last_active_at;
}

unfoldable pub observation_points_of : ℕ → DeviceTables → List ObservationPoint
observation_points_of id t =
    map point_of_row (select (λ (r : ObservationPointRow). r.device == id) t.points)

-- `edgeDeviceRow.toDomain`: a kind that is unknown reads as an observation page.
unfoldable pub to_domain : EdgeDeviceRow → List ObservationPoint → List CameraLink → EdgeDevice
to_domain r points links = record {
  id = r.edge_device_id;
  tenant_public_id = r.tenant_public_id;
  event_id = r.event_id;
  name = r.name;
  unregistered = r.unregistered;
  last_heartbeat_at = r.last_heartbeat_at;
  kind = elim (parse_edge_device_kind r.kind) [ ok k ↦ k | err e ↦ observation_page ];
  observation_points = points;
  camera_links = links;
}

unfoldable pub device_of_row : Context → DeviceTables → EdgeDeviceRow → Result EdgeDevice
device_of_row ctx t r = elim (verify_ownership ctx r.tenant_public_id) [
  | err e ↦ err e
  | ok _ ↦ ok (to_domain r (observation_points_of r.id t) (camera_links_of r.id t))
]

abbrev pub found_device : Context → DeviceTables → Option EdgeDeviceRow → Result EdgeDevice
found_device ctx t none = err (sentinel edge_device_not_found)
found_device ctx t (some r) = device_of_row ctx t r

unfoldable pub find_device_by_id : Context → EdgeDeviceId → Action DeviceTables EdgeDevice
find_device_by_id ctx id t = (found_device ctx t (find_device id t), t)

-- The owner of a point, by the join of the two tables.
abbrev pub owner_row : ObservationPointId → DeviceTables → Option EdgeDeviceRow
owner_row id t =
    Option.bind (find_point_row id t)
      (λ (p : ObservationPointRow). find_first (λ (r : EdgeDeviceRow). r.id == p.device) t.devices)

unfoldable pub find_device_by_point : Context → ObservationPointId → Action DeviceTables EdgeDevice
find_device_by_point ctx id t = (found_device ctx t (owner_row id t), t)

unfoldable pub devices_of_rows :
    Context → DeviceTables → List EdgeDeviceRow → Result (List EdgeDevice)
devices_of_rows ctx t [] = ok []
devices_of_rows ctx t (r ∷ rows) =
    let rest = devices_of_rows ctx t rows in
    elim (device_of_row ctx t r) [
      | err e ↦ err e
      | ok d ↦ elim rest [ err e ↦ err e | ok ds ↦ ok (d ∷ ds) ]
    ]

unfoldable pub list_devices : Context → Text → Bool → Action DeviceTables (List EdgeDevice)
list_devices ctx event include_unregistered t = (
  devices_of_rows ctx t (
      select
        (λ (r : EdgeDeviceRow).
          text_eq r.event_id event && (include_unregistered || not r.unregistered))
        t.devices),
  t,
)
