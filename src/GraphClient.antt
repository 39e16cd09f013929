-- ===== src/GraphClient.antt =====
-- internal/infra/connect/graph_client.go: the client of the graph service. The remote calls are
-- parameters; a message has the fields that the client reads, and an anchor that is missing reads as
-- one of empty IDs.
use tolo_observation.Graph.{
  Graph, Point, Route, PointType, point_unspecified, goal, goal_transit_mixed, transit_only,
  other_point, Boundary, BoundaryDirection, boundary_unspecified, entry, exit, entry_and_exit,
  other_direction,
}
use tolo_observation.Cycle.{GraphSupply}
use tolo_observation.Snapshot.{
  ObservationPointMapping, GraphAnchor, camera_method, qr_method, MeasurementMethod,
}
use tolo_observation.Common.{Bool, Option, none, some, List, [], map, if◌then◌else◌}
use tolo_observation.Common.Int.{ℤ, eq_ℤ, pos}
use tolo_observation.Common.Text.{Text}
use tolo_observation.Common.Result.{Result, Action, ok, err, ◌>>=◌, wrap_err, pure}
use tolo_observation.Errors.{Error, joined, sentinel, foreign_event, wrapped}

-- The kernel's enums are int32s, which the client converts by their number.
abbrev pub point_type_of : ℤ → PointType
point_type_of t =
    if eq_ℤ t (pos 0)
    then point_unspecified
    else if eq_ℤ t (pos 1)
    then goal
    else if eq_ℤ t (pos 2)
    then goal_transit_mixed
    else if eq_ℤ t (pos 3)
    then transit_only
    else other_point

abbrev pub boundary_direction_of : ℤ → BoundaryDirection
boundary_direction_of d =
    if eq_ℤ d (pos 0)
    then boundary_unspecified
    else if eq_ℤ d (pos 1)
    then entry
    else if eq_ℤ d (pos 2)
    then exit
    else if eq_ℤ d (pos 3)
    then entry_and_exit
    else other_direction

pub record BoundaryMessage : Type 0 where
  pub direction : ℤ  -- int32
  pub is_active : Bool

pub record PointMessage : Type 0 where
  pub point_id : Text
  pub point_type : ℤ  -- int32
  pub boundary : Option BoundaryMessage

pub record RouteMessage (F : Type 0) : Type 0 where
  pub route_id : Text
  pub from_point_id : Text
  pub to_point_id : Text
  -- `DIRECTION_ATTRIBUTE_ONE_WAY`
  pub is_one_way : Bool
  pub capacity_hint : Option F

pub record RevisionMessage (F : Type 0) : Type 0 where
  pub event_id : Text
  pub revision_id : Text
  pub points : List PointMessage
  pub routes : List (RouteMessage F)

-- A mapping of an observation point, or a QR location.
pub record MappingMessage : Type 0 where
  pub id : Text
  pub anchor : Option GraphAnchor

abbrev pub boundary_of : Option BoundaryMessage → Option Boundary
boundary_of none = none
boundary_of (some b) =
    some (record { direction = boundary_direction_of b.direction; is_active = b.is_active })

abbrev pub point_of : PointMessage → Point
point_of p = record {
  id = p.point_id;
  point_type = point_type_of p.point_type;
  boundary = boundary_of p.boundary;
}

abbrev pub route_of : {F : Type 0} → RouteMessage F → Route F
route_of r = record {
  id = r.route_id;
  from_point_id = r.from_point_id;
  to_point_id = r.to_point_id;
  one_way = r.is_one_way;
  capacity_hint = r.capacity_hint;
}

unfoldable pub graph_of : {F : Type 0} → RevisionMessage F → Graph F
graph_of m = record {
  event_id = m.event_id;
  revision_id = m.revision_id;
  points = map point_of m.points;
  routes = map route_of m.routes;
}

abbrev pub anchor_of : Option GraphAnchor → GraphAnchor
anchor_of none = record { point_id = []; route_id = [] }
anchor_of (some a) = a

abbrev pub mapping_of : MeasurementMethod → MappingMessage → ObservationPointMapping
mapping_of chosen m = record {
  observation_point_id = m.id;
  anchor = anchor_of m.anchor;
  method = chosen;
}

-- The calls of the graph service, and whether an error has the code permission denied.
pub record GraphService (S F : Type 0) : Type 0 where
  pub get_current_revision : Text → Action S (RevisionMessage F)
  pub get_observation_point_mappings : Text → Text → Action S (List MappingMessage)
  pub get_qr_locations : Text → Text → Text → Action S (List MappingMessage)
  pub is_permission_denied : Error → Bool

module _ {S F : Type 0} (service : GraphService S F) where
  unfoldable pub current_graph : Text → Action S (Graph F)
  current_graph event = do
    res ← wrap_err "call GetCurrentRevision" (service.get_current_revision event)
    pure (graph_of res)

  unfoldable pub observation_point_mappings : Text → Text → Action S (List ObservationPointMapping)
  observation_point_mappings event revision = do
    res ←
        wrap_err "call GetObservationPointMappings"
          (service.get_observation_point_mappings event revision)
    pure (map (mapping_of camera_method) res)

  unfoldable pub locations_of : Result (List MappingMessage) → Result (List ObservationPointMapping)
  locations_of (ok res) = ok (map (mapping_of qr_method) res)
  locations_of (err e) =
      if service.is_permission_denied e
      then err (joined "call GetQrLocations" (sentinel foreign_event) e)
      else err (wrapped "call GetQrLocations" e)

  unfoldable pub qr_locations : Text → Text → Text → Action S (List ObservationPointMapping)
  qr_locations tenant event revision s =
      let (r, s') = service.get_qr_locations event revision tenant s in (locations_of r, s')

  abbrev pub graph_supply : GraphSupply S F
  graph_supply = record {
    current_graph = current_graph;
    observation_point_mappings = observation_point_mappings;
    qr_locations = qr_locations;
  }
