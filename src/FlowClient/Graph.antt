-- ===== src/FlowClient/Graph.antt =====
-- internal/infra/connect/flow_client.go: flowGraph.
use tolo_observation.FlowClient.{Ids, add_id, Text}
use tolo_observation.Graph.{
  Graph, Point, Route, PointType, point_unspecified, goal, goal_transit_mixed, transit_only,
  other_point, Boundary, BoundaryDirection, boundary_unspecified, entry, exit, entry_and_exit,
  other_direction,
}
use tolo_observation.Snapshot.{GraphAnchor}
use tolo_observation.Common.{Bool, true, false, Option, none, some, List, [], ◌∷◌, map}
use tolo_observation.Common.Int.{ℤ}

pub data NodeKind : Type 0 where
  kind_unspecified kind_goal kind_goal_transit_mixed kind_transit_only : NodeKind

pub data FlowDirection : Type 0 where
  direction_unspecified direction_entry direction_exit direction_entry_and_exit : FlowDirection

pub record FlowBoundary : Type 0 where
  pub direction : FlowDirection
  pub is_active : Bool

pub record FlowNode : Type 0 where
  pub node_id : Text
  pub kind : NodeKind
  pub time_resolution_s : ℤ  -- int32
  pub boundary : Option FlowBoundary

-- `DirectionConstraint` and `CurrentDirection` of an edge.
pub data EdgeDirection : Type 0 where
  both_ways a_to_b_only : EdgeDirection

pub record FlowEdge (F : Type 0) : Type 0 where
  pub edge_id : Text
  pub endpoint_a : Text
  pub endpoint_b : Text
  pub direction_constraint : EdgeDirection
  pub current_direction : EdgeDirection
  pub time_resolution_s : ℤ  -- int32
  pub capacity_hint : Option F

unfoldable pub flow_node_kind : PointType → NodeKind
flow_node_kind goal = kind_goal
flow_node_kind goal_transit_mixed = kind_goal_transit_mixed
flow_node_kind transit_only = kind_transit_only
flow_node_kind point_unspecified = kind_unspecified
flow_node_kind other_point = kind_unspecified

unfoldable pub flow_boundary_direction : BoundaryDirection → FlowDirection
flow_boundary_direction entry = direction_entry
flow_boundary_direction exit = direction_exit
flow_boundary_direction entry_and_exit = direction_entry_and_exit
flow_boundary_direction boundary_unspecified = direction_unspecified
flow_boundary_direction other_direction = direction_unspecified

unfoldable pub flow_boundary : Option Boundary → Option FlowBoundary
flow_boundary none = none
flow_boundary (some b) =
    some (record { direction = flow_boundary_direction b.direction; is_active = b.is_active })

abbrev pub edge_direction : Bool → EdgeDirection
edge_direction true = a_to_b_only
edge_direction false = both_ways

module _ (resolution : GraphAnchor → ℤ) where
  abbrev pub flow_node : Point → FlowNode
  flow_node p = record {
    node_id = p.id;
    kind = flow_node_kind p.point_type;
    time_resolution_s = resolution (record { point_id = p.id; route_id = [] });
    boundary = flow_boundary p.boundary;
  }

  abbrev pub flow_edge : {F : Type 0} → Route F → FlowEdge F
  flow_edge r = record {
    edge_id = r.id;
    endpoint_a = r.from_point_id;
    endpoint_b = r.to_point_id;
    direction_constraint = edge_direction r.one_way;
    current_direction = edge_direction r.one_way;
    time_resolution_s = resolution (record { point_id = []; route_id = r.id });
    capacity_hint = r.capacity_hint;
  }

-- The IDs that the loops over the points and the routes collect.
unfoldable pub node_ids : List Point → Ids → Ids
node_ids [] ids = ids
node_ids (p ∷ points) ids = node_ids points (add_id p.id ids)

unfoldable pub edge_ids : {F : Type 0} → List (Route F) → Ids → Ids
edge_ids [] ids = ids
edge_ids (r ∷ routes) ids = edge_ids routes (add_id r.id ids)

-- The nodes, the edges and the IDs of both.
pub record FlowGraph (F : Type 0) : Type 0 where
  pub nodes : List FlowNode
  pub edges : List (FlowEdge F)
  pub node_ids : Ids
  pub edge_ids : Ids

unfoldable pub flow_graph : {F : Type 0} → Graph F → (GraphAnchor → ℤ) → FlowGraph F
flow_graph g resolution = record {
  nodes = map (flow_node resolution) g.points;
  edges = map (flow_edge resolution) g.routes;
  node_ids = node_ids g.points [];
  edge_ids = edge_ids g.routes [];
}
