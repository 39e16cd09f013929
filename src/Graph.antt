-- ===== src/Graph.antt =====
-- internal/domain/snapshot.go: the graph of an event's venue.
use tolo_observation.Common.{Option, Bool, List}
use tolo_observation.Common.Text.{Text}

-- `PointType` and `BoundaryDirection` are ints; `other_point` and `other_direction` are any values
-- without a name.
pub data PointType : Type 0 where
  point_unspecified goal goal_transit_mixed transit_only other_point : PointType

pub data BoundaryDirection : Type 0 where
  boundary_unspecified entry exit entry_and_exit other_direction : BoundaryDirection

pub record Boundary : Type 0 where
  pub direction : BoundaryDirection
  pub is_active : Bool

pub record Point : Type 0 where
  pub id : Text
  pub point_type : PointType
  pub boundary : Option Boundary

pub record Route (F : Type 0) : Type 0 where
  pub id : Text
  pub from_point_id : Text
  pub to_point_id : Text
  pub one_way : Bool
  pub capacity_hint : Option F

pub record Graph (F : Type 0) : Type 0 where
  pub event_id : Text
  pub revision_id : Text
  pub points : List Point
  pub routes : List (Route F)
