-- ===== src/FlowClient/Observations.antt =====
-- internal/infra/connect/flow_client.go: flowObservations, appendArcObservations and flowEvents.
pub mod OfGraph
use Prim.Native.Nat.{Ordering}
use tolo_observation.FlowClient.{Ids, has_id, Text}
use tolo_observation.Snapshot.{Snapshot, Gaps, RouteScore, PointScore, SensorSet}
use tolo_observation.Common.{
  ℕ, zero, suc, ◌≡◌, refl, Bool, true, false, Option, none, some, List, [], ◌∷◌, arith, ◌++◌,
  if◌then◌else◌, ◌&&◌, map,
}
use tolo_observation.GoTime.{Time}
use tolo_observation.Float.{Float}
use tolo_observation.Common.Sort.{sort}
use tolo_observation.Common.Int.{pos, ltb_ℤ}
use tolo_observation.Common.Text.{codes}

pub data ConfidenceFlag : Type 0 where
  flag_ok flag_hold flag_invalid : ConfidenceFlag

pub data ArcDirection : Type 0 where
  a_to_b b_to_a : ArcDirection

pub record ArcFlow (F : Type 0) : Type 0 where
  pub edge_id : Text
  pub direction : ArcDirection
  pub flow_rate : F
  pub flag : ConfidenceFlag

pub record ArcStagnation (F : Type 0) : Type 0 where
  pub edge_id : Text
  pub stagnation : F
  pub same_sensor_flow : Bool
  pub flag : ConfidenceFlag

pub record NodeOccupancy (F : Type 0) : Type 0 where
  pub node_id : Text
  pub occupancy : Option F
  pub occupancy_delta : Option F
  pub flag : ConfidenceFlag

pub record Observations (F : Type 0) : Type 0 where
  pub observed_at : Time
  pub snapshot_ref : Text
  pub arc_flows : List (ArcFlow F)
  pub arc_stagnations : List (ArcStagnation F)
  pub node_occupancies : List (NodeOccupancy F)

abbrev pub is_hold : ConfidenceFlag → Bool
is_hold flag_hold = true
is_hold flag_ok = false
is_hold flag_invalid = false

module _ {F : Type 0} where
  abbrev pub stagnations_of : RouteScore F → ConfidenceFlag → Option F → List (ArcStagnation F)
  stagnations_of s flag none = []
  stagnations_of s flag (some x) =
      record {
        edge_id = s.route_id;
        stagnation = x;
        same_sensor_flow = s.same_sensor_flow;
        flag = flag;
      }
      ∷ []

  unfoldable pub append_arc_observations :
      Observations F → RouteScore F → ConfidenceFlag → Observations F
  append_arc_observations o s flag = record o {
    arc_flows =
        o.arc_flows
        ++ (record { edge_id = s.route_id; direction = a_to_b; flow_rate = s.forward; flag = flag }
            ∷ record {
              edge_id = s.route_id;
              direction = b_to_a;
              flow_rate = s.backward;
              flag = flag;
            }
            ∷ []);
    arc_stagnations = o.arc_stagnations ++ stagnations_of s flag s.stagnation_score;
  }

  unfoldable pub add_route : Ids → ConfidenceFlag → Observations F → RouteScore F → Observations F
  add_route edges flag o s =
      if has_id edges s.route_id && s.exhaustive then append_arc_observations o s flag else o

  unfoldable pub add_point : Ids → ConfidenceFlag → Observations F → PointScore F → Observations F
  add_point nodes flag o s =
      if has_id nodes s.point_id && s.exhaustive
      then record o {
        node_occupancies =
            o.node_occupancies
            ++ (record {
              node_id = s.point_id;
              occupancy = s.people_score;
              occupancy_delta = if is_hold flag then none else s.occupancy_delta;
              flag = flag;
            }
                ∷ []);
      }
      else o

  -- A loop that adds to the observations.
  unfoldable pub add_all :
      {A : Type 0}
      → (Observations F → A → Observations F)
      → List A
      → Observations F
      → Observations F
  add_all add [] o = o
  add_all add (a ∷ l) o = add_all add l (add o a)

  abbrev pub invalid_point : Text → PointScore F
  invalid_point id = record {
    point_id = id;
    people_score = none;
    occupancy_delta = none;
    exhaustive = true;
  }

  abbrev pub no_observations : Snapshot F → Observations F
  no_observations snap = record {
    observed_at = snap.window_end;
    snapshot_ref = snap.id;
    arc_flows = [];
    arc_stagnations = [];
    node_occupancies = [];
  }

  module _ (f : Float F) where
    abbrev pub invalid_route : Text → RouteScore F
    invalid_route id = record {
      route_id = id;
      forward = f.of_int (pos 0);
      backward = f.of_int (pos 0);
      scalar_flow = none;
      stagnation_score = none;
      exhaustive = true;
      same_sensor_flow = false;
    }

    unfoldable pub flow_observations : Snapshot F → Gaps F → Ids → Ids → Observations F
    flow_observations snap gaps nodes edges =
        let routes =
          add_all (add_route edges flag_invalid) (map invalid_route gaps.invalid_route_ids) (
            add_all (add_route edges flag_hold) gaps.held_route_scores
              (add_all (add_route edges flag_ok) snap.route_scores (no_observations snap))) in
        add_all (add_point nodes flag_invalid) (map invalid_point gaps.invalid_point_ids) (
          add_all (add_point nodes flag_hold) gaps.held_point_scores
            (add_all (add_point nodes flag_ok) snap.point_scores routes))

pub record FlowEvent : Type 0 where
  pub target_id : Text
  pub occurred_at : Time

abbrev pub compare_times : Time → Time → Ordering
compare_times t u =
    if ltb_ℤ t u then Ordering.lt else if ltb_ℤ u t then Ordering.gt else Ordering.eq

-- What a change of sensors is of, if it is of the graph.
abbrev pub event_target : Ids → Ids → SensorSet → Option Text
event_target nodes edges change =
    if has_id edges change.anchor.route_id
    then some (codes "edge:" ++ change.anchor.route_id)
    else if has_id nodes change.anchor.point_id
    then some (codes "node:" ++ change.anchor.point_id)
    else none

unfoldable pub events_of : Ids → Ids → List SensorSet → List FlowEvent
events_of nodes edges [] = []
events_of nodes edges (c ∷ changes) =
    let rest = events_of nodes edges changes in
    elim (event_target nodes edges c) [
      | none ↦ rest
      | some target ↦ record { target_id = target; occurred_at = c.changed_at } ∷ rest
    ]

unfoldable pub flow_events : List SensorSet → Ids → Ids → List FlowEvent
flow_events changes nodes edges =
    events_of nodes edges
      (sort (λ (a : SensorSet) (b : SensorSet). compare_times a.changed_at b.changed_at) changes)
