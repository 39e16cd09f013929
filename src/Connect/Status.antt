-- ===== src/Connect/Status.antt =====
-- internal/infra/connect/service.go: StatusQueryService and the snapshot message, and
-- internal/infra/pubsub/guest_status.go, the message of a guest status. Decoding the stored
-- diagnostics is a parameter.
use tolo_observation.Snapshot.{Snapshot, PointScore, RouteScore}
use tolo_observation.StatusQuery.{EventOverview, Bytes}
use tolo_observation.Db.GuestStatuses.{GuestStatus, CrowdStatus, QueueStatus}
use tolo_observation.Common.{ℕ, Bool, false, Option, none, some, List, map, if◌then◌else◌, ◌++◌}
use mathlib.Core.Option
use tolo_observation.Common.Text.{Text, is_empty}
use tolo_observation.Common.Int.{ℤ, eq_ℤ, pos}
use tolo_observation.Common.Result.{Result, Action, ◌>>=◌, lift, pure}
use tolo_observation.TenantCtx.{Context}
use tolo_observation.GoTime.{Time}
use tolo_observation.Connect.{Response, respond}

pub record ProtoPointScore (F : Type 0) : Type 0 where
  pub point_id : Text
  pub people_score : Option F
  pub occupancy_delta : Option F
  pub exhaustive : Bool

-- The `oneof` of a route's flow.
pub data ProtoFlow (F : Type 0) : Type 0 where
  no_flow : ProtoFlow F
  directional_flow : F → F → ProtoFlow F
  scalar_flow : F → ProtoFlow F

pub record ProtoRouteScore (F : Type 0) : Type 0 where
  pub route_id : Text
  pub flow : ProtoFlow F
  pub stagnation_score : Option F
  pub turn_ratio : Option F
  pub exhaustive : Bool

pub record ProtoSnapshot (F : Type 0) : Type 0 where
  pub snapshot_id : Text
  pub event_id : Text
  pub window_start : Time
  pub window_end : Time
  pub point_scores : List (ProtoPointScore F)
  pub route_scores : List (ProtoRouteScore F)

abbrev pub flow_of : {F : Type 0} → F → F → Option F → ProtoFlow F
flow_of forward backward none = directional_flow forward backward
flow_of forward backward (some x) = scalar_flow x

module _ {F : Type 0} where
  abbrev pub proto_point : PointScore F → ProtoPointScore F
  proto_point s = record {
    point_id = s.point_id;
    people_score = s.people_score;
    occupancy_delta = s.occupancy_delta;
    exhaustive = s.exhaustive;
  }

  abbrev pub missing_point : Text → ProtoPointScore F
  missing_point id = record {
    point_id = id;
    people_score = none;
    occupancy_delta = none;
    exhaustive = false;
  }

  abbrev pub proto_route : RouteScore F → ProtoRouteScore F
  proto_route s = record {
    route_id = s.route_id;
    flow = flow_of s.forward s.backward s.scalar_flow;
    stagnation_score = s.stagnation_score;
    turn_ratio = none;
    exhaustive = s.exhaustive;
  }

  abbrev pub missing_route : Text → ProtoRouteScore F
  missing_route id = record {
    route_id = id;
    flow = no_flow;
    stagnation_score = none;
    turn_ratio = none;
    exhaustive = false;
  }

  unfoldable pub new_proto_snapshot : Snapshot F → ProtoSnapshot F
  new_proto_snapshot s = record {
    snapshot_id = s.id;
    event_id = s.event_id;
    window_start = s.window_start;
    window_end = s.window_end;
    point_scores = map proto_point s.point_scores ++ map missing_point s.missing_point_ids;
    route_scores = map proto_route s.route_scores ++ map missing_route s.missing_route_ids;
  }

-- `EventOverview`, less the fields that are always empty; `D` is what the diagnostics decode to.
pub record ProtoOverview (F D : Type 0) : Type 0 where
  pub snapshot : Option (ProtoSnapshot F)
  pub diagnostics : D

pub data ProtoCrowdLevel : Type 0 where
  crowd_unspecified crowd_low crowd_mid crowd_high : ProtoCrowdLevel

-- The `oneof` of what a crowd status is of.
pub data ProtoTarget : Type 0 where
  of_point of_route : Text → ProtoTarget

pub record ProtoCrowdStatus : Type 0 where
  pub target : ProtoTarget
  pub level : ProtoCrowdLevel
  pub danger : Bool

pub record ProtoGuestStatus (F : Type 0) : Type 0 where
  pub event_id : Text
  pub sequence : ℕ  -- uint64
  pub taken_at : Time
  pub crowd : List ProtoCrowdStatus
  pub queues : List (QueueStatus F)

-- The map `crowdLevels`: a level that it lacks reads as the zero value.
unfoldable pub crowd_level : ℤ → ProtoCrowdLevel
crowd_level l =
    if eq_ℤ l (pos 1)
    then crowd_low
    else if eq_ℤ l (pos 2)
    then crowd_mid
    else if eq_ℤ l (pos 3)
    then crowd_high
    else crowd_unspecified

unfoldable pub crowd_status_proto : CrowdStatus → ProtoCrowdStatus
crowd_status_proto c = record {
  target =
      if is_empty c.anchor.route_id then of_point c.anchor.point_id else of_route c.anchor.route_id;
  level = crowd_level c.level;
  danger = c.danger;
}

-- The fields of a queue's message are those of a `QueueStatus`.
unfoldable pub guest_status_proto : {F : Type 0} → GuestStatus F → ProtoGuestStatus F
guest_status_proto g = record {
  event_id = g.event_id;
  sequence = g.sequence;
  taken_at = g.taken_at;
  crowd = map crowd_status_proto g.crowd;
  queues = g.queues;
}

module _ {S F D : Type 0} where
  unfoldable pub handle_overview :
      (Bytes → Result D)
      → (Context → Text → Action S (EventOverview (Snapshot F)))
      → Context
      → Text
      → S
      → Response (ProtoOverview F D) × S
  handle_overview decode get ctx event = respond (do
    overview ← get ctx event
    diagnostics ← lift (decode overview.diagnostics)
    pure (record {
      snapshot = Option.map new_proto_snapshot overview.snapshot;
      diagnostics = diagnostics;
    }))

module _ {S F : Type 0} where
  unfoldable pub handle_guest_snapshot :
      (Context → Text → Action S (GuestStatus F))
      → Context
      → Text
      → S
      → Response (ProtoGuestStatus F) × S
  handle_guest_snapshot get ctx event =
      respond (do status ← get ctx event; pure (guest_status_proto status))
