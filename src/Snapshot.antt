-- ===== src/Snapshot.antt =====
-- internal/domain/snapshot.go: anchors of the graph, the readings of the observation points, and the
-- scores that a snapshot composes of them.
pub mod Read
pub mod Compose
pub mod Build
pub mod Account
pub mod Ignore
pub mod Total
pub mod Flow
use Prim.Native.Nat.{Ordering}
use tolo_observation.EdgeDevice.{ObservationPointId}
use tolo_observation.Float.{Float, minutes}
use tolo_observation.GoTime.{Time, Duration, after, before, sub, minute}
use tolo_observation.Measurement.{Measurement, rate_in, rate_out}
use tolo_observation.Hold.{ObservationPointState, active, offline, disabled}
use tolo_observation.Common.{
  ℕ, zero, suc, ◌≡◌, refl, Bool, true, false, Option, none, some, List, [], ◌∷◌, arith, ◌&&◌, ◌*◌,
  ◌/◌,
}
use tolo_observation.Common.Text.{Text, text_eq}
use tolo_observation.Common.Int.{pos, ℤ}
use tolo_observation.Common.Sort.{text_compare}

pub record GraphAnchor : Type 0 where
  pub point_id : Text
  pub route_id : Text

abbrev pub anchor_eq : GraphAnchor → GraphAnchor → Bool
anchor_eq a b = text_eq a.point_id b.point_id && text_eq a.route_id b.route_id

-- `cmp.Or` of the two comparisons.
unfoldable pub compare_anchors : GraphAnchor → GraphAnchor → Ordering
compare_anchors a b = elim (text_compare a.route_id b.route_id) [
  | Ordering.eq ↦ text_compare a.point_id b.point_id
  | Ordering.lt ↦ Ordering.lt
  | Ordering.gt ↦ Ordering.gt
]

-- An `int`; the service makes only these two.
pub data MeasurementMethod : Type 0 where
  camera_method qr_method : MeasurementMethod

abbrev pub is_qr : MeasurementMethod → Bool
is_qr qr_method = true
is_qr camera_method = false

pub record ObservationPointMapping : Type 0 where
  pub observation_point_id : ObservationPointId
  pub anchor : GraphAnchor
  pub method : MeasurementMethod

abbrev pub max_hold : Duration
max_hold = pos (15 * 60 * 1_000_000_000)

abbrev pub occupancy_trend_span : Duration
occupancy_trend_span = pos (5 * 60 * 1_000_000_000)

-- `OccupancyTrendSpan/2`.
abbrev pub half_trend_span : Duration
half_trend_span = pos (5 * 60 * 1_000_000_000 / 2)

pub record PeopleSample (F : Type 0) : Type 0 where
  pub at : Time
  pub people : F

pub record Reading (F : Type 0) : Type 0 where
  pub latest : Measurement F
  pub detected : List F
  pub trend : List (PeopleSample F)
  pub count_in : ℤ  -- int64

pub record CameraScore (F : Type 0) : Type 0 where
  pub score_in : F
  pub score_out : F
  pub detected : F
  pub trend : Option F

pub record AnchorScore (F : Type 0) : Type 0 where
  pub fresh : List (CameraScore F)
  pub held : List (CameraScore F)
  pub cameras : ℕ
  pub qr_rate_in : F
  pub sensors : List ObservationPointId
  pub qr : Bool
  pub resolution : Duration

pub data Confidence : Type 0 where
  confidence_ok confidence_hold confidence_invalid : Confidence

pub record ComposedScore (F : Type 0) : Type 0 where
  pub confidence : Confidence
  pub score_in : F
  pub score_out : F
  pub detected : Option F
  pub occupancy_delta : Option F

pub record PointScore (F : Type 0) : Type 0 where
  pub point_id : Text
  pub people_score : Option F
  pub occupancy_delta : Option F
  pub exhaustive : Bool

pub record RouteScore (F : Type 0) : Type 0 where
  pub route_id : Text
  pub forward : F
  pub backward : F
  pub scalar_flow : Option F
  pub stagnation_score : Option F
  pub exhaustive : Bool
  pub same_sensor_flow : Bool

pub record SensorSet : Type 0 where
  pub anchor : GraphAnchor
  pub observation_point_ids : List ObservationPointId
  pub changed_at : Time

pub record Snapshot (F : Type 0) : Type 0 where
  pub id : Text
  pub event_id : Text
  pub window_start : Time
  pub window_end : Time
  pub point_scores : List (PointScore F)
  pub route_scores : List (RouteScore F)
  pub missing_point_ids : List Text
  pub missing_route_ids : List Text
  pub resolutions : List (GraphAnchor × Duration)

pub record Gaps (F : Type 0) : Type 0 where
  pub held_point_scores : List (PointScore F)
  pub held_route_scores : List (RouteScore F)
  pub invalid_point_ids : List Text
  pub invalid_route_ids : List Text

abbrev pub States : Type 0
States = List (ObservationPointId × ObservationPointState)
