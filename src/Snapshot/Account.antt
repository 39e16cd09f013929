-- ===== src/Snapshot/Account.antt =====
-- Every anchor with an ID is scored, held or invalid, and accounted for once.
use tolo_observation.Snapshot.{GraphAnchor, Snapshot, Float}
use tolo_observation.Snapshot.Build.{Output}
use tolo_observation.Snapshot.Compose.{Anchors}
use tolo_observation.Common.{ℕ, suc, ◌≡◌, [], ◌∷◌, if◌then◌else◌, ◌+◌, length, ◌&&◌}
use tolo_observation.Common.Text.{is_empty, Text}
use mathlib.Core.Option

-- One more, if the anchor has an ID.
abbrev pub and_named : GraphAnchor → ℕ → ℕ
and_named a n = if is_empty a.route_id && is_empty a.point_id then n else suc n

-- How many anchors have an ID.
abbrev pub named_count : {F : Type 0} → Anchors F → ℕ
named_count [] = 0
named_count ((a, s) ∷ anchors) = and_named a (named_count anchors)

-- The books of a snapshot and its gaps over a number of anchors with an ID.
pub record Balances {F : Type 0} (n : ℕ) (o : Output F) : Type 0 where
  pub routes_missing :
      length o.snapshot.missing_route_ids
      ≡ length o.gaps.held_route_scores + length o.gaps.invalid_route_ids
  pub points_missing :
      length o.snapshot.missing_point_ids
      ≡ length o.gaps.held_point_scores + length o.gaps.invalid_point_ids
  pub sensed : length o.sensors ≡ length o.snapshot.route_scores + length o.snapshot.point_scores
  pub complete :
      length o.sensors + length o.snapshot.missing_route_ids + length o.snapshot.missing_point_ids
      ≡ n

module _ {F : Type 0} (f : Float F) where
  -- The number of anchors that are taken, counted the way the loop takes them.
  abbrev count_from : Anchors F → ℕ → ℕ
  count_from [] n = n
  count_from ((a, s) ∷ anchors) n = count_from anchors (and_named a n)
