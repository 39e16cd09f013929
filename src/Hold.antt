-- ===== src/Hold.antt =====
-- internal/domain/heartbeat_loss_hold.go: when many devices fall silent at once, their disconnection
-- is held back. The threshold is a float64.
pub mod Bounds
pub mod States
use tolo_observation.Common.Int.{ℤ, pos, ◌-ℤ◌, wrap_i64, ltb_ℤ, leb_ℤ}
use tolo_observation.GoTime.{Time, Duration, add, before}
use tolo_observation.Float.{Float}
use tolo_observation.EdgeDevice.{EdgeDevice, ObservationPoint, ObservationPointId, online}
use tolo_observation.Common.Map.{lookup, insert}
use tolo_observation.Common.{
  ℕ, zero, suc, ◌≡◌, refl, Bool, true, false, Option, none, some, List, [], ◌∷◌, arith, ◌&&◌, not,
  if◌then◌else◌, ◌||◌, is_some,
}
use tolo_observation.Common.Text.{text_eq}

-- `int` counts of the database.
pub record HeartbeatLossCount : Type 0 where
  pub recent : ℕ
  pub lost : ℕ

pub record HeartbeatLossHoldPolicy (F : Type 0) : Type 0 where
  pub heartbeat_timeout : Duration
  pub threshold : F
  pub min_devices : ℤ
  pub max_duration : Duration

pub record HeartbeatLossHold (F : Type 0) : Type 0 where
  pub policy : HeartbeatLossHoldPolicy F
  pub started_at : Option Time

pub data ObservationPointState : Type 0 where
  active offline disabled : ObservationPointState

module _ {F : Type 0} (f : Float F) (p : HeartbeatLossHoldPolicy F) where
  -- `enough` and `suspected` of `Decide`.
  unfoldable pub is_enough : HeartbeatLossCount → Bool
  is_enough count = leb_ℤ p.min_devices (pos count.recent)

  unfoldable pub is_suspected : HeartbeatLossCount → Bool
  unfolding is_enough
  is_suspected count =
      is_enough count
      && f.le (f.times p.threshold (f.of_int (pos count.recent))) (f.of_int (pos count.lost))

  abbrev pub ends : Time → Option Time → HeartbeatLossCount → Bool
  ends now none count = false
  ends now (some at) count =
      not (before now (add at p.max_duration)) || (is_enough count && not (is_suspected count))

  -- Whether the open hold ends, and whether a hold starts.
  unfoldable pub decide : Time → Option Time → HeartbeatLossCount → Bool × Bool
  decide now open_since count =
      let end_hold = ends now open_since count in
      (end_hold, (not (is_some open_since) || end_hold) && is_suspected count)

module _ {F : Type 0} where
  -- `now.Add(-2 * p.HeartbeatTimeout)`: the product of int64 wraps around.
  unfoldable pub recent_since : HeartbeatLossHoldPolicy F → Time → Time
  recent_since p now = add now (wrap_i64 (pos 0 -ℤ p.heartbeat_timeout -ℤ p.heartbeat_timeout))

  unfoldable pub lost_before : HeartbeatLossHoldPolicy F → Time → Time
  lost_before p now = add now (wrap_i64 (pos 0 -ℤ p.heartbeat_timeout))

  -- The end of `Connected`, on the start of the hold and the device's last heartbeat.
  abbrev pub is_held : HeartbeatLossHoldPolicy F → Option Time → Option Time → Time → Bool
  is_held p none heard now = false
  is_held p (some start) none now = false
  is_held p (some start) (some at) now =
      not (before at (recent_since p start)) && before now (add start p.max_duration)

  unfoldable pub connected : HeartbeatLossHold F → EdgeDevice → Time → Bool
  connected h d now =
      if online d now h.policy.heartbeat_timeout
      then true
      else if d.unregistered
      then false
      else is_held h.policy h.started_at d.last_heartbeat_at now

-- The `switch` of `ObservationPointStates`.
abbrev pub point_state : EdgeDevice → Bool → ObservationPoint → ObservationPointState
point_state d is_connected p =
    if d.unregistered || not p.enabled
    then disabled
    else if not is_connected
    then offline
    else active

abbrev pub States : Type 0
States = List (ObservationPointId × ObservationPointState)

unfoldable pub point_states : EdgeDevice → Bool → List ObservationPoint → States → States
point_states d is_connected [] m = m
point_states d is_connected (p ∷ ps) m =
    point_states d is_connected ps (insert text_eq p.id (point_state d is_connected p) m)

module _ {F : Type 0} where
  unfoldable pub device_states : List EdgeDevice → Time → HeartbeatLossHold F → States → States
  device_states [] now h m = m
  device_states (d ∷ ds) now h m =
      device_states ds now h (point_states d (connected h d now) d.observation_points m)

  unfoldable pub observation_point_states : List EdgeDevice → Time → HeartbeatLossHold F → States
  observation_point_states devices now h = device_states devices now h []
