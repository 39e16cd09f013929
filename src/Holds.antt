-- ===== src/Holds.antt =====
-- internal/repository/heartbeat_loss_hold.go, the interface, and
-- internal/application/heartbeat_loss_hold.go, which decides over it. Log lines are left out.
use tolo_observation.Hold.{
  HeartbeatLossCount, HeartbeatLossHold, HeartbeatLossHoldPolicy, decide, recent_since, lost_before,
}
use tolo_observation.GoTime.{Time, zero_time}
use tolo_observation.Common.{ℕ, Bool, true, false, Option, none, if◌then◌else◌, is_some, get_or}
use tolo_observation.Common.Result.{Action, pure, ◌>>=◌, ◌>>◌, wrap_err}
use tolo_observation.Float.{Float}

pub record HeartbeatLossHoldRepository (S : Type 0) : Type 0 where
  pub count_across_tenants : Time → Time → Action S HeartbeatLossCount
  -- the start of the open hold, if there is one
  pub find_open : Action S (Option Time)
  pub start : Time → ℕ → Action S Bool
  pub end_at : Time → Time → Action S Bool

module _ {S F : Type 0} (f : Float F) (holds : HeartbeatLossHoldRepository S)
    (p : HeartbeatLossHoldPolicy F) where
  -- `if end { … }`: what is open afterwards.
  unfoldable pub end_open : Time → Option Time → Bool → Action S (Option Time)
  end_open now opened true = do
    wrap_err "end heartbeat loss hold" (holds.end_at (get_or opened zero_time) now)
    pure none
  end_open now opened false = pure opened

  -- The rest of `Evaluate`: a hold that another process started first counts as well.
  unfoldable pub start_new : Time → Option Time → ℕ → Bool → Action S (Option Time)
  start_new now opened lost false = pure opened
  start_new now opened lost true = do
    wrap_err "start heartbeat loss hold" (holds.start now lost)
    again ← wrap_err "find open heartbeat loss hold" holds.find_open
    pure (if is_some again then again else opened)

  -- `Evaluate` after the first look-up.
  unfoldable pub evaluate_from : Time → Option Time → Action S (HeartbeatLossHold F)
  evaluate_from now opened = do
    count ←
        wrap_err "count heartbeat loss"
          (holds.count_across_tenants (recent_since p now) (lost_before p now))
    let decision = decide f p now opened count
    kept ← end_open now opened decision.0
    started ← start_new now kept count.lost decision.1
    pure (record { policy = p; started_at = started })

  unfoldable pub evaluate : Time → Action S (HeartbeatLossHold F)
  evaluate now = do
    opened ← wrap_err "find open heartbeat loss hold" holds.find_open
    evaluate_from now opened
