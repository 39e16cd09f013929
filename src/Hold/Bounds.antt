-- ===== src/Hold/Bounds.antt =====
-- How long a hold and a silent device's connection may last, and which state each point gets.
use tolo_observation.Hold.{
  HeartbeatLossHold, HeartbeatLossHoldPolicy, connected, is_held, recent_since, pos, ◌-ℤ◌,
  EdgeDevice, online,
}
use tolo_observation.EdgeDevice.Beat.{HeardWithin, online_iff}
use tolo_observation.GoTime.{Time, Duration, before, add}
use tolo_observation.Common.{
  ◌≡◌, true, false, Option, none, some, arith, ◌^◌, &&-eq-true, not, if-eq-true, inl, inr,
  if-false-eq-true,
}
use tolo_observation.Common.Int.{◌≤ℤ◌, wrap_i64-eq, ◌+ℤ◌, int_laws, not-ltb_ℤ→le, ltb_ℤ→lt}

-- Durations for which doubling stays an int64.
pub record IsPolicy {F : Type 0} (p : HeartbeatLossHoldPolicy F) : Type 0 where
  pub timeout_nonneg : pos 0 ≤ℤ p.heartbeat_timeout
  pub timeout_small : p.heartbeat_timeout ≤ℤ pos (2 ^ 61)
  pub duration_nonneg : pos 0 ≤ℤ p.max_duration

HeardWithin-mono :
    (heard : Option Time) (now : Time) (a b : Duration)
    → a ≤ℤ b
    → HeardWithin heard now a
    → HeardWithin heard now b
HeardWithin-mono none now a b le h = h
HeardWithin-mono (some at) now a b le h = omega arith

module _ {F : Type 0} where
  recent_since-exact :
      (p : HeartbeatLossHoldPolicy F) (now : Time)
      → IsPolicy p
      → recent_since p now ≡ now -ℤ p.heartbeat_timeout -ℤ p.heartbeat_timeout
  unfolding recent_since
  recent_since-exact p now v =
      rw (wrap_i64-eq (pos 0 -ℤ p.heartbeat_timeout -ℤ p.heartbeat_timeout) (omega int_laws))
        (omega int_laws)

  held_bound :
      (p : HeartbeatLossHoldPolicy F) (start at now : Time)
      → IsPolicy p
      → is_held p (some start) (some at) now ≡ true
      → now -ℤ at ≤ℤ p.heartbeat_timeout +ℤ p.heartbeat_timeout +ℤ p.max_duration
  held_bound p start at now v h =
      let (late, soon) = &&-eq-true (not (before at (recent_since p start))) _ h in
      let late' : start -ℤ p.heartbeat_timeout -ℤ p.heartbeat_timeout ≤ℤ at =
        rw (recent_since-exact p start v) at (not-ltb_ℤ→le at (recent_since p start) late) in
      omega (int_laws, ltb_ℤ→lt now (add start p.max_duration) soon)

  is_held-HeardWithin :
      (p : HeartbeatLossHoldPolicy F) (start heard : Option Time) (now : Time)
      → IsPolicy p
      → is_held p start heard now ≡ true
      → HeardWithin heard now (p.heartbeat_timeout +ℤ p.heartbeat_timeout +ℤ p.max_duration)
  is_held-HeardWithin p none heard now v h = cc
  is_held-HeardWithin p (some start) none now v h = cc
  is_held-HeardWithin p (some start) (some at) now v h = held_bound p start at now v h

  -- If the policy's durations are not negative and its timeout is at most 2^61 ns, a device counts
  -- as connected only while it is registered and its last heartbeat is at most two timeouts and the
  -- longest hold ago.
  pub connected_bound :
      (h : HeartbeatLossHold F) (d : EdgeDevice) (now : Time)
      → IsPolicy h.policy
      → connected h d now ≡ true
      → (d.unregistered ≡ false)
        × HeardWithin d.last_heartbeat_at now
            (h.policy.heartbeat_timeout +ℤ h.policy.heartbeat_timeout +ℤ h.policy.max_duration)
  unfolding connected
  connected_bound h d now v c = elim (if-eq-true (online d now h.policy.heartbeat_timeout) _ c) [
    | inl on ↦
        let o = (online_iff d now h.policy.heartbeat_timeout (omega arith)).0 on in
        (o.1, HeardWithin-mono d.last_heartbeat_at now _ _ (omega int_laws) o.2)
    | inr (off, held) ↦
        let (here, k) = if-false-eq-true d.unregistered _ held in
        (here, is_held-HeardWithin h.policy h.started_at d.last_heartbeat_at now v k)
  ]

  -- With no open hold a device is connected exactly if it is online.
  pub connected_without_hold :
      (h : HeartbeatLossHold F) (d : EdgeDevice) (now : Time)
      → h.started_at ≡ none
      → connected h d now ≡ online d now h.policy.heartbeat_timeout
  unfolding connected
  connected_without_hold h d now e = ground arith
