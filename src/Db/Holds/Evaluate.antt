-- ===== src/Db/Holds/Evaluate.antt =====
-- `Evaluate` over the table of holds.
use tolo_observation.Db.Holds.{
  HoldRow, Tables, open_row, insert_row, close_rows, count_rows, postgres_holds, Faults,
  count_holds, find_open_hold, start_hold, end_hold, ok, HeartbeatLossCount,
}
use tolo_observation.Db.Holds.Laws.{
  open_count, open_count-zero, open_count-append, open_row-append, close-open_row,
}
use tolo_observation.Hold.{
  HeartbeatLossHold, HeartbeatLossHoldPolicy, decide, recent_since, lost_before, ends,
}
use tolo_observation.Holds.{evaluate, end_open, start_new, evaluate_from}
use tolo_observation.GoTime.{Time, Duration, add}
use tolo_observation.Common.{
  ℕ, ◌≡◌, refl, Bool, true, false, Option, none, some, List, arith, ◌≤◌, Bool-cases, inl, inr,
}
use tolo_observation.Common.Int.{◌<ℤ◌}
use tolo_observation.Float.{Float}
use tolo_observation.Common.Result.{Result, ◌>>=◌, pure}

-- A driver that never fails.
abbrev pub no_faults : Faults
no_faults q t = none

-- A hold that is open has not lasted for the longest duration.
abbrev pub NotExpired : Option Time → Time → Duration → Type 0
NotExpired none now longest = Unit
NotExpired (some at) now longest = now <ℤ add at longest

abbrev pub IsExact : (Time → Time) → Option Time → Type 0
IsExact stored none = Unit
IsExact stored (some at) = stored at ≡ at

-- At most one row of the table is open, the open one starts as given, and the driver stores that
-- instant as it is.
abbrev pub IsOpenIn : (Time → Time) → Option Time → List HoldRow → Type 0
IsOpenIn stored o rows = (open_row rows ≡ o) × (open_count rows ≤ 1) × IsExact stored o

module _ (stored : Time → Time) (idem : (x : Time) → stored (stored x) ≡ stored x) where
  begin :
      (now : Time) (lost : ℕ) (rows : List HoldRow)
      → IsOpenIn stored none rows
      → IsOpenIn stored (some (stored now)) (insert_row (stored now) lost rows).0
  unfolding insert_row
  begin now lost rows h =
      let new : HoldRow = record {
        started_at = stored now;
        ended_at = none;
        device_count = lost;
      } in
      rw h.0 (
        open_row-append rows new h.0 refl,
        omega (arith, open_count-append rows new, (open_count-zero rows).1 h.0),
        idem now,
      )

finish :
    (stored : Time → Time) (at now : Time) (rows : List HoldRow)
    → IsOpenIn stored (some at) rows
    → IsOpenIn stored none (close_rows (stored at) now rows).0
finish stored at now rows h =
    let closed : open_count (close_rows (stored at) now rows).0 ≡ 0 =
      rw h.2 (close-open_row at now rows h.0 h.1) in
    ((open_count-zero _).0 closed, omega arith, tt)

module _ {F : Type 0} (f : Float F) (stored : Time → Time) (p : HeartbeatLossHoldPolicy F) where
  -- What `Evaluate` returns and leaves: the hold that is open in the table afterwards.
  pub record Evaluated (now : Time) (r : Result (HeartbeatLossHold F) × Tables) : Type 0 where
    pub started_at : Option Time
    pub returned : r.0 ≡ ok (record { policy = p; started_at = started_at })
    pub opened : IsOpenIn stored started_at r.1.heartbeat_loss_holds
    pub lasting : NotExpired started_at now p.max_duration

  abbrev Evaluates : Time → Result (HeartbeatLossHold F) × Tables → Type 0
  Evaluates now (r, t) =
      (o : Option Time) × (r ≡ ok (record { policy = p; started_at = o }))
      × IsOpenIn stored o t.heartbeat_loss_holds
      × NotExpired o now p.max_duration

  module _ (idem : (x : Time) → stored (stored x) ≡ stored x) (now : Time)
      (fresh : now <ℤ add (stored now) p.max_duration) where
    abbrev counted : Tables → HeartbeatLossCount
    counted t = count_rows (stored (recent_since p now)) (stored (lost_before p now)) t.edge_devices

    not_over :
        (at : Time) (count : HeartbeatLossCount)
        → ends f p now (some at) count ≡ false
        → now <ℤ add at p.max_duration
    not_over at count h = ground arith

    -- The part after the open hold was looked at and, where it was over, ended.
    start_new-Evaluates :
        (t : Tables) (lost : ℕ) (b : Bool)
        → IsOpenIn stored none t.heartbeat_loss_holds
        → Evaluates now (
            (start_new f (postgres_holds stored no_faults) p now none lost b >>= λ o.
            pure (record { policy = p; started_at = o }))
              t)
    unfolding start_new start_hold find_open_hold
    start_new-Evaluates t lost false h = (none, refl, h, tt)
    start_new-Evaluates t lost true h =
        let opened = begin stored idem now lost t.heartbeat_loss_holds h in
        (some (stored now), rw opened.0, opened, fresh)

    evaluate_from-closed :
        (t : Tables)
        → IsOpenIn stored none t.heartbeat_loss_holds
        → Evaluates now (evaluate_from f (postgres_holds stored no_faults) p now none t)
    unfolding evaluate_from end_open decide count_holds
    evaluate_from-closed t h = start_new-Evaluates t _ _ h

    evaluate_from-open :
        (at : Time) (t : Tables)
        → IsOpenIn stored (some at) t.heartbeat_loss_holds
        → Evaluates now (evaluate_from f (postgres_holds stored no_faults) p now (some at) t)
    unfolding evaluate_from decide end_open end_hold start_new count_holds
    evaluate_from-open at t h = elim (Bool-cases (ends f p now (some at) (counted t))) [
      | inl over ↦ rw over (
          start_new-Evaluates
            (record t {
              heartbeat_loss_holds = (close_rows (stored at) (stored now) t.heartbeat_loss_holds).0;
            })
            (counted t).lost _ (finish stored at (stored now) t.heartbeat_loss_holds h))
      | inr goes_on ↦ rw goes_on (some at, refl, h, not_over at (counted t) goes_on)
    ]

    evaluated : (r : Result (HeartbeatLossHold F) × Tables) → Evaluates now r → Evaluated now r
    evaluated r (o, returned, opened, lasting) = record {
      started_at = o;
      returned = returned;
      opened = opened;
      lasting = lasting;
    }

    -- Without faults.
    pub evaluate-reliable :
        (o : Option Time) (t : Tables)
        → IsOpenIn stored o t.heartbeat_loss_holds
        → Evaluated now (evaluate f (postgres_holds stored no_faults) p now t)
    unfolding evaluate find_open_hold
    evaluate-reliable none t h = rw h.0 (evaluated _ (evaluate_from-closed t h))
    evaluate-reliable (some at) t h = rw h.0 (evaluated _ (evaluate_from-open at t h))
