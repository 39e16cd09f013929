-- ===== src/GoTime.antt =====
-- Go's `time.Time` and `time.Duration`: an instant is its number of nanoseconds after the zero time
-- (January 1 of year 1, UTC), a duration an int64 number of nanoseconds. Monotonic clock readings
-- are left out, and instants are not bounded.
use tolo_observation.Common.{◌*◌, Bool, ◌==◌, ◌&&◌}
use tolo_observation.Common.Int.{ℤ, pos, ◌+ℤ◌, ◌-ℤ◌, ltb_ℤ, sat_i64, pos_part, neg_part}

abbrev pub Time : Type 0
Time = ℤ

abbrev pub Duration : Type 0
Duration = ℤ

-- `time.Time{}`.
abbrev pub zero_time : Time
zero_time = pos 0

abbrev pub is_zero : Time → Bool
is_zero t = pos_part t == 0 && neg_part t == 0

abbrev pub before : Time → Time → Bool
before t u = ltb_ℤ t u

abbrev pub after : Time → Time → Bool
after t u = ltb_ℤ u t

abbrev pub add : Time → Duration → Time
add t d = t +ℤ d

-- `Sub` saturates.
abbrev pub sub : Time → Time → Duration
sub t u = sat_i64 (t -ℤ u)

abbrev pub minute : Duration
minute = pos (60 * 1_000_000_000)
