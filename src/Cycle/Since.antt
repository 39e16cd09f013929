-- ===== src/Cycle/Since.antt =====
-- From when on the history of the routes is summarized.
use tolo_observation.Cycle.{history_since, day}
use tolo_observation.Common.Int.{
  wrap_i64-eq, pos, ◌-ℤ◌, IsInt64, ◌+ℤ◌, -ℤ_parts, eq_of_parts, wrap_i64, +ℤ_parts,
}
use tolo_observation.GoTime.{Time}
use tolo_observation.Common.{ℕ, ◌≤◌, ◌*◌, ◌≡◌, arith, refl}

product-IsInt64 : (n : ℕ) → n ≤ 106751 → IsInt64 (pos 0 -ℤ pos (n * day))
product-IsInt64 n h = (
  ground (arith, -ℤ_parts (pos 0) (pos (n * day))),
  ground (arith, -ℤ_parts (pos 0) (pos (n * day))),
)

-- Up to 106751 days of history the product does not wrap around, and the history starts that many
-- days of 24 hours before the end of the window.
pub history_since-eq :
    (t : Time) (n : ℕ) → n ≤ 106751 → history_since t (pos n) ≡ t -ℤ pos (n * day)
unfolding history_since
history_since-eq t n h = eq_of_parts _ _ (
    ground (
      arith,
      wrap_i64-eq (pos 0 -ℤ pos (n * day)) (product-IsInt64 n h),
      -ℤ_parts (pos 0) (pos (n * day)),
      -ℤ_parts t (pos (n * day)),
      +ℤ_parts t (pos 0 -ℤ pos (n * day)),
    ))

-- One day more, and the history starts 292 years after the window.
history_since-wraps : (t : Time) → history_since t (pos 106752) ≡ t +ℤ pos 9_223_371_273_709_551_616
unfolding history_since ◌-ℤ◌ wrap_i64
history_since-wraps t = refl
