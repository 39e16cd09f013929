-- ===== src/Float.antt =====
-- What the program does with a `float64`. The type and its operations are a parameter: nothing is
-- assumed of rounding.
use tolo_observation.Common.Int.{ℤ, pos, negsuc, ◌-ℤ◌}
use tolo_observation.GoTime.{Duration}
use tolo_observation.Common.{ℕ, suc, Bool, ◌/◌, ◌%◌}

pub record Float (F : Type 0) : Type 0 where
  -- `float64(n)`
  pub of_int : ℤ → F
  -- the constant 1e-9
  pub nano : F
  pub plus : F → F → F
  pub minus : F → F → F
  pub times : F → F → F
  pub over : F → F → F
  pub negate : F → F
  -- `<=` and `<`
  pub le : F → F → Bool
  pub lt : F → F → Bool
  pub is_nan : F → Bool
  pub is_inf : F → Bool

-- `/` and `%` of Go's int64 by a positive number: truncated towards zero.
abbrev pub quot : ℤ → ℕ → ℤ
quot (pos n) m = pos (n / m)
quot (negsuc n) m = pos 0 -ℤ pos (suc n / m)

abbrev pub rem : ℤ → ℕ → ℤ
rem (pos n) m = pos (n % m)
rem (negsuc n) m = pos 0 -ℤ pos (suc n % m)

-- `Duration.Minutes`.
unfoldable pub minutes : {F : Type 0} → Float F → Duration → F
minutes f d =
    f.plus (f.of_int (quot d 60_000_000_000))
      (f.over (f.of_int (rem d 60_000_000_000)) (f.of_int (pos 60_000_000_000)))
