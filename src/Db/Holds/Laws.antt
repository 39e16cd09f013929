-- ===== src/Db/Holds/Laws.antt =====
-- The table of holds keeps at most one open row, and what `Evaluate` does to it.
use tolo_observation.Db.Holds.{HoldRow, open_row, close_rows}
use tolo_observation.GoTime.{Time}
use tolo_observation.Common.{
  ℕ, suc, ◌≡◌, refl, none, some, List, [], ◌∷◌, arith, if◌then◌else◌, ◌↔◌, ◌++◌, ◌≤◌, is_some, ◌+◌,
}

unfoldable pub open_count : List HoldRow → ℕ
open_count [] = 0
open_count (r ∷ rows) = if is_some r.ended_at then open_count rows else suc (open_count rows)

pub open_count-zero : (rows : List HoldRow) → (open_count rows ≡ 0) ↔ (open_row rows ≡ none)
unfolding open_count open_row
open_count-zero [] = (λ e. refl, λ e. refl)
open_count-zero (r ∷ rows) = ground (arith, open_count-zero rows)

pub open_count-append :
    (rows : List HoldRow) (r : HoldRow)
    → open_count (rows ++ (r ∷ [])) ≡ open_count rows + (if is_some r.ended_at then 0 else 1)
unfolding open_count
open_count-append [] r = ground arith
open_count-append (q ∷ rows) r = ground (arith, open_count-append rows r)

pub open_row-append :
    (rows : List HoldRow) (r : HoldRow)
    → open_row rows ≡ none
    → r.ended_at ≡ none
    → open_row (rows ++ (r ∷ [])) ≡ some r.started_at
unfolding open_row
open_row-append [] r e n = ground arith
open_row-append (q ∷ rows) r e n = ground (arith, open_row-append rows r)

pub close-open_count :
    (at now : Time) (rows : List HoldRow) → open_count (close_rows at now rows).0 ≤ open_count rows
unfolding open_count close_rows
close-open_count at now [] = omega arith
close-open_count at now (r ∷ rows) = ground (arith, close-open_count at now rows)

pub close-open_row :
    (at now : Time) (rows : List HoldRow)
    → open_row rows ≡ some at
    → open_count rows ≤ 1
    → open_count (close_rows at now rows).0 ≡ 0
unfolding open_count close_rows open_row
close-open_row at now [] e h = cc
close-open_row at now (r ∷ rows) e h =
    ground (arith, close-open_row at now rows, close-open_count at now rows)
