-- ===== src/Db/Measurements.antt =====
-- internal/infra/db/measurement.go over the table measurements (migrations 000001 and 000006). How
-- the driver rounds a timestamp is a parameter. The warning on a divergent resend is left out, the
-- query that it needs is not.
pub mod Resend
use tolo_observation.Measurement.{Measurement, rate_in, rate_out}
use tolo_observation.Float.{Float}
use Prim.Native.Nat.{Ordering}
use tolo_observation.Db.Transaction.{Session, Driver, execute, run_in_transaction}
use tolo_observation.Errors.{external, postgres, other_state, wrapped}
use tolo_observation.Common.{
  ℕ, zero, suc, ◌≡◌, refl, Bool, true, false, Option, none, some, List, [], ◌∷◌, arith, any,
  if◌then◌else◌, ◌&&◌, ◌++◌, not, map, ◌==◌,
}
use tolo_observation.Common.Text.{Text, text_eq, is_empty}
use tolo_observation.GoTime.{Time, after, before}
use tolo_observation.Common.Int.{ℤ, eq_ℤ, pos, wrap_i32, ◌+ℤ◌}
use tolo_observation.Common.Result.{Action, ok, pure, err, ◌>>=◌}
use tolo_observation.Common.Sort.{sort}

pub record MeasurementRow (F : Type 0) : Type 0 where
  pub tenant_public_id : Text
  pub event_id : Text
  pub edge_device_id : Option Text
  pub observation_point_id : Text
  pub window_start : Time
  pub window_end : Time
  pub count_in : ℤ
  pub count_out : ℤ
  pub rate_in : F
  pub rate_out : F
  pub mean_detected_people : Option F

-- `NULLIF($3, '')`.
abbrev pub null_if_empty : Text → Option Text
null_if_empty id = if is_empty id then none else some id

-- Equality of SQL, which nothing has with NULL.
abbrev pub sql_eq : Option Text → Option Text → Bool
sql_eq (some a) (some b) = text_eq a b
sql_eq (some a) none = false
sql_eq none o = false

module _ {F : Type 0} (f : Float F) (stored : Time → Time) where
  abbrev pub row_of : Text → Text → Text → Measurement F → MeasurementRow F
  row_of tenant event device m = record {
    tenant_public_id = tenant;
    event_id = event;
    edge_device_id = null_if_empty device;
    observation_point_id = m.observation_point_id;
    window_start = stored m.window_start;
    window_end = stored m.window_end;
    count_in = m.count_in;
    count_out = m.count_out;
    rate_in = rate_in f m;
    rate_out = rate_out f m;
    mean_detected_people = m.mean_detected_people;
  }

  -- The CHECK constraints. PostgreSQL sorts NaN above all numbers.
  abbrev pub is_storable : MeasurementRow F → Bool
  is_storable r =
      after r.window_end r.window_start
      && elim r.mean_detected_people [ none ↦ true | some x ↦ not (f.lt x (f.of_int (pos 0))) ]

module _ {F : Type 0} where
  -- The partial unique index, whose rows have a device.
  abbrev pub same_key : MeasurementRow F → MeasurementRow F → Bool
  same_key a b =
      text_eq a.tenant_public_id b.tenant_public_id
      && text_eq a.event_id b.event_id
      && sql_eq a.edge_device_id b.edge_device_id
      && text_eq a.observation_point_id b.observation_point_id
      && eq_ℤ a.window_start b.window_start

  unfoldable pub has_key : MeasurementRow F → List (MeasurementRow F) → Bool
  has_key new rows = any (same_key new) rows

  -- `INSERT … ON CONFLICT DO NOTHING`, with the number of rows.
  unfoldable pub insert_measurement :
      MeasurementRow F → List (MeasurementRow F) → List (MeasurementRow F) × ℕ
  insert_measurement new rows = if has_key new rows then (rows, 0) else (rows ++ (new ∷ []), 1)

module _ {F : Type 0} (f : Float F) (stored : Time → Time) (tenant event device : Text) where
  -- `logDivergentResend`: the accepted row must be there.
  unfoldable pub find_accepted : MeasurementRow F → Action (List (MeasurementRow F)) (Unit {0})
  find_accepted new rows = (
    if has_key new rows
        then ok tt
        else err (wrapped "select accepted measurement" (external "sql: no rows in result set")),
    rows,
  )

  -- One round of the loop, with the new count.
  unfoldable pub record_one : Measurement F → ℤ → Action (List (MeasurementRow F)) ℤ
  record_one m accepted rows =
      let new = row_of f stored tenant event device m in
      let (written, n) = insert_measurement new rows in
      if not (is_storable f stored new)
      then (err (wrapped "insert measurement" (postgres other_state)), rows)
      else if n == 1
      then (ok (wrap_i32 (accepted +ℤ pos 1)), written)
      else (find_accepted new >>= λ _. pure accepted) written

  unfoldable pub record_from : List (Measurement F) → ℤ → Action (List (MeasurementRow F)) ℤ
  record_from [] accepted = pure accepted
  record_from (m ∷ ms) accepted = record_one m accepted >>= λ n. record_from ms n

  unfoldable pub record_all :
      Driver (List (MeasurementRow F))
      → List (Measurement F)
      → Action (Session (List (MeasurementRow F))) ℤ
  record_all driver [] = pure (pos 0)
  record_all driver (m ∷ ms) = run_in_transaction driver (execute (record_from (m ∷ ms) (pos 0)))

-- `ListWindowEndingSince`: `ORDER BY window_end, id`, where the rows come in the order of their ids.
module _ {F : Type 0} where
  abbrev pub measurement_of : MeasurementRow F → Measurement F
  measurement_of r = record {
    observation_point_id = r.observation_point_id;
    window_start = r.window_start;
    window_end = r.window_end;
    count_in = r.count_in;
    count_out = r.count_out;
    mean_detected_people = r.mean_detected_people;
  }

  abbrev pub compare_ends : MeasurementRow F → MeasurementRow F → Ordering
  compare_ends a b =
      if before a.window_end b.window_end
      then Ordering.lt
      else if before b.window_end a.window_end
      then Ordering.gt
      else Ordering.eq

  unfoldable pub select_since : Text → Time → List (MeasurementRow F) → List (MeasurementRow F)
  select_since event since [] = []
  select_since event since (r ∷ rows) =
      let rest = select_since event since rows in
      if text_eq r.event_id event && not (before r.window_end since) then r ∷ rest else rest

  unfoldable pub list_window_ending_since :
      (Time → Time) → Text → Time → Action (List (MeasurementRow F)) (List (Measurement F))
  list_window_ending_since stored event since rows =
      (ok (map measurement_of (sort compare_ends (select_since event (stored since) rows))), rows)
