-- ===== src/Db/Holds.antt =====
-- internal/infra/db/heartbeat_loss_hold.go over the tables heartbeat_loss_holds (migration
-- 000004) and edge_devices. How the driver rounds a timestamp, and when
-- it fails, are parameters.
pub mod Laws
pub mod Evaluate
pub mod Faulty
use tolo_observation.Hold.{HeartbeatLossCount}
use tolo_observation.Holds.{HeartbeatLossHoldRepository}
use tolo_observation.EdgeDevice.{EdgeDevice, is_page}
use tolo_observation.GoTime.{Time, before}
use tolo_observation.Common.{
  ℕ, zero, suc, ◌≡◌, refl, Bool, true, false, Option, none, some, List, [], ◌∷◌, arith,
  if◌then◌else◌, not, ◌&&◌, is_some, ◌==◌, ◌++◌,
}
use tolo_observation.Common.Result.{Action, Result, ok, err}
use tolo_observation.Errors.{Error, wrapped}
use Prim.Native.String.{String}
use tolo_observation.Common.Int.{max_ℤ, eq_ℤ}

pub record HoldRow : Type 0 where
  pub started_at : Time
  pub ended_at : Option Time
  pub device_count : ℕ

pub record Tables : Type 0 where
  pub heartbeat_loss_holds : List HoldRow
  pub edge_devices : List EdgeDevice

-- `SELECT started_at … WHERE ended_at IS NULL`: the first row.
unfoldable pub open_row : List HoldRow → Option Time
open_row [] = none
open_row (r ∷ rows) = if is_some r.ended_at then open_row rows else some r.started_at

-- `INSERT … ON CONFLICT DO NOTHING`: the unique index admits one row that has not ended.
unfoldable pub insert_row : Time → ℕ → List HoldRow → List HoldRow × Bool
insert_row at lost rows =
    if is_some (open_row rows)
    then (rows, false)
    else (rows ++ (record { started_at = at; ended_at = none; device_count = lost } ∷ []), true)

-- `UPDATE … SET ended_at = GREATEST($2, started_at) WHERE ended_at IS NULL AND started_at = $1`,
-- with the number of rows.
abbrev pub is_target : Time → HoldRow → Bool
is_target at r = not (is_some r.ended_at) && eq_ℤ r.started_at at

unfoldable pub close_rows : Time → Time → List HoldRow → List HoldRow × ℕ
close_rows at now [] = ([], 0)
close_rows at now (r ∷ rows) =
    let (rest, n) = close_rows at now rows in
    if is_target at r
    then (record r { ended_at = some (max_ℤ now r.started_at) } ∷ rest, suc n)
    else (r ∷ rest, n)

-- A registered observation page that was heard since.
abbrev pub is_recent : Time → EdgeDevice → Bool
is_recent since d =
    is_page d.kind
    && not d.unregistered
    && elim d.last_heartbeat_at [ none ↦ false | some at ↦ not (before at since) ]

abbrev pub is_lost : Time → EdgeDevice → Bool
is_lost limit d = elim d.last_heartbeat_at [ none ↦ false | some at ↦ before at limit ]

unfoldable pub count_rows : Time → Time → List EdgeDevice → HeartbeatLossCount
count_rows since limit [] = record { recent = 0; lost = 0 }
count_rows since limit (d ∷ ds) =
    let c = count_rows since limit ds in
    if is_recent since d
    then record { recent = suc c.recent; lost = if is_lost limit d then suc c.lost else c.lost }
    else c

-- What the driver may refuse, and the two counts of affected rows.
pub data Query : Type 0 where
  counting finding inserting counting_inserted ending counting_ended : Query

-- The error of the driver in a query, by the tables that it finds.
abbrev pub Faults : Type 0
Faults = Query → Tables → Option Error

-- A statement that the driver refuses does nothing.
abbrev pub attempt : {A : Type 0} → Option Error → String → Action Tables A → Action Tables A
attempt none context m t = m t
attempt (some e) context m t = (err (wrapped context e), t)

-- `affectedOne`.
abbrev pub affected_one : Option Error → ℕ → Result Bool
affected_one none n = ok (n == 1)
affected_one (some e) n = err (wrapped "count affected heartbeat loss holds" e)

module _ (stored : Time → Time) (faults : Faults) where
  unfoldable pub count_holds : Time → Time → Action Tables HeartbeatLossCount
  count_holds since limit t =
      attempt (faults counting t) "count edge devices by heartbeat"
        (λ u. (ok (count_rows (stored since) (stored limit) u.edge_devices), u)) t

  unfoldable pub find_open_hold : Action Tables (Option Time)
  find_open_hold t =
      attempt (faults finding t) "select open heartbeat loss hold"
        (λ u. (ok (open_row u.heartbeat_loss_holds), u)) t

  unfoldable pub start_hold : Time → ℕ → Action Tables Bool
  start_hold at lost t =
      attempt (faults inserting t) "insert heartbeat loss hold"
        (λ u.
          let (rows, done) = insert_row (stored at) lost u.heartbeat_loss_holds in
          let u' = record u { heartbeat_loss_holds = rows } in
          (affected_one (faults counting_inserted u') (if done then 1 else 0), u'))
        t

  unfoldable pub end_hold : Time → Time → Action Tables Bool
  end_hold at now t =
      attempt (faults ending t) "end heartbeat loss hold"
        (λ u.
          let (rows, n) = close_rows (stored at) (stored now) u.heartbeat_loss_holds in
          let u' = record u { heartbeat_loss_holds = rows } in
          (affected_one (faults counting_ended u') n, u'))
        t

  abbrev pub postgres_holds : HeartbeatLossHoldRepository Tables
  postgres_holds = record {
    count_across_tenants = count_holds;
    find_open = find_open_hold;
    start = start_hold;
    end_at = end_hold;
  }
