-- ===== src/Db/GuestStatuses.antt =====
-- internal/domain/guest_status.go, and internal/infra/db/guest_status.go over the table
-- guest_statuses (migration 000005). encoding/json, the type JSONB and the rounding of timestamps
-- are parameters.
pub mod RoundTrip
use tolo_observation.Snapshot.{GraphAnchor}
use tolo_observation.Errors.{
  Error, sentinel, postgres, other_state, wrapped, guest_status_not_found,
}
use tolo_observation.Common.{
  ℕ, zero, suc, ◌≡◌, refl, Bool, true, false, Option, none, some, List, [], ◌∷◌, arith, ◌+◌,
  if◌then◌else◌, not, ltb, ◌^◌, map,
}
use mathlib.Core.Option
use tolo_observation.Common.Int.{ℤ}
use tolo_observation.Common.Text.{Text, text_eq}
use tolo_observation.Common.Result.{Result, Action, wrap_result, err, ◌>>=◌, ok, lift}
use tolo_observation.GoTime.{Time}

-- `CrowdLevel` is an int with four named values.
abbrev pub CrowdLevel : Type 0
CrowdLevel = ℤ

pub record CrowdStatus : Type 0 where
  pub anchor : GraphAnchor
  pub level : CrowdLevel
  pub danger : Bool

pub record QueueStatus (F : Type 0) : Type 0 where
  pub queue_id : Text
  pub gate_point_ids : List Text
  pub wait_time_minutes : F
  pub turnaround_count : ℤ  -- int32
  pub recommended_gate_point_ids : List Text

pub record GuestStatus (F : Type 0) : Type 0 where
  pub event_id : Text
  pub sequence : ℕ  -- uint64
  pub taken_at : Time
  pub crowd : List CrowdStatus
  pub queues : List (QueueStatus F)

-- `crowdStatusJSON`; `queueStatusJSON` has the fields of a `QueueStatus`.
pub record CrowdStatusJson : Type 0 where
  pub point_id : Text
  pub route_id : Text
  pub level : ℤ
  pub danger : Bool

abbrev pub crowd_json : CrowdStatus → CrowdStatusJson
crowd_json c = record {
  point_id = c.anchor.point_id;
  route_id = c.anchor.route_id;
  level = c.level;
  danger = c.danger;
}

abbrev pub crowd_of_json : CrowdStatusJson → CrowdStatus
crowd_of_json c = record {
  anchor = record { point_id = c.point_id; route_id = c.route_id };
  level = c.level;
  danger = c.danger;
}

-- `json.Marshal` and `json.Unmarshal` of a type, with what the database makes of the bytes.
pub record Codec (A : Type 0) : Type 0 where
  pub marshal : A → Result (List ℕ)
  pub jsonb : List ℕ → List ℕ
  pub unmarshal : List ℕ → Result A

pub record GuestStatusRow : Type 0 where
  pub event_id : Text
  pub tenant_public_id : Text
  pub sequence : ℕ  -- BIGINT
  pub taken_at : Time
  pub crowd : List ℕ
  pub queues : List ℕ

abbrev pub find_row : Text → List GuestStatusRow → Option GuestStatusRow
find_row event [] = none
find_row event (r ∷ rows) = if text_eq r.event_id event then some r else find_row event rows

-- `ON CONFLICT (event_id) DO UPDATE`: the tenant stays, the sequence counts up.
abbrev pub updated_row : GuestStatusRow → GuestStatusRow → GuestStatusRow
updated_row new r = record r {
  sequence = r.sequence + 1;
  taken_at = new.taken_at;
  crowd = new.crowd;
  queues = new.queues;
}

-- The rows with the sequence that is returned; a BIGINT does not count past its end.
abbrev pub upsert : GuestStatusRow → List GuestStatusRow → Option (List GuestStatusRow × ℕ)
upsert new [] = some (new ∷ [], new.sequence)
upsert new (r ∷ rows) =
    let rest = upsert new rows in
    if not (text_eq r.event_id new.event_id)
    then Option.map (λ (w : List GuestStatusRow × ℕ). (r ∷ w.0, w.1)) rest
    else if ltb (r.sequence + 1) (2 ^ 63)
    then some (updated_row new r ∷ rows, r.sequence + 1)
    else none

module _ {F : Type 0} (crowds : Codec (List CrowdStatusJson))
    (queues : Codec (List (QueueStatus F))) (stored : Time → Time) where
  abbrev pub row_of : Text → GuestStatus F → List ℕ → List ℕ → GuestStatusRow
  row_of tenant status crowd queue = record {
    event_id = status.event_id;
    tenant_public_id = tenant;
    sequence = 1;
    taken_at = stored status.taken_at;
    crowd = crowds.jsonb crowd;
    queues = queues.jsonb queue;
  }

  -- The statement, with the answer; the driver may fail.
  unfoldable pub write_status :
      Option Error
      → Text
      → GuestStatus F
      → List ℕ
      → List ℕ
      → Action (List GuestStatusRow) (GuestStatus F)
  write_status (some e) tenant status crowd queue rows =
      (err (wrapped "upsert guest status" e), rows)
  write_status none tenant status crowd queue rows =
      elim (upsert (row_of tenant status crowd queue) rows) [
        | none ↦ (err (wrapped "upsert guest status" (postgres other_state)), rows)
        | some (written, n) ↦ (ok (record status { sequence = n }), written)
      ]

  unfoldable pub save_guest_status :
      Option Error → Text → GuestStatus F → Action (List GuestStatusRow) (GuestStatus F)
  save_guest_status fault tenant status = do
    crowd ←
        lift
          (wrap_result "encode guest crowd status" (crowds.marshal (map crowd_json status.crowd)))
    queue ← lift (wrap_result "encode guest queue status" (queues.marshal status.queues))
    write_status fault tenant status crowd queue

  unfoldable pub status_of_row : GuestStatusRow → Result (GuestStatus F)
  status_of_row r = elim (wrap_result "decode guest crowd status" (crowds.unmarshal r.crowd)) [
    | err e ↦ err e
    | ok crowd ↦ elim (wrap_result "decode guest queue status" (queues.unmarshal r.queues)) [
      | err e ↦ err e
      | ok queue ↦ ok (record {
        event_id = r.event_id;
        sequence = r.sequence;
        taken_at = r.taken_at;
        crowd = map crowd_of_json crowd;
        queues = queue;
      })
    ]
  ]

  unfoldable pub latest_guest_status :
      Option Error → Text → Action (List GuestStatusRow) (GuestStatus F)
  latest_guest_status (some e) event rows = (err (wrapped "select guest status" e), rows)
  latest_guest_status none event rows = elim (find_row event rows) [
    | none ↦ (err (sentinel guest_status_not_found), rows)
    | some r ↦ (status_of_row r, rows)
  ]
