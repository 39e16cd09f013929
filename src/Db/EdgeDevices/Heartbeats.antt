-- ===== src/Db/EdgeDevices/Heartbeats.antt =====
-- What saving a heartbeat leaves as it is.
use tolo_observation.Db.EdgeDevices.{
  beat_device, beat_point, beat_points, save_heartbeat_rows, is_point_of, postgres_devices,
}
use tolo_observation.Db.DeviceTables.{
  DeviceTables, EdgeDeviceRow, ObservationPointRow, update_where, find_first, is_device,
}
use tolo_observation.GoTime.{Time}
use tolo_observation.Common.Text.{Text}
use tolo_observation.EdgeDevice.{ObservationPoint, EdgeDevice}
use tolo_observation.Db.Transaction.Atomic.{
  IsSafe, run_in_transaction-IsAtomic, execute-StaysInside,
}
use tolo_observation.Db.Transaction.{Driver, execute}
use tolo_observation.Common.{
  ℕ, ◌≡◌, refl, Bool, Option, none, some, List, [], ◌∷◌, arith, map, ◌∙◌, Option-cases, ◌&&◌, not,
  inl, subst, inr, sym,
}
use tolo_observation.Common.Result.{Result-cases}
use tolo_observation.TenantCtx.{Context}
use mathlib.Core.Option

-- The rows without the times of heartbeats.
abbrev quiet_device : EdgeDeviceRow → EdgeDeviceRow
quiet_device r = record r { last_heartbeat_at = none }

abbrev quiet_point : ObservationPointRow → ObservationPointRow
quiet_point r = record r { last_active_at = none }

-- The tables agree but for the times of heartbeats.
pub record KeepsConfig (t t' : DeviceTables) : Type 0 where
  pub devices : map quiet_device t'.devices ≡ map quiet_device t.devices
  pub points : map quiet_point t'.points ≡ map quiet_point t.points
  pub links : t'.links ≡ t.links

update_where-map :
    {A : Type 0} (quiet : A → A) (p : A → Bool) (g : A → A) (l : List A)
    → ((a : A) → quiet (g a) ≡ quiet a)
    → map quiet (update_where p g l) ≡ map quiet l
update_where-map quiet p g [] h = refl
update_where-map quiet p g (a ∷ l) h = ground (arith, h a, update_where-map quiet p g l h)

module _ (stored : Time → Time) where
  abbrev beaten : EdgeDevice → EdgeDeviceRow → EdgeDeviceRow
  beaten d o = record o { last_heartbeat_at = Option.map stored d.last_heartbeat_at }

  beat_point-quiet :
      (device : ℕ) (id : Text) (at : Option Time) (rows : List ObservationPointRow)
      → map quiet_point (beat_point stored device id at rows) ≡ map quiet_point rows
  beat_point-quiet device id none rows = refl
  beat_point-quiet device id (some at) rows =
      update_where-map quiet_point (is_point_of stored device id) _ rows (λ a. refl)

  beat_points-quiet :
      (device : ℕ) (points : List ObservationPoint) (rows : List ObservationPointRow)
      → map quiet_point (beat_points stored device points rows) ≡ map quiet_point rows
  unfolding beat_points
  beat_points-quiet device [] rows = refl
  beat_points-quiet device (p ∷ points) rows =
      beat_points-quiet device points (beat_point stored device p.id p.last_active_at rows)
      ∙ beat_point-quiet device p.id p.last_active_at rows

  beat_device-KeepsConfig :
      (d : EdgeDevice) (t : DeviceTables) → KeepsConfig t (beat_device stored d t).1
  unfolding beat_device
  beat_device-KeepsConfig d t =
      let is_beaten = λ (r : EdgeDeviceRow). is_device d.id r && not r.unregistered in
      elim (Option-cases (find_first is_beaten t.devices)) [
        | inl u ↦
            let q : t ≡ (beat_device stored d t).1 = ground (arith, u) in
            subst (KeepsConfig t) q (record { devices = refl; points = refl; links = refl })
        | inr (r, u) ↦
            let q : record t { devices = update_where is_beaten (beaten d) t.devices }
                ≡ (beat_device stored d t).1 =
              ground (arith, u) in
            subst (KeepsConfig t) q (record {
              devices = update_where-map quiet_device is_beaten (beaten d) t.devices (λ a. refl);
              points = refl;
              links = refl;
            })
      ]

  save_heartbeat_rows-KeepsConfig :
      (d : EdgeDevice) (t : DeviceTables) → KeepsConfig t (save_heartbeat_rows stored d t).1
  unfolding save_heartbeat_rows
  save_heartbeat_rows-KeepsConfig d t = elim (Result-cases (beat_device stored d t).0) [
    | inr (e, u) ↦
        let q : (beat_device stored d t).1 ≡ (save_heartbeat_rows stored d t).1 =
          ground (arith, u) in
        subst (KeepsConfig t) q (beat_device-KeepsConfig d t)
    | inl (n, u) ↦
        let t' = (beat_device stored d t).1 in
        let keeps = beat_device-KeepsConfig d t in
        let q : record t' { points = beat_points stored n d.observation_points t'.points }
            ≡ (save_heartbeat_rows stored d t).1 =
          ground (arith, u) in
        subst (KeepsConfig t) q (record {
          devices = keeps.devices;
          points = beat_points-quiet n d.observation_points t'.points ∙ keeps.points;
          links = keeps.links;
        })
  ]

  -- If a commit stores the work or fails without a trace: saving a heartbeat ends without an open
  -- transaction, and the tables agree with those before, row by row, but for the times of heartbeats
  -- and of activity: no name, flag, kind, owner or link changes, and no row comes or goes.
  pub save_heartbeat-KeepsConfig :
      (driver : Driver DeviceTables) (ctx : Context) (d : EdgeDevice) (t : DeviceTables)
      → IsSafe driver
      → let (r, s) =
          (postgres_devices stored driver ctx).save_heartbeat d
            (record { committed = t; transaction = none }) in
        (s.transaction ≡ none) × KeepsConfig t s.committed
  unfolding execute
  save_heartbeat-KeepsConfig driver ctx d t safe =
      let m = execute (save_heartbeat_rows stored d) in
      let atomic =
        run_in_transaction-IsAtomic driver m t safe
          (execute-StaysInside (save_heartbeat_rows stored d)) in
      (
        atomic.ended,
        elim atomic.all_or_nothing [
          | inl (_, _, _, u) ↦
              subst (KeepsConfig t) (ground (arith, u)) (save_heartbeat_rows-KeepsConfig d t)
          | inr (_, _, u) ↦
              subst (KeepsConfig t) (sym u) (record { devices = refl; points = refl; links = refl })
        ],
      )
