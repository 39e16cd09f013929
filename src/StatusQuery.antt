-- ===== src/StatusQuery.antt =====
-- internal/application/status_query.go: what staff and guests are shown of an event. The types of a
-- guest status and of a stored snapshot are parameters, for the use cases pass them on.
use Prim.Native.String.{String}
use tolo_observation.Common.Result.{
  Result, ok, err, Action, ◌>>=◌, ◌>>◌, lift, wrap_err, pure, Result-cases,
}
use tolo_observation.Errors.{
  Error, wrapped, is, snapshot_not_found, optimization_outcome_missing, Sentinel,
}
use tolo_observation.TenantCtx.{Context, ensure_event}
use tolo_observation.Common.{
  ℕ, ◌≡◌, true, Option, none, some, List, arith, ◌⊎◌, if◌then◌else◌, inr, inl, Bool-cases,
}
use tolo_observation.Common.Text.{Text}
use tolo_observation.GoTime.{Time}
use tolo_observation.TenantCtx.Laws.{MayActOn, ensure_event_iff}

-- A `[]byte` that may be nil.
abbrev pub Bytes : Type 0
Bytes = Option (List ℕ)

-- internal/domain/snapshot.go, OptimizationOutcome.
pub record OptimizationOutcome : Type 0 where
  pub snapshot_id : Text
  pub server_time : Time
  pub verdict : Text
  pub detection_state : Bytes
  pub optimization_result : Bytes
  pub feedback_values : Bytes
  pub diagnostics : Bytes

-- The reads of internal/repository/snapshot.go that this use case calls.
pub record SnapshotReads (S Shot : Type 0) : Type 0 where
  pub latest_snapshot : Text → Action S Shot
  pub latest_optimization_outcome : Text → Action S OptimizationOutcome

pub record EventOverview (Shot : Type 0) : Type 0 where
  pub snapshot : Option Shot
  pub diagnostics : Bytes

abbrev pub diagnostics_of : Option OptimizationOutcome → Bytes
diagnostics_of none = none
diagnostics_of (some o) = o.diagnostics

-- A row that is missing is no error: the sentinel of the repository becomes `none`.
abbrev pub or_missing : {A : Type 0} → String → Sentinel → Result A → Result (Option A)
or_missing context missing (ok a) = ok (some a)
or_missing context missing (err e) = if is e missing then ok none else err (wrapped context e)

module _ {S Shot : Type 0} (reads : SnapshotReads S Shot) where
  abbrev pub find_snapshot : Text → Action S (Option Shot)
  find_snapshot event s =
      let (r, s') = reads.latest_snapshot event s in
      (or_missing "find latest snapshot" snapshot_not_found r, s')

  abbrev pub find_outcome : Text → Action S (Option OptimizationOutcome)
  find_outcome event s =
      let (r, s') = reads.latest_optimization_outcome event s in
      (or_missing "find latest optimization outcome" optimization_outcome_missing r, s')

  -- The rest of `GetEventOverview` after the snapshot was looked for.
  unfoldable pub overview_of : Text → Option Shot → Action S (EventOverview Shot)
  overview_of event none = pure (record { snapshot = none; diagnostics = none })
  overview_of event (some shot) = do
    found ← find_outcome event
    pure (record { snapshot = some shot; diagnostics = diagnostics_of found })

  unfoldable pub get_event_overview : Context → Text → Action S (EventOverview Shot)
  get_event_overview ctx event = do
    lift (ensure_event ctx event)
    shot ← find_snapshot event
    overview_of event shot

unfoldable pub get_guest_snapshot :
    {S Guest : Type 0} → (Text → Action S Guest) → Context → Text → Action S Guest
get_guest_snapshot latest ctx event = do
  lift (ensure_event ctx event)
  wrap_err "find latest guest status" (latest event)

-- What an overview shows: no snapshot and no diagnostics, because no snapshot is stored; or the
-- stored snapshot, with the diagnostics of the stored outcome, or none where that is missing.
abbrev pub Shows : {S Shot : Type 0} → SnapshotReads S Shot → Text → S → EventOverview Shot → Type 0
Shows {Shot = Shot} reads event s o =
    ((o ≡ record { snapshot = none; diagnostics = none })
      × ((e : Error) × ((reads.latest_snapshot event s).0 ≡ err e)
          × (is e snapshot_not_found ≡ true)))
    ⊎ ((shot : Shot) × ((reads.latest_snapshot event s).0 ≡ ok shot)
        × (o.snapshot ≡ some shot)
        × ((found : Option OptimizationOutcome) × (o.diagnostics ≡ diagnostics_of found)
            × ((find_outcome reads event (reads.latest_snapshot event s).1).0 ≡ ok found)))

-- An overview is given only of an event that the context may act on: without a snapshot and
-- diagnostics if no snapshot is stored, and otherwise of the latest snapshot with the diagnostics of
-- the latest outcome, if there is one.
pub get_event_overview_ok :
    {S Shot : Type 0} (reads : SnapshotReads S Shot) (ctx : Context) (event : Text) (s : S)
    (o : EventOverview Shot)
    → (get_event_overview reads ctx event s).0 ≡ ok o
    → MayActOn ctx event × Shows reads event s o
unfolding get_event_overview overview_of
get_event_overview_ok reads ctx event s o h = elim (Result-cases (ensure_event ctx event)) [
  | inr (e, u) ↦ ground (arith, h, u)
  | inl (_, u) ↦ elim (Result-cases (reads.latest_snapshot event s).0) [
    | inr (e, v) ↦ elim (Bool-cases (is e snapshot_not_found)) [
      | inl k ↦ ((ensure_event_iff ctx event).0 u, inl (ground (arith, h, u, v, k), (e, v, k)))
      | inr k ↦ ground (arith, h, u, v, k)
    ]
    | inl (shot, v) ↦
        elim (Result-cases (find_outcome reads event (reads.latest_snapshot event s).1).0) [
          | inr (e, w) ↦ ground (arith, h, u, v, w)
          | inl (found, w) ↦ (
            (ensure_event_iff ctx event).0 u,
            inr (shot, v, ground (arith, h, u, v, w), (found, ground (arith, h, u, v, w), w)),
          )
        ]
  ]
]
