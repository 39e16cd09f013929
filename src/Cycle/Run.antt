-- ===== src/Cycle/Run.antt =====
-- What a cycle stores, and what it leaves when it fails.
use tolo_observation.Cycle.{
  run, ObservationCycle, Text, Float, Time, Snapshot, Result, OptimizationOutcome, ok,
  optimize_flow, deliver_to_operation, Graph, Output, Past, wrap_err, err, publish_guest_status,
  truncate_microsecond, look_back,
}
use tolo_observation.Cycle.Keeps.{
  ReadsKeep, deliver-Keeps, find_previous-Keeps, read_graph-Keeps, publish-Keeps, look_back-Keeps,
}
use tolo_observation.Common.{◌≡◌, refl, Option, some, arith, ◌≢◌, ◌⊎◌, inl, inr}
use tolo_observation.Common.Keeps.{Ensures, Ensures-keeps, Keeps-wrap, Ensures-bind}
use tolo_observation.Errors.{Error}
use tolo_observation.Common.Result.{wrap_result_ok, ◌>>◌, ◌>>=◌}
use tolo_observation.Cycle.Composed.{IsOf, compose-Ensures}

-- What a store keeps of a snapshot and of an outcome, as they are read back.
pub record Kept (F : Type 0) : Type 0 where
  pub shot : Snapshot F → Snapshot F
  pub outcome : OptimizationOutcome → OptimizationOutcome

-- The snapshot and the outcome of an event that were saved last, as they are read back.
pub record Stored (F : Type 0) : Type 0 where
  pub shot : Option (Snapshot F)
  pub outcome : Option OptimizationOutcome

-- A save that answers without an error wrote; one that fails wrote or did not.
pub data Saves {F : Type 0} (before written : Stored F) (r : Result (Unit {0})) (after : Stored F)
    : Type 0 where
  is_written : after ≡ written → Saves before written r after
  is_left : r ≢ ok tt → after ≡ before → Saves before written r after

-- What is stored is changed by the two saves alone.
pub record StoreLaws {S F : Type 0} (c : ObservationCycle S F) (view : Text → S → Stored F)
    (kept : Kept F) : Type 0 where
  pub others : (event : Text) (v : Stored F) → ReadsKeep c (λ s. view event s ≡ v)
  pub saves_snapshot :
      (tenant : Text) (shot : Snapshot F) (s : S)
      → let r = c.snapshots.save_snapshot tenant shot s in
        Saves
          (view shot.event_id s)
          (record (view shot.event_id s) { shot = some (kept.shot shot) })
          r.0
          (view shot.event_id r.1)
  pub saves_outcome :
      (event : Text) (o : OptimizationOutcome) (s : S)
      → let r = c.snapshots.save_optimization_outcome event o s in
        Saves
          (view event s)
          (record (view event s) { outcome = some (kept.outcome o) })
          r.0
          (view event r.1)

-- How a cycle ends: nothing is stored, or the snapshot alone, and it failed; or both are stored.
pub data Ends {F : Type 0} (kept : Kept F) (event : Text) (before : Stored F)
    (r : Result (Unit {0})) (after : Stored F) : Type 0 where
  none_stored : r ≢ ok tt → after ≡ before → Ends kept event before r after
  snapshot_stored :
      (shot : Snapshot F)
      → r ≢ ok tt
      → shot.event_id ≡ event
      → after ≡ record before { shot = some (kept.shot shot) }
      → Ends kept event before r after
  both_stored :
      (shot : Snapshot F) (o : OptimizationOutcome)
      → shot.event_id ≡ event
      → o.snapshot_id ≡ shot.id
      → after ≡ record { shot = some (kept.shot shot); outcome = some (kept.outcome o) }
      → Ends kept event before r after

module _ {S F : Type 0} (f : Float F) (c : ObservationCycle S F) (view : Text → S → Stored F)
    (kept : Kept F) (laws : StoreLaws c view kept) (tenant event : Text) (before : Stored F) where
  -- The end, seen from a state that a whole cycle may leave.
  abbrev EndsAt : Result (Unit {0}) × S → Type 0
  EndsAt p = Ends kept event before p.0 (view event p.1)

  abbrev AtSaved : Snapshot F → S → Type 0
  AtSaved shot s = view event s ≡ record before { shot = some (kept.shot shot) }

  abbrev AtBoth : Snapshot F → OptimizationOutcome → S → Type 0
  AtBoth shot o s =
      view event s ≡ record { shot = some (kept.shot shot); outcome = some (kept.outcome o) }

  deliver-Ensures :
      (shot : Snapshot F) (o : OptimizationOutcome)
      → shot.event_id ≡ event
      → o.snapshot_id ≡ shot.id
      → Ensures (AtBoth shot o) EndsAt (deliver_to_operation f c tenant event o)
  deliver-Ensures shot o of_event of_shot = record {
    from = λ s h.
        both_stored shot o of_event of_shot
          ((deliver-Keeps f c (laws.others event _) tenant event o).at s h);
  }

  fails_saved :
      (shot : Snapshot F)
      → shot.event_id ≡ event
      → (e : Error) (s : S) → AtSaved shot s
      → EndsAt (err e, s)
  fails_saved shot of_event e s h = snapshot_stored shot (λ q. cc q) of_event h

  fails_none : (e : Error) (s : S) → view event s ≡ before → EndsAt (err e, s)
  fails_none e s h = none_stored (λ q. cc q) h

  -- What saving an outcome of the snapshot leaves.
  abbrev OutcomeSaved : Snapshot F → OptimizationOutcome → Result (Unit {0}) × S → Type 0
  OutcomeSaved shot o p = AtBoth shot o p.1 ⊎ ((p.0 ≢ ok tt) × AtSaved shot p.1)

  save_outcome-Ensures :
      (shot : Snapshot F) (o : OptimizationOutcome)
      → Ensures
          (AtSaved shot)
          (OutcomeSaved shot o)
          (wrap_err "save optimization outcome" (c.snapshots.save_optimization_outcome event o))
  save_outcome-Ensures shot o = record {
    from = λ s h. elim (laws.saves_outcome event o s) [
      | is_written w ↦ inl (ground (arith, w, h))
      | is_left fails w ↦ inr (λ q. fails (wrap_result_ok _ _ tt q), ground (arith, w, h))
    ];
  }

  save_snapshot-Ensures :
      (shot : Snapshot F)
      → shot.event_id ≡ event
      → Ensures
          (λ s. view event s ≡ before)
          (λ (p : Result (Unit {0}) × S).
            AtSaved shot p.1 ⊎ ((p.0 ≢ ok tt) × (view event p.1 ≡ before)))
          (wrap_err "save snapshot" (c.snapshots.save_snapshot tenant shot))
  save_snapshot-Ensures shot of_event = record {
    from = λ s h. elim (laws.saves_snapshot tenant shot s) [
      | is_written w ↦ inl (ground (arith, w, h, of_event))
      | is_left fails w ↦ inr (λ q. fails (wrap_result_ok _ _ tt q), ground (arith, w, h, of_event))
    ];
  }

  finish-Ensures :
      (shot : Snapshot F) (o : OptimizationOutcome)
      → shot.event_id ≡ event
      → o.snapshot_id ≡ shot.id
      → Ensures
          (λ s. OutcomeSaved shot o (ok tt, s))
          EndsAt
          (deliver_to_operation f c tenant event o)
  finish-Ensures shot o of_event of_shot = record {
    from = λ s h. elim h [
      | inl g ↦ (deliver-Ensures shot o of_event of_shot).from s g
      | inr (failed, g) ↦ absurd (failed refl)
    ];
  }

  optimize_flow-Ensures :
      (graph : Graph F) (out : Output F) (past : Past F) (now : Time)
      → out.snapshot.event_id ≡ event
      → Ensures (AtSaved out.snapshot) EndsAt (optimize_flow f c tenant event graph out past now)
  unfolding optimize_flow
  optimize_flow-Ensures graph out past now of_event =
      let keeps = laws.others event (record before { shot = some (kept.shot out.snapshot) }) in
      Ensures-keeps _ _ (find_previous-Keeps f c keeps event) (fails_saved out.snapshot of_event)
        λ previous.
          Ensures-keeps _ _ (Keeps-wrap _ _ (keeps.optimize _)) (fails_saved out.snapshot of_event)
            λ outcome.
              let o = record outcome { snapshot_id = out.snapshot.id } in
              Ensures-bind (OutcomeSaved out.snapshot o) _ _ (save_outcome-Ensures out.snapshot o)
                (λ e s h. elim h [
                  | inl g ↦ both_stored out.snapshot o of_event refl g
                  | inr (failed, g) ↦ fails_saved out.snapshot of_event e s g
                ])
                λ _. finish-Ensures out.snapshot o of_event refl

  -- The rest of a cycle from the saving of the snapshot.
  store_and_optimize-Ensures :
      (graph : Graph F) (out : Output F) (past : Past F) (now : Time)
      → out.snapshot.event_id ≡ event
      → Ensures
          (λ s. view event s ≡ before)
          EndsAt
          (do
            wrap_err "save snapshot" (c.snapshots.save_snapshot tenant out.snapshot)
            publish_guest_status f c tenant event now
            optimize_flow f c tenant event graph out past now)
  store_and_optimize-Ensures graph out past now of_event =
      let keeps = laws.others event (record before { shot = some (kept.shot out.snapshot) }) in
      Ensures-bind _ _ _ (save_snapshot-Ensures out.snapshot of_event)
        (λ e s h. elim h [
          | inl g ↦ fails_saved out.snapshot of_event e s g
          | inr (failed, g) ↦ fails_none e s g
        ])
        λ _. record {
          from = λ s h. elim h [
            | inl g ↦
                (Ensures-keeps _ _ (publish-Keeps f c keeps tenant event now)
                    (fails_saved out.snapshot of_event)
                    λ _. optimize_flow-Ensures graph out past now of_event).from
                  s g
            | inr (failed, g) ↦ absurd (failed refl)
          ];
        }

  -- The rest of a cycle from the composed snapshot.
  use_output-Ensures :
      (graph : Graph F) (out : Output F) (now : Time)
      → Ensures
          (λ s. (view event s ≡ before) × IsOf event (ok out))
          EndsAt
          (do
            past ← look_back f c event now out.sensors
            wrap_err "save snapshot" (c.snapshots.save_snapshot tenant out.snapshot)
            publish_guest_status f c tenant event now
            optimize_flow f c tenant event graph out past now)
  use_output-Ensures graph out now = record {
    from = λ s h.
        (Ensures-keeps _ _ (look_back-Keeps f c (laws.others event before) event now out.sensors)
            fails_none λ past. store_and_optimize-Ensures graph out past now (h.1 out refl)).from
          s h.0;
  }

  run-Ensures : Ensures (λ s. view event s ≡ before) EndsAt (run f c tenant event)
  unfolding run
  run-Ensures =
      let keeps = laws.others event before in
      Ensures-keeps _ _ (read_graph-Keeps f c keeps tenant event) fails_none λ mapped.
        Ensures-keeps _ _ keeps.clock fails_none λ now.
          Ensures-bind _ _ _ (compose-Ensures f c keeps event (truncate_microsecond now) mapped.1)
            (λ e s h. fails_none e s h.0)
            λ out. use_output-Ensures mapped.0 out (truncate_microsecond now)

-- However a cycle ends, its two saves are seen in their order: nothing new is stored, or the snapshot
-- alone, and then the cycle failed; or both are stored. What is stored is what the store keeps of a
-- snapshot of the event and of an outcome of that same snapshot. The conditions: a save that answers
-- without an error wrote what the store keeps, one that fails wrote it or nothing, and no other call
-- of the cycle writes a snapshot or an outcome.
pub run-Ends :
    {S F : Type 0} (f : Float F) (c : ObservationCycle S F) (view : Text → S → Stored F)
    (kept : Kept F)
    → StoreLaws c view kept
    → (tenant event : Text) (s : S)
    → Ends kept event
        (view event s)
        (run f c tenant event s).0
        (view event (run f c tenant event s).1)
run-Ends f c view kept laws tenant event s =
    (run-Ensures f c view kept laws tenant event (view event s)).from s refl
