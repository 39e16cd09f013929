-- ===== src/Cycle/Composed.antt =====
-- The snapshot that a cycle composes is of the cycle's event.
use tolo_observation.Cycle.{
  ObservationCycle, Text, Float, Time, Result, Output, ok, or_err, external, Measurement,
  compose_snapshot, ObservationPointMapping, States, pure,
}
use tolo_observation.Snapshot.Build.{
  place, place_all, note_resolution, place_route, place_point, compare_keys, empty_output,
  anchors_of,
}
use tolo_observation.Cycle.Keeps.{ReadsKeep, new_id-Keeps, point_states-Keeps}
use tolo_observation.Common.{◌≡◌, refl, Option, none, some, List, [], ◌∷◌, arith, ◌∙◌}
use tolo_observation.Snapshot.{
  GraphAnchor, AnchorScore, Confidence, confidence_ok, confidence_hold, confidence_invalid,
}
use mathlib.Core.Option
use tolo_observation.Snapshot.Compose.{compose, Anchors}
use tolo_observation.Common.Sort.{sort}
use tolo_observation.Snapshot.Build.{new_snapshot}
use tolo_observation.Common.Keeps.{Ensures, Ensures-keeps, Keeps-wrap, Ensures-bind}
use tolo_observation.PublicId.{new_public_id}

module _ {F : Type 0} (f : Float F) where
  place_route-event :
      (a : GraphAnchor) (s : AnchorScore F) (o : Output F) (k : Confidence)
      → (place_route f a s o k).snapshot.event_id ≡ o.snapshot.event_id
  place_route-event a s o confidence_ok = refl
  place_route-event a s o confidence_hold = refl
  place_route-event a s o confidence_invalid = refl

  place_point-event :
      (a : GraphAnchor) (s : AnchorScore F) (o : Output F) (k : Confidence)
      → (place_point f a s o k).snapshot.event_id ≡ o.snapshot.event_id
  place_point-event a s o confidence_ok = refl
  place_point-event a s o confidence_hold = refl
  place_point-event a s o confidence_invalid = refl

  place-event :
      (a : GraphAnchor × AnchorScore F) (o : Output F)
      → (place f a o).snapshot.event_id ≡ o.snapshot.event_id
  unfolding place
  place-event (a, s) o =
      let noted = record o { snapshot = note_resolution f a s o.snapshot } in
      ground (
        arith,
        place_route-event a s noted (compose f s).confidence,
        place_point-event a s noted (compose f s).confidence,
      )

  place_all-event :
      (anchors : List (GraphAnchor × AnchorScore F)) (o : Output F)
      → (place_all f anchors o).snapshot.event_id ≡ o.snapshot.event_id
  unfolding place_all
  place_all-event [] o = refl
  place_all-event (a ∷ anchors) o = place_all-event anchors (place f a o) ∙ place-event a o

-- An output is of the event.
abbrev pub IsOf : {F : Type 0} → Text → Result (Output F) → Type 0
IsOf {F = F} event r = (out : Output F) → r ≡ ok out → out.snapshot.event_id ≡ event

module _ {S F : Type 0} (f : Float F) (c : ObservationCycle S F) {P : S → Type 0}
    (k : ReadsKeep c P) where
  made_output :
      (event : Text) (o : Option (Output F))
      → ((out : Output F) → o ≡ some out → out.snapshot.event_id ≡ event)
      → IsOf event (or_err o (external "panic"))
  made_output event none h out e = cc e
  made_output event (some o) h out e = ground (arith, h o refl, e)

  mapped_event :
      (event id : Text) (from to : Time) (anchors : Option (Anchors F)) (out : Output F)
      → Option.map
          (λ (l : Anchors F).
            place_all f (sort (compare_keys f) l) (empty_output f id event from to))
          anchors
        ≡ some out
      → out.snapshot.event_id ≡ event
  mapped_event event id from to none out e = cc e
  mapped_event event id from to (some l) out e =
      ground
        (arith, e, place_all-event f (sort (compare_keys f) l) (empty_output f id event from to))

  new_snapshot-Ensures :
      (event : Text) (from to : Time) (ms : List (Measurement F))
      (mappings : List ObservationPointMapping) (states : States)
      → Ensures P
          (λ (p : Result (Option (Output F)) × S).
            P p.1
            × ((o : Option (Output F))
                → p.0 ≡ ok o
                → (out : Output F) → o ≡ some out
                → out.snapshot.event_id ≡ event))
          (new_snapshot f c.read event from to ms mappings states)
  unfolding new_snapshot
  new_snapshot-Ensures event from to ms mappings states =
      Ensures-keeps (new_public_id c.read)
        (λ id. pure (
          Option.map
            (λ (l : Anchors F).
              place_all f (sort (compare_keys f) l) (empty_output f id event from to))
            (anchors_of f from to ms mappings states)))
        (new_id-Keeps f c k) (λ e s h. (h, λ o q. cc q))
        λ id. record {
          from = λ s h. (
            h,
            λ o q out r.
                mapped_event event id from to (anchors_of f from to ms mappings states) out
                  (ground (arith, q, r)),
          );
        }

  -- The cycle's event goes into the snapshot.
  pub compose-Ensures :
      (event : Text) (now : Time) (mappings : List ObservationPointMapping)
      → Ensures P
          (λ (p : Result (Output F) × S). P p.1 × IsOf event p.0)
          (compose_snapshot f c event now mappings)
  unfolding compose_snapshot
  compose-Ensures event now mappings =
      Ensures-keeps _ _ (Keeps-wrap _ _ (k.windows event _)) (λ e s h. (h, λ out q. cc q))
        λ ms.
          Ensures-keeps _ _ (point_states-Keeps f c k event now) (λ e s h. (h, λ out q. cc q))
            λ states.
              Ensures-bind _ _ _ (new_snapshot-Ensures event _ now ms mappings states)
                (λ e s h. (h.0, λ out q. cc q))
                λ o. record { from = λ s h. (h.0, made_output event o (h.1 o refl)) }
