-- ===== src/SensorSet/Track.antt =====
-- What `TrackSensorSets` reports as updated.
use mathlib.Core.List.{append-nil, append_assoc}
use tolo_observation.Snapshot.{GraphAnchor, anchor_eq, SensorSet}
use tolo_observation.SensorSet.{
  ByAnchor, index_sets, updated_set, track_from, track_sensor_sets, Time, lookup, insert, ids_equal,
  zero_time,
}
use tolo_observation.Common.{
  ◌≡◌, refl, true, false, Option, none, some, List, [], ◌∷◌, arith, ◌↔◌, All, ◌++◌, Option-cases,
  inl, inr, sym, ◌≢◌, if◌then◌else◌, Bool-cases, subst, ◌∙◌, ap,
}
use tolo_observation.Common.Text.{Text, text_eq_iff}
use tolo_observation.Common.Map.{lookup-insert}

pub anchor_eq_iff : (a b : GraphAnchor) → (anchor_eq a b ≡ true) ↔ (a ≡ b)
anchor_eq_iff a b =
    ground (arith, text_eq_iff a.point_id b.point_id, text_eq_iff a.route_id b.route_id)

-- The anchors of the composed sets are distinct.
abbrev pub HaveDistinctAnchors : List SensorSet → Type 0
HaveDistinctAnchors [] = Unit
HaveDistinctAnchors (s ∷ sets) =
    All (λ (t : SensorSet). anchor_eq s.anchor t.anchor ≡ false) sets × HaveDistinctAnchors sets

-- Each composed set judged on its own, by the sets that were recorded.
abbrev pub updates_of : ByAnchor → List SensorSet → Time → List SensorSet
updates_of m [] at = []
updates_of m (s ∷ composed) at =
    let rest = updates_of m composed at in
    elim (updated_set (lookup anchor_eq s.anchor m) s at) [ none ↦ rest | some t ↦ t ∷ rest ]

lookup-insert_other :
    (a b : GraphAnchor) (t : SensorSet) (m : ByAnchor)
    → anchor_eq a b ≡ false
    → lookup anchor_eq b (insert anchor_eq a t m) ≡ lookup anchor_eq b m
lookup-insert_other a b t m e = rw (lookup-insert anchor_eq anchor_eq_iff a b t m, e) refl

updates_of-insert :
    (a : GraphAnchor) (t : SensorSet) (m : ByAnchor) (sets : List SensorSet) (at : Time)
    → All (λ (s : SensorSet). anchor_eq a s.anchor ≡ false) sets
    → updates_of (insert anchor_eq a t m) sets at ≡ updates_of m sets at
updates_of-insert a t m [] at h = refl
updates_of-insert a t m (s ∷ sets) at h =
    ground (arith, lookup-insert_other a s.anchor t m h.0, updates_of-insert a t m sets at h.1)

updated_set-anchor :
    (o : Option SensorSet) (s t : SensorSet) (at : Time)
    → updated_set o s at ≡ some t
    → t.anchor ≡ s.anchor
updated_set-anchor none s t at e = ground arith
updated_set-anchor (some p) s t at e = ground arith

track_from-updates_of :
    (composed : List SensorSet) (at : Time) (m : ByAnchor) (updated : List SensorSet)
    → HaveDistinctAnchors composed
    → (track_from composed at m updated).1 ≡ updated ++ updates_of m composed at
unfolding track_from
track_from-updates_of [] at m updated h = rw append-nil
track_from-updates_of (s ∷ composed) at m updated h =
    elim (Option-cases (updated_set (lookup anchor_eq s.anchor m) s at)) [
      | inl e ↦ rw (e, track_from, updates_of) (track_from-updates_of composed at m updated h.1)
      | inr (t, e) ↦
          let same : s.anchor ≡ t.anchor =
            sym (updated_set-anchor (lookup anchor_eq s.anchor m) s t at e) in
          let others =
            subst (λ a. All (λ (u : SensorSet). anchor_eq a u.anchor ≡ false) composed) same h.0 in
          rw (e, track_from, updates_of)
            (track_from-updates_of composed at (insert anchor_eq t.anchor t m) (updated ++ t ∷ [])
                h.1
              ∙ append_assoc updated (t ∷ []) _
              ∙ ap (λ l. updated ++ t ∷ l) (updates_of-insert t.anchor t m composed at others))
    ]

-- The set that was recorded last for an anchor.
abbrev pub last_of : GraphAnchor → List SensorSet → Option SensorSet
last_of a [] = none
last_of a (s ∷ recorded) =
    let later = last_of a recorded in
    elim later [ some t ↦ some t | none ↦ if anchor_eq s.anchor a then some s else none ]

-- The composed sets that are reported, in order, each with the time of its change.
pub data AreUpdates (recorded : List SensorSet) (at : Time)
    : List SensorSet → List SensorSet → Type 0 where
  nothing : AreUpdates recorded at [] []
  kept :
      (s p : SensorSet) {composed updated : List SensorSet}
      → last_of s.anchor recorded ≡ some p
      → p.observation_point_ids ≡ s.observation_point_ids
      → AreUpdates recorded at composed updated
      → AreUpdates recorded at (s ∷ composed) updated
  changed :
      (s p : SensorSet) {composed updated : List SensorSet}
      → last_of s.anchor recorded ≡ some p
      → p.observation_point_ids ≢ s.observation_point_ids
      → AreUpdates recorded at composed updated
      → AreUpdates recorded at (s ∷ composed) (record s { changed_at = at } ∷ updated)
  first :
      (s : SensorSet) {composed updated : List SensorSet}
      → last_of s.anchor recorded ≡ none
      → AreUpdates recorded at composed updated
      → AreUpdates recorded at (s ∷ composed) (record s { changed_at = zero_time } ∷ updated)

ids_equal_iff : (k l : List Text) → (ids_equal k l ≡ true) ↔ (k ≡ l)
unfolding ids_equal
ids_equal_iff [] [] = (λ e. refl, λ e. refl)
ids_equal_iff [] (b ∷ l) = (λ e. cc, λ e. cc)
ids_equal_iff (a ∷ k) [] = (λ e. cc, λ e. cc)
ids_equal_iff (a ∷ k) (b ∷ l) = ground (arith, text_eq_iff a b, ids_equal_iff k l)

lookup-index_sets :
    (a : GraphAnchor) (recorded : List SensorSet) (m : ByAnchor)
    → lookup anchor_eq a (index_sets recorded m)
      ≡ elim (last_of a recorded) [ some t ↦ some t | none ↦ lookup anchor_eq a m ]
unfolding index_sets
lookup-index_sets a [] m = refl
lookup-index_sets a (s ∷ recorded) m = ground (
  arith,
  lookup-index_sets a recorded (insert anchor_eq s.anchor s m),
  lookup-insert anchor_eq anchor_eq_iff s.anchor a s m,
)

recorded-last_of :
    (a : GraphAnchor) (recorded : List SensorSet)
    → lookup anchor_eq a (index_sets recorded []) ≡ last_of a recorded
recorded-last_of a recorded = ground (arith, lookup-index_sets a recorded [])

updates_of-AreUpdates :
    (recorded composed : List SensorSet) (at : Time)
    → AreUpdates recorded at composed (updates_of (index_sets recorded []) composed at)
updates_of-AreUpdates recorded [] at = nothing
updates_of-AreUpdates recorded (s ∷ composed) at =
    let rest = updates_of-AreUpdates recorded composed at in
    let found = recorded-last_of s.anchor recorded in
    let m = index_sets recorded [] in
    let others = updates_of m composed at in
    elim (Option-cases (last_of s.anchor recorded)) [
      | inl e ↦
          let q : record s { changed_at = zero_time } ∷ others ≡ updates_of m (s ∷ composed) at =
            ground (arith, found, e) in
          subst (AreUpdates recorded at (s ∷ composed)) q (first s e rest)
      | inr (p, e) ↦ elim (Bool-cases (ids_equal p.observation_point_ids s.observation_point_ids)) [
        | inl u ↦
            let q : others ≡ updates_of m (s ∷ composed) at = ground (arith, found, e, u) in
            subst (AreUpdates recorded at (s ∷ composed)) q
              (kept s p e ((ids_equal_iff _ _).0 u) rest)
        | inr u ↦
            let q : record s { changed_at = at } ∷ others ≡ updates_of m (s ∷ composed) at =
              ground (arith, found, e, u) in
            subst (AreUpdates recorded at (s ∷ composed)) q
              (changed s p e (λ same. cc (u, (ids_equal_iff _ _).1 same)) rest)
      ]
    ]

-- If the composed sets are of distinct anchors, the updated sets are, in order, the composed ones
-- that differ from the set recorded last for their anchor: one with other points is marked as
-- changed now, one of an anchor that was not recorded as never changed, and one with the same points
-- is left out. No composed set influences what is reported of another.
pub track_sensor_sets-AreUpdates :
    (recorded composed : List SensorSet) (at : Time)
    → HaveDistinctAnchors composed
    → AreUpdates recorded at composed (track_sensor_sets recorded composed at).1
unfolding track_sensor_sets
track_sensor_sets-AreUpdates recorded composed at h =
    subst (AreUpdates recorded at composed)
      (sym (track_from-updates_of composed at (index_sets recorded []) [] h))
      (updates_of-AreUpdates recorded composed at)
