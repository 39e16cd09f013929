-- ===== src/SensorSet.antt =====
-- internal/domain/sensor_set.go: which sensors fed each anchor, and since when.
pub mod Track
pub mod History
use Prim.Native.Nat.{Ordering}
use tolo_observation.Snapshot.{
  GraphAnchor, anchor_eq, compare_anchors, SensorSet, Snapshot, PointScore, RouteScore,
}
use tolo_observation.GoTime.{Time, after, before, zero_time, is_zero}
use tolo_observation.Common.{
  ℕ, zero, suc, ◌≡◌, refl, Bool, true, false, Option, none, some, List, [], ◌∷◌, arith,
  if◌then◌else◌, map, ◌++◌, ◌&&◌,
}
use tolo_observation.Common.Text.{Text, text_eq}
use tolo_observation.Common.Map.{insert, lookup}
use tolo_observation.Common.Sort.{sort}

abbrev pub ByAnchor : Type 0
ByAnchor = List (GraphAnchor × SensorSet)

-- `slices.Equal`.
unfoldable pub ids_equal : List Text → List Text → Bool
ids_equal [] [] = true
ids_equal [] (b ∷ l) = false
ids_equal (a ∷ k) [] = false
ids_equal (a ∷ k) (b ∷ l) = text_eq a b && ids_equal k l

unfoldable pub index_sets : List SensorSet → ByAnchor → ByAnchor
index_sets [] m = m
index_sets (s ∷ sets) m = index_sets sets (insert anchor_eq s.anchor s m)

-- A composed set that is new, or that differs from the recorded one, as it is written.
abbrev pub updated_set : Option SensorSet → SensorSet → Time → Option SensorSet
updated_set none s at = some (record s { changed_at = zero_time })
updated_set (some previous) s at =
    if ids_equal previous.observation_point_ids s.observation_point_ids
    then none
    else some (record s { changed_at = at })

unfoldable pub track_from :
    List SensorSet → Time → ByAnchor → List SensorSet → ByAnchor × List SensorSet
track_from [] at m updated = (m, updated)
track_from (s ∷ composed) at m updated = elim (updated_set (lookup anchor_eq s.anchor m) s at) [
  | none ↦ track_from composed at m updated
  | some t ↦ track_from composed at (insert anchor_eq t.anchor t m) (updated ++ (t ∷ []))
]

abbrev pub compare_sets : SensorSet → SensorSet → Ordering
compare_sets a b = compare_anchors a.anchor b.anchor

-- The tracked and the updated sets.
unfoldable pub track_sensor_sets :
    List SensorSet → List SensorSet → Time → List SensorSet × List SensorSet
unfolding index_sets
track_sensor_sets recorded composed at =
    let (m, updated) = track_from composed at (index_sets recorded []) [] in
    (sort compare_sets (map (λ (e : GraphAnchor × SensorSet). e.1) m), updated)

unfoldable pub sensor_sets_changed_after : List SensorSet → Time → List SensorSet
sensor_sets_changed_after [] t = []
sensor_sets_changed_after (s ∷ sets) t =
    let rest = sensor_sets_changed_after sets t in if after s.changed_at t then s ∷ rest else rest

-- `changedAt`: the change of each anchor, where there was one.
unfoldable pub changes_of : List SensorSet → List (GraphAnchor × Time) → List (GraphAnchor × Time)
changes_of [] m = m
changes_of (s ∷ sets) m =
    changes_of sets (if is_zero s.changed_at then m else insert anchor_eq s.anchor s.changed_at m)

abbrev pub predates : List (GraphAnchor × Time) → Time → GraphAnchor → Bool
predates changes window_end anchor = elim (lookup anchor_eq anchor changes) [
  | none ↦ false
  | some at ↦ before window_end at
]

-- `slices.DeleteFunc`.
abbrev pub delete_func : {A : Type 0} → (A → Bool) → List A → List A
delete_func p [] = []
delete_func p (a ∷ l) = let rest = delete_func p l in if p a then rest else a ∷ rest

abbrev pub trim_snapshot : {F : Type 0} → List (GraphAnchor × Time) → Snapshot F → Snapshot F
trim_snapshot {F} changes snap = record snap {
  point_scores =
      delete_func
        (λ (s : PointScore F).
          predates changes snap.window_end (record { point_id = s.point_id; route_id = [] }))
        snap.point_scores;
  route_scores =
      delete_func
        (λ (s : RouteScore F).
          predates changes snap.window_end (record { point_id = []; route_id = s.route_id }))
        snap.route_scores;
}

unfoldable pub history_since_sensor_set_changes :
    {F : Type 0} → List (Snapshot F) → List SensorSet → List (Snapshot F)
unfolding changes_of
history_since_sensor_set_changes history sets = map (trim_snapshot (changes_of sets [])) history
