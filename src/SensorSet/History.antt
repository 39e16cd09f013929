-- ===== src/SensorSet/History.antt =====
-- Which scores of the history `HistorySinceSensorSetChanges` keeps.
use tolo_observation.SensorSet.{
  changes_of, predates, delete_func, trim_snapshot, history_since_sensor_set_changes, Time, before,
  is_zero,
}
use tolo_observation.SensorSet.Track.{anchor_eq_iff}
use tolo_observation.Snapshot.{GraphAnchor, anchor_eq, SensorSet, Snapshot, PointScore, RouteScore}
use tolo_observation.Common.Map.{lookup, insert, lookup-insert}
use tolo_observation.Common.{
  ◌≡◌, refl, Bool, false, Option, none, some, List, [], ◌∷◌, arith, Memᴰ, Bool-cases, subst,
  if◌then◌else◌, ◌↔◌, inl, inr, sym, ◌∙◌,
}

module _ {A : Type 0} (p : A → Bool) (a : A) where
  of_delete_func : (l : List A) → Memᴰ a (delete_func p l) → Memᴰ a l × (p a ≡ false)
  of_delete_func [] m = elim m [ ]
  of_delete_func (x ∷ l) m = elim (Bool-cases (p x)) [
    | inl e ↦ let (here, keeps) = of_delete_func l (rw e at m) in (Memᴰ.tail here, keeps)
    | inr e ↦
        let m' : Memᴰ a (x ∷ delete_func p l) = rw e at m in
        elim m' [
          | Memᴰ.head q ↦ (Memᴰ.head q, subst (λ y. p y ≡ false) (sym q) e)
          | Memᴰ.tail t ↦ let (here, keeps) = of_delete_func l t in (Memᴰ.tail here, keeps)
        ]
  ]

  to_delete_func : (l : List A) → Memᴰ a l → p a ≡ false → Memᴰ a (delete_func p l)
  to_delete_func [] m keeps = elim m [ ]
  to_delete_func (x ∷ l) (Memᴰ.head q) keeps =
      let e : p x ≡ false = subst (λ y. p y ≡ false) q keeps in rw e (Memᴰ.head q)
  to_delete_func (x ∷ l) (Memᴰ.tail t) keeps = elim (Bool-cases (p x)) [
    | inl e ↦ rw e (to_delete_func l t keeps)
    | inr e ↦ rw e (Memᴰ.tail (to_delete_func l t keeps))
  ]

delete_func_iff :
    {A : Type 0} (p q : A → Bool) (a : A) (l : List A)
    → p a ≡ q a
    → Memᴰ a (delete_func p l) ↔ (Memᴰ a l × (q a ≡ false))
delete_func_iff p q a l e = (
  λ m. let (here, keeps) = of_delete_func p a l m in (here, sym e ∙ keeps),
  λ (here, keeps). to_delete_func p a l here (e ∙ keeps),
)

-- The last change of an anchor's sensors that the sets report.
abbrev pub last_change : GraphAnchor → List SensorSet → Option Time → Option Time
last_change anchor [] found = found
last_change anchor (s ∷ sets) found = last_change anchor sets (
    if is_zero s.changed_at
    then found
    else if anchor_eq s.anchor anchor
    then some s.changed_at
    else found)

lookup-changes_of :
    (anchor : GraphAnchor) (sets : List SensorSet) (m : List (GraphAnchor × Time))
    → lookup anchor_eq anchor (changes_of sets m)
      ≡ last_change anchor sets (lookup anchor_eq anchor m)
unfolding changes_of
lookup-changes_of anchor [] m = refl
lookup-changes_of anchor (s ∷ sets) m = elim (Bool-cases (is_zero s.changed_at)) [
  | inl e ↦ ground (arith, e, lookup-changes_of anchor sets m)
  | inr e ↦ ground (
    arith,
    e,
    lookup-changes_of anchor sets (insert anchor_eq s.anchor s.changed_at m),
    lookup-insert anchor_eq anchor_eq_iff s.anchor anchor s.changed_at m,
  )
]

-- The anchor's sensors changed after the instant.
abbrev pub is_outdated : List SensorSet → Time → GraphAnchor → Bool
is_outdated sets t anchor = elim (last_change anchor sets none) [
  | none ↦ false
  | some at ↦ before t at
]

-- What is kept of a snapshot.
pub record Keeps {F : Type 0} (sets : List SensorSet) (snap kept : Snapshot F) : Type 0 where
  pub same_id : kept.id ≡ snap.id
  pub points :
      (s : PointScore F)
      → Memᴰ s kept.point_scores ↔ (
          Memᴰ s snap.point_scores
          × (is_outdated sets snap.window_end (record { point_id = s.point_id; route_id = [] })
              ≡ false))
  pub routes :
      (s : RouteScore F)
      → Memᴰ s kept.route_scores ↔ (
          Memᴰ s snap.route_scores
          × (is_outdated sets snap.window_end (record { point_id = []; route_id = s.route_id })
              ≡ false))

predates-is_outdated :
    (sets : List SensorSet) (t : Time) (anchor : GraphAnchor)
    → predates (changes_of sets []) t anchor ≡ is_outdated sets t anchor
predates-is_outdated sets t anchor = ground (arith, lookup-changes_of anchor sets [])

trim_snapshot-Keeps :
    {F : Type 0} (sets : List SensorSet) (snap : Snapshot F)
    → Keeps sets snap (trim_snapshot (changes_of sets []) snap)
trim_snapshot-Keeps sets snap = record {
  same_id = refl;
  points = λ s.
      delete_func_iff _
        (λ (x : PointScore _).
          is_outdated sets snap.window_end (record { point_id = x.point_id; route_id = [] }))
        s snap.point_scores (predates-is_outdated sets snap.window_end _);
  routes = λ s.
      delete_func_iff _
        (λ (x : RouteScore _).
          is_outdated sets snap.window_end (record { point_id = []; route_id = x.route_id }))
        s snap.route_scores (predates-is_outdated sets snap.window_end _);
}

-- Snapshot by snapshot, in order.
abbrev pub AreKept : {F : Type 0} → List SensorSet → List (Snapshot F) → List (Snapshot F) → Type 0
AreKept sets [] [] = Unit
AreKept sets [] (kept ∷ rest) = ⊥
AreKept sets (snap ∷ history) [] = ⊥
AreKept sets (snap ∷ history) (kept ∷ rest) = Keeps sets snap kept × AreKept sets history rest

-- The history keeps every snapshot in its place, and of each exactly the scores of the points and
-- routes whose last reported change of sensors is not after the end of the snapshot's window.
pub history_since_sensor_set_changes-AreKept :
    {F : Type 0} (history : List (Snapshot F)) (sets : List SensorSet)
    → AreKept sets history (history_since_sensor_set_changes history sets)
unfolding history_since_sensor_set_changes
history_since_sensor_set_changes-AreKept [] sets = tt
history_since_sensor_set_changes-AreKept (snap ∷ history) sets =
    (trim_snapshot-Keeps sets snap, history_since_sensor_set_changes-AreKept history sets)
