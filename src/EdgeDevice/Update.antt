-- ===== src/EdgeDevice/Update.antt =====
-- `UpdateObservationPoint` and `Unregister`: what they change, what they leave, when they refuse.
use tolo_observation.EdgeDevice.{
  EdgeDevice, ObservationPoint, ObservationPointId, update_point, update_observation_point,
  has_point, List, Text, Option, map, Bool, none, text_eq, Result, has_observation_point, ok, err,
  sentinel, edge_device_unregistered, observation_point_not_found, observation_point_name_required,
}
use tolo_observation.Common.{
  ◌≡◌, refl, Bool, true, false, Option, none, some, List, [], ◌∷◌, arith, if◌then◌else◌, ◌≢◌, inl,
  inr, ap, ◌⊎◌,
}
use mathlib.Core.Option
use tolo_observation.Common.Text.{text_eq_iff, is_empty, trim_space}

-- The first point with an ID, which is the one that the methods read and write.
abbrev pub find_point : ObservationPointId → List ObservationPoint → Option ObservationPoint
find_point id [] = none
find_point id (p ∷ ps) = if text_eq p.id id then some p else find_point id ps

abbrev pub point_ids : List ObservationPoint → List ObservationPointId
point_ids = map (λ (p : ObservationPoint). p.id)

-- What an update of the points by one name and one switch does.
pub record UpdatesPoint (id : ObservationPointId) (name : Text) (enabled : Bool)
    (ps ps' : List ObservationPoint) (p : ObservationPoint) : Type 0 where
  pub same_ids : point_ids ps' ≡ point_ids ps
  pub own_id : p.id ≡ id
  pub named : p.name ≡ name
  pub switched : p.enabled ≡ enabled
  pub stored : find_point id ps' ≡ some p
  pub others : (j : ObservationPointId) → j ≢ id → find_point j ps' ≡ find_point j ps

abbrev Updated :
    ObservationPointId
    → Text
    → Bool
    → List ObservationPoint
    → Option (List ObservationPoint × ObservationPoint)
    → Type 0
Updated id name enabled ps none = has_point id ps ≡ false
Updated id name enabled ps (some (ps', p)) = UpdatesPoint id name enabled ps ps' p

module _ (id : ObservationPointId) (name : Text) (enabled : Bool) where
  update_here :
      (q : ObservationPoint) (ps : List ObservationPoint)
      → text_eq q.id id ≡ true
      → let here : ObservationPoint = record q { name = name; enabled = enabled } in
        UpdatesPoint id name enabled (q ∷ ps) (here ∷ ps) here
  update_here q ps e = record {
    same_ids = refl;
    own_id = (text_eq_iff q.id id).0 e;
    named = refl;
    switched = refl;
    stored = rw e;
    others = λ j ne. ground (arith, text_eq_iff q.id id, text_eq_iff q.id j, ne);
  }

  update_there :
      (q : ObservationPoint) (ps ps' : List ObservationPoint) (p : ObservationPoint)
      → text_eq q.id id ≡ false
      → UpdatesPoint id name enabled ps ps' p
      → UpdatesPoint id name enabled (q ∷ ps) (q ∷ ps') p
  update_there q ps ps' p e u = record {
    same_ids = ap (λ l. q.id ∷ l) u.same_ids;
    own_id = u.own_id;
    named = u.named;
    switched = u.switched;
    stored = rw e u.stored;
    others = λ j ne. ground (arith, u.others j ne);
  }

  update_step :
      (q : ObservationPoint) (ps : List ObservationPoint) (b : Bool)
      → text_eq q.id id ≡ b
      → (r : Option (List ObservationPoint × ObservationPoint)) → Updated id name enabled ps r
      → let here : ObservationPoint = record q { name = name; enabled = enabled } in
        Updated id name enabled (q ∷ ps) (
          if b
          then some (here ∷ ps, here)
          else Option.map (λ (r : List ObservationPoint × ObservationPoint). (q ∷ r.0, r.1)) r)
  update_step q ps true e r u = update_here q ps e
  update_step q ps false e none u = rw e u
  update_step q ps false e (some (ps', p)) u = update_there q ps ps' p e u

  update_point-Updated :
      (ps : List ObservationPoint) → Updated id name enabled ps (update_point id name enabled ps)
  unfolding update_point
  update_point-Updated [] = refl
  update_point-Updated (q ∷ ps) =
      update_step q ps (text_eq q.id id) refl (update_point id name enabled ps)
        (update_point-Updated ps)

-- How a call of `UpdateObservationPoint` on the device may end.
abbrev pub UpdateOutcome :
    EdgeDevice → ObservationPointId → Text → Bool → Result (EdgeDevice × ObservationPoint) → Type 0
UpdateOutcome d id name enabled (ok (d', p)) =
    (d.unregistered ≡ false)
    × (is_empty (trim_space name) ≡ false)
    × (d' ≡ record d { observation_points = d'.observation_points })
    × UpdatesPoint id (trim_space name) enabled d.observation_points d'.observation_points p
UpdateOutcome d id name enabled (err e) =
    ((e ≡ sentinel edge_device_unregistered) × (d.unregistered ≡ true))
    ⊎ ((e ≡ sentinel observation_point_name_required) × (is_empty (trim_space name) ≡ true))
    ⊎ ((e ≡ sentinel observation_point_not_found) × (has_observation_point d id ≡ false))

update_outcome :
    (d : EdgeDevice) (id : ObservationPointId) (name : Text) (enabled : Bool) (gone blank : Bool)
    → d.unregistered ≡ gone
    → is_empty (trim_space name) ≡ blank
    → UpdateOutcome d id name enabled (update_observation_point d id name enabled)
unfolding update_observation_point has_observation_point
update_outcome d id name enabled true blank g b = simp g (inl (refl, refl))
update_outcome d id name enabled false true g b = simp (g, b) (inr (inl (refl, refl)))
update_outcome d id name enabled false false g b =
    simp (g, b)
      (go (update_point id (trim_space name) enabled d.observation_points)
        (update_point-Updated id (trim_space name) enabled d.observation_points))
  where
    go :
        (r : Option (List ObservationPoint × ObservationPoint))
        → Updated id (trim_space name) enabled d.observation_points r
        → UpdateOutcome d id name enabled (elim r [
          | some (ps, p) ↦ ok (record d { observation_points = ps }, p)
          | none ↦ err (sentinel observation_point_not_found)
        ])
    go none u = inr (inr (refl, u))
    go (some (ps, p)) u = (g, b, refl, u)

-- A successful update gives the named point the trimmed name and the switch, and returns it as it is
-- stored; all IDs, their order, the points with other IDs and the rest of the device stay. It fails
-- only on an unregistered device, a blank name, or an ID that no point of the device has.
pub update_observation_point-UpdateOutcome :
    (d : EdgeDevice) (id : ObservationPointId) (name : Text) (enabled : Bool)
    → UpdateOutcome d id name enabled (update_observation_point d id name enabled)
update_observation_point-UpdateOutcome d id name enabled =
    update_outcome d id name enabled d.unregistered (is_empty (trim_space name)) refl refl
