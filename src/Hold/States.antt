-- ===== src/Hold/States.antt =====
-- The states that `ObservationPointStates` computes.
use tolo_observation.Hold.{
  HeartbeatLossHold, ObservationPointState, connected, point_state, disabled, offline, active,
  point_states, device_states, observation_point_states, States, Time, EdgeDevice,
  ObservationPointId, lookup, ObservationPoint, insert,
}
use tolo_observation.Common.{
  ◌≡◌, refl, Bool, true, some, List, [], ◌∷◌, arith, is_some, Memᴰ, ◌⊎◌, inl, if◌then◌else◌, inr,
  subst, sym, false, Bool-cases,
}
use tolo_observation.Common.Text.{Text, text_eq, text_eq_refl, text_eq_iff}
use tolo_observation.Common.Map.{lookup-insert}

-- The flags of a device and of its point, and whether the device is connected, that a state stands
-- for.
abbrev pub IsStateOf : EdgeDevice → Bool → ObservationPoint → ObservationPointState → Type 0
IsStateOf d c p disabled = (d.unregistered ≡ true) ⊎ (p.enabled ≡ false)
IsStateOf d c p offline = (d.unregistered ≡ false) × (p.enabled ≡ true) × (c ≡ false)
IsStateOf d c p active = (d.unregistered ≡ false) × (p.enabled ≡ true) × (c ≡ true)

point_state-IsStateOf :
    (d : EdgeDevice) (c : Bool) (p : ObservationPoint) → IsStateOf d c p (point_state d c p)
point_state-IsStateOf d c p = elim (Bool-cases d.unregistered) [
  | inl u ↦ rw u (inl refl)
  | inr u ↦ elim (Bool-cases p.enabled) [
    | inr v ↦ rw (u, v) (inr refl)
    | inl v ↦ elim (Bool-cases c) [
      | inl w ↦ rw (u, v, w) (refl, refl, refl)
      | inr w ↦ rw (u, v, w) (refl, refl, refl)
    ]
  ]
]

-- A point of one of the devices whose state by its device's flags is the one given.
abbrev pub HasState :
    {F : Type 0}
    → HeartbeatLossHold F
    → Time
    → List EdgeDevice
    → ObservationPointId
    → ObservationPointState
    → Type 0
HasState h now ds id s =
    (d : EdgeDevice) × (p : ObservationPoint) × Memᴰ d ds
    × Memᴰ p d.observation_points
    × (p.id ≡ id)
    × IsStateOf d (connected h d now) p s

lookup_of_insert :
    (k j : Text) (v : ObservationPointState) (m : States)
    → lookup text_eq j (insert text_eq k v m) ≡ (if text_eq k j then some v else lookup text_eq j m)
lookup_of_insert k j v m = lookup-insert text_eq text_eq_iff k j v m

insert_cases :
    (k j : Text) (v : ObservationPointState) (m : States) (s : ObservationPointState)
    → lookup text_eq j (insert text_eq k v m) ≡ some s
    → ((k ≡ j) × (s ≡ v)) ⊎ (lookup text_eq j m ≡ some s)
insert_cases k j v m s h = ground (arith, lookup_of_insert k j v m, text_eq_iff k j)

point_states_sound :
    (d : EdgeDevice) (c : Bool) (ps : List ObservationPoint) (m : States) (id : ObservationPointId)
    (s : ObservationPointState)
    → lookup text_eq id (point_states d c ps m) ≡ some s
    → ((p : ObservationPoint) × Memᴰ p ps × (p.id ≡ id) × (s ≡ point_state d c p))
      ⊎ (lookup text_eq id m ≡ some s)
unfolding point_states
point_states_sound d c [] m id s h = inr h
point_states_sound d c (p ∷ ps) m id s h = elim (point_states_sound d c ps _ id s h) [
  | inl (q, at, e, st) ↦ inl (q, Memᴰ.tail at, e, st)
  | inr old ↦ elim (insert_cases p.id id (point_state d c p) m s old) [
    | inl (same, st) ↦ inl (p, Memᴰ.head refl, same, st)
    | inr older ↦ inr older
  ]
]

module _ {F : Type 0} (h : HeartbeatLossHold F) (now : Time) where
  device_states_sound :
      (ds : List EdgeDevice) (m : States) (id : ObservationPointId) (s : ObservationPointState)
      → lookup text_eq id (device_states ds now h m) ≡ some s
      → HasState h now ds id s ⊎ (lookup text_eq id m ≡ some s)
  unfolding device_states
  device_states_sound [] m id s e = inr e
  device_states_sound (d ∷ ds) m id s e = elim (device_states_sound ds _ id s e) [
    | inl (q, p, own, at, i, st) ↦ inl (q, p, Memᴰ.tail own, at, i, st)
    | inr old ↦ elim (point_states_sound d (connected h d now) d.observation_points m id s old) [
      | inl (p, at, i, st) ↦
          let c = connected h d now in
          inl (
            d,
            p,
            Memᴰ.head refl,
            at,
            i,
            subst (IsStateOf d c p) (sym st) (point_state-IsStateOf d c p),
          )
      | inr before_d ↦ inr before_d
    ]
  ]

  -- Every state that is recorded for an ID is that of a point with the ID, by the flags of its
  -- device: disabled if the device is unregistered or the point is switched off, else offline if the
  -- device is not connected, else active.
  pub observation_point_states_sound :
      (ds : List EdgeDevice) (id : ObservationPointId) (s : ObservationPointState)
      → lookup text_eq id (observation_point_states ds now h) ≡ some s
      → HasState h now ds id s
  unfolding observation_point_states
  observation_point_states_sound ds id s e = elim (device_states_sound ds [] id s e) [
    | inl found ↦ found
    | inr never ↦ cc
  ]

is_some-insert :
    (k j : Text) (v : ObservationPointState) (m : States)
    → is_some (lookup text_eq j m) ≡ true
    → is_some (lookup text_eq j (insert text_eq k v m)) ≡ true
is_some-insert k j v m h = ground (arith, lookup_of_insert k j v m)

point_states-keep :
    (d : EdgeDevice) (c : Bool) (ps : List ObservationPoint) (m : States) (id : ObservationPointId)
    → is_some (lookup text_eq id m) ≡ true
    → is_some (lookup text_eq id (point_states d c ps m)) ≡ true
unfolding point_states
point_states-keep d c [] m id h = h
point_states-keep d c (p ∷ ps) m id h =
    point_states-keep d c ps _ id (is_some-insert p.id id (point_state d c p) m h)

point_states_complete :
    (d : EdgeDevice) (c : Bool) (ps : List ObservationPoint) (m : States) (p : ObservationPoint)
    → Memᴰ p ps
    → is_some (lookup text_eq p.id (point_states d c ps m)) ≡ true
unfolding point_states
point_states_complete d c [] m p at = elim at [ ]
point_states_complete d c (q ∷ ps) m p (Memᴰ.head e) =
    point_states-keep d c ps _ p.id
      (rw (lookup_of_insert q.id p.id (point_state d c q) m, ← e, text_eq_refl) refl)
point_states_complete d c (q ∷ ps) m p (Memᴰ.tail at) = point_states_complete d c ps _ p at

module _ {F : Type 0} (h : HeartbeatLossHold F) (now : Time) where
  device_states-keep :
      (ds : List EdgeDevice) (m : States) (id : ObservationPointId)
      → is_some (lookup text_eq id m) ≡ true
      → is_some (lookup text_eq id (device_states ds now h m)) ≡ true
  unfolding device_states
  device_states-keep [] m id e = e
  device_states-keep (d ∷ ds) m id e =
      device_states-keep ds _ id
        (point_states-keep d (connected h d now) d.observation_points m id e)

  device_states_complete :
      (ds : List EdgeDevice) (m : States) (d : EdgeDevice) (p : ObservationPoint)
      → Memᴰ d ds
      → Memᴰ p d.observation_points
      → is_some (lookup text_eq p.id (device_states ds now h m)) ≡ true
  unfolding device_states
  device_states_complete [] m d p own at = elim own [ ]
  device_states_complete (e ∷ ds) m d p (Memᴰ.head same) at = device_states-keep ds _ p.id (
      point_states_complete e (connected h e now) e.observation_points m p
        (subst (λ (x : EdgeDevice). Memᴰ p x.observation_points) same at))
  device_states_complete (e ∷ ds) m d p (Memᴰ.tail rest) at =
      device_states_complete ds _ d p rest at

  -- Every point of every device that is given has a recorded state.
  pub observation_point_states_complete :
      (ds : List EdgeDevice) (d : EdgeDevice) (p : ObservationPoint)
      → Memᴰ d ds
      → Memᴰ p d.observation_points
      → is_some (lookup text_eq p.id (observation_point_states ds now h)) ≡ true
  unfolding observation_point_states
  observation_point_states_complete ds d p own at = device_states_complete ds [] d p own at
