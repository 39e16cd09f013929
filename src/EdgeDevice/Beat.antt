-- ===== src/EdgeDevice/Beat.antt =====
-- `Heartbeat` and `Online`.
use mathlib.Core.Option.{some-injective, Mem}
use tolo_observation.EdgeDevice.{
  EdgeDevice, ObservationPoint, ObservationPointId, is_camera, online, heartbeat, is_fresh,
  mark_active, contains, has_observation_point, Result, ok, Text, err, sentinel,
  edge_device_camera_unsupported, edge_device_unregistered, observation_point_not_found,
}
use tolo_observation.EdgeDevice.Update.{find_point, point_ids}
use tolo_observation.GoTime.{Time, Duration}
use tolo_observation.Common.Int.{pos, ◌≤ℤ◌, ◌<ℤ◌, max_i64, ◌-ℤ◌, sat_i64-le_iff}
use tolo_observation.Common.{
  ◌≡◌, refl, Bool, true, false, Option, none, some, List, [], ◌∷◌, arith, ◌↔◌, if◌then◌else◌, map,
  any, inl, ◌||◌, inr, All, not, ◌⊎◌, Memᴰ, Bool-cases, ap, ◌∙◌, subst, sym,
}
use mathlib.Core.Option
use tolo_observation.Common.Text.{text_eq, eq_of_text_eq, text_eq_iff}

abbrev pub IsTimeout : Duration → Type 0
IsTimeout d = (pos 0 ≤ℤ d) × (d <ℤ max_i64)

-- There was a heartbeat, at most the timeout ago.
abbrev pub HeardWithin : Option Time → Time → Duration → Type 0
HeardWithin none now timeout = ⊥
HeardWithin (some at) now timeout = now -ℤ at ≤ℤ timeout

is_fresh_iff :
    (o : Option Time) (now : Time) (timeout : Duration)
    → IsTimeout timeout
    → (is_fresh o now timeout ≡ true) ↔ HeardWithin o now timeout
is_fresh_iff none now timeout h = (λ e. cc, λ heard. absurd heard)
is_fresh_iff (some at) now timeout h = sat_i64-le_iff (now -ℤ at) timeout (omega arith) h.1

open_gate :
    (a b f : Bool) (P : Type 0)
    → (f ≡ true) ↔ P
    → ((if a || b then false else f) ≡ true) ↔ ((a ≡ false) × (b ≡ false) × P)
open_gate true b f P e = (λ h. cc, λ h. cc (h.0))
open_gate false true f P e = (λ h. cc, λ h. cc (h.1))
open_gate false false f P e = (λ h. (refl, refl, e.0 h), λ h. e.1 h.2)

-- If the timeout is not negative and below the largest duration, a device is online exactly if it
-- is no camera, is registered, and its last heartbeat is at most the timeout ago.
pub online_iff :
    (d : EdgeDevice) (now : Time) (timeout : Duration)
    → IsTimeout timeout
    → (online d now timeout ≡ true) ↔ (
        (is_camera d.kind ≡ false)
        × (d.unregistered ≡ false)
        × HeardWithin d.last_heartbeat_at now timeout)
unfolding online
online_iff d now timeout h = open_gate _ _ _ _ (is_fresh_iff d.last_heartbeat_at now timeout h)

-- What a heartbeat with active points leaves of a device.
pub record Beats (d : EdgeDevice) (now : Time) (ids : List ObservationPointId) (d' : EdgeDevice)
    : Type 0 where
  pub heard : d'.last_heartbeat_at ≡ some now
  pub same_ids : point_ids d'.observation_points ≡ point_ids d.observation_points
  pub marked :
      (j : ObservationPointId) (p : ObservationPoint)
      → find_point j d.observation_points ≡ some p
      → (Memᴰ j ids
          × (find_point j d'.observation_points ≡ some (record p { last_active_at = some now })))
        ⊎ ((Memᴰ j ids → ⊥) × (find_point j d'.observation_points ≡ some p))

mark-same_ids :
    (now : Time) (ids : List ObservationPointId) (ps : List ObservationPoint)
    → point_ids (map (mark_active now ids) ps) ≡ point_ids ps
mark-same_ids now ids [] = refl
mark-same_ids now ids (p ∷ ps) = ground (arith, mark-same_ids now ids ps)

mark-find :
    (now : Time) (ids : List ObservationPointId) (ps : List ObservationPoint)
    (j : ObservationPointId)
    → find_point j (map (mark_active now ids) ps)
      ≡ Option.map (mark_active now ids) (find_point j ps)
mark-find now ids [] j = refl
mark-find now ids (p ∷ ps) j = ground (arith, mark-find now ids ps j)

find_point-id :
    (j : ObservationPointId) (ps : List ObservationPoint) (p : ObservationPoint)
    → find_point j ps ≡ some p
    → p.id ≡ j
find_point-id j [] p h = cc
find_point-id j (q ∷ ps) p h = elim (Bool-cases (text_eq q.id j)) [
  | inl u ↦ ground (arith, h, u, eq_of_text_eq q.id j u)
  | inr u ↦ find_point-id j ps p (ground (arith, h, u))
]

contains-cases :
    (ids : List ObservationPointId) (j : ObservationPointId)
    → ((contains ids j ≡ true) × Memᴰ j ids) ⊎ ((contains ids j ≡ false) × (Memᴰ j ids → ⊥))
contains-cases [] j = inr (refl, λ m. elim m [ ])
contains-cases (i ∷ ids) j = elim (Bool-cases (text_eq j i)) [
  | inl u ↦ inl (ground (arith, u), Memᴰ.head (eq_of_text_eq j i u))
  | inr u ↦ elim (contains-cases ids j) [
    | inl (v, m) ↦ inl (ground (arith, u, v), Memᴰ.tail m)
    | inr (v, other) ↦ inr (
      ground (arith, u, v),
      λ m. elim m [ Memᴰ.head e ↦ ground (arith, u, text_eq_iff j i, e) | Memᴰ.tail t ↦ other t ],
    )
  ]
]

-- A point is active now exactly if it is named.
mark_active-named :
    (now : Time) (ids : List ObservationPointId) (ps : List ObservationPoint)
    (j : ObservationPointId) (p : ObservationPoint)
    → find_point j ps ≡ some p
    → (Memᴰ j ids
        × (find_point j (map (mark_active now ids) ps)
            ≡ some (record p { last_active_at = some now })))
      ⊎ ((Memᴰ j ids → ⊥) × (find_point j (map (mark_active now ids) ps) ≡ some p))
mark_active-named now ids ps j p h =
    let at = find_point-id j ps p h in
    let found = mark-find now ids ps j in
    elim (contains-cases ids j) [
      | inl (u, m) ↦ inl (m, ground (arith, found, h, at, u))
      | inr (u, other) ↦ inr (other, ground (arith, found, h, at, u))
    ]

-- How a heartbeat of the device may end.
abbrev pub HeartbeatOutcome :
    EdgeDevice → Time → List ObservationPointId → Result EdgeDevice → Type 0
HeartbeatOutcome d now ids (ok d') =
    (is_camera d.kind ≡ false)
    × (d.unregistered ≡ false)
    × All (λ (id : ObservationPointId). has_observation_point d id ≡ true) ids
    × (d' ≡ record d { last_heartbeat_at = some now; observation_points = d'.observation_points })
    × Beats d now ids d'
HeartbeatOutcome d now ids (err e) =
    ((e ≡ sentinel edge_device_camera_unsupported) × (is_camera d.kind ≡ true))
    ⊎ ((e ≡ sentinel edge_device_unregistered) × (d.unregistered ≡ true))
    ⊎ ((e ≡ sentinel observation_point_not_found)
        × ((id : ObservationPointId) × Memᴰ id ids × (has_observation_point d id ≡ false)))

unknown-cases :
    (d : EdgeDevice) (ids : List ObservationPointId)
    → ((any (λ (id : Text). not (has_observation_point d id)) ids ≡ false)
        × All (λ (id : ObservationPointId). has_observation_point d id ≡ true) ids)
      ⊎ ((any (λ (id : Text). not (has_observation_point d id)) ids ≡ true)
          × ((id : ObservationPointId) × Memᴰ id ids × (has_observation_point d id ≡ false)))
unknown-cases d [] = inl (refl, tt)
unknown-cases d (i ∷ ids) = elim (Bool-cases (has_observation_point d i)) [
  | inr e ↦ inr (rw e, (i, Memᴰ.head refl, e))
  | inl e ↦ elim (unknown-cases d ids) [
    | inl (none_unknown, known) ↦ inl (rw (e, none_unknown), (e, known))
    | inr (some_unknown, (id, at, u)) ↦ inr (rw (e, some_unknown), (id, Memᴰ.tail at, u))
  ]
]

heartbeat_outcome :
    (d : EdgeDevice) (now : Time) (ids : List ObservationPointId) (cam gone : Bool)
    → is_camera d.kind ≡ cam
    → d.unregistered ≡ gone
    → HeartbeatOutcome d now ids (heartbeat d now ids)
unfolding heartbeat
heartbeat_outcome d now ids true gone c g = simp c (inl (refl, refl))
heartbeat_outcome d now ids false true c g = simp (c, g) (inr (inl (refl, refl)))
heartbeat_outcome d now ids false false c g = elim (unknown-cases d ids) [
  | inl (e, known) ↦
      simp (c, g, e)
        ((
          refl,
          refl,
          known,
          refl,
          record {
            heard = refl;
            same_ids = mark-same_ids now ids d.observation_points;
            marked = mark_active-named now ids d.observation_points;
          },
        ))
  | inr (e, unknown) ↦ simp (c, g, e) (inr (inr (refl, unknown)))
]

-- A heartbeat is accepted exactly from a registered device that is no camera and has all the points
-- it names; it sets the time of the last heartbeat and the last activity of just the named points,
-- and leaves the rest of the device. A refusal says which of the three failed.
pub heartbeat-HeartbeatOutcome :
    (d : EdgeDevice) (now : Time) (ids : List ObservationPointId)
    → HeartbeatOutcome d now ids (heartbeat d now ids)
heartbeat-HeartbeatOutcome d now ids =
    heartbeat_outcome d now ids (is_camera d.kind) d.unregistered refl refl

-- If the timeout is not negative and below the largest duration, a device whose heartbeat was
-- accepted at an instant is online at a later one exactly if at most the timeout has gone by.
pub online-heartbeat :
    (d d' : EdgeDevice) (at now : Time) (timeout : Duration) (ids : List ObservationPointId)
    → IsTimeout timeout
    → heartbeat d at ids ≡ ok d'
    → (online d' now timeout ≡ true) ↔ (now -ℤ at ≤ℤ timeout)
online-heartbeat d d' at now timeout ids h e =
    let o : HeartbeatOutcome d at ids (ok d') = rw e at (heartbeat-HeartbeatOutcome d at ids) in
    let page : is_camera d'.kind ≡ false = ap (λ (x : EdgeDevice). is_camera x.kind) o.3 ∙ o.0 in
    let here : d'.unregistered ≡ false = ap (λ (x : EdgeDevice). x.unregistered) o.3 ∙ o.1 in
    let (fresh, heard) = online_iff d' now timeout h in
    (
      λ on. subst (λ t. HeardWithin t now timeout) o.4.heard (fresh on).2,
      λ within. heard (page, here, subst (λ t. HeardWithin t now timeout) (sym o.4.heard) within),
    )
