-- ===== src/EdgeDevice/Create.antt =====
-- What `NewEdgeDeviceWithKind` returns: which inputs it accepts, and the device that it makes.
use tolo_observation.Common.{ℕ, true, false, ◌≡◌, none, List, [], ◌∷◌, arith, All, refl, ◌↔◌}
use tolo_observation.Common.Text.{Text, is_empty, trim_space}
use tolo_observation.Common.Result.{ok, Action}
use tolo_observation.PublicId.{new_public_id, encode_to_string}
use tolo_observation.PublicId.Laws.{IsPublicId, parse_public_id-cases, parse_public_id_ok}
use tolo_observation.EdgeDevice.{
  EdgeDevice, EdgeDeviceKind, observation_page, camera, other_kind, ObservationPoint,
  new_observation_points, new_device_of_kind, new_edge_device_with_kind, registered_device,
}

-- The points of a new page carry the trimmed names in order, are enabled, and were never active.
abbrev pub AreNewPoints : List Text → List ObservationPoint → Type 0
AreNewPoints [] [] = Unit
AreNewPoints [] (_ ∷ _) = ⊥
AreNewPoints (_ ∷ _) [] = ⊥
AreNewPoints (n ∷ ns) (p ∷ ps) =
    ((p.name ≡ trim_space n)
      × (is_empty p.name ≡ false)
      × (p.enabled ≡ true)
      × (p.last_active_at ≡ none))
    × AreNewPoints ns ps

-- What a page or a camera is made of: a page has the named points and no link, a camera no point
-- and one link from itself to the point that was named.
abbrev pub HasNewParts : List Text → Text → EdgeDeviceKind → EdgeDevice → Type 0
HasNewParts names linked observation_page d =
    (linked ≡ []) × (AreNewPoints names d.observation_points) × (d.camera_links ≡ [])
HasNewParts names linked camera d =
    (names ≡ [])
    × IsPublicId linked
    × (d.observation_points ≡ [])
    × (d.camera_links ≡ record { camera_edge_device_id = d.id; observation_point_id = linked } ∷ [])
HasNewParts names linked other_kind d = ⊥

pub record IsNewDevice (tenant event name : Text) (kind : EdgeDeviceKind) (names : List Text)
    (linked : Text) (d : EdgeDevice) : Type 0 where
  pub tenant_trimmed : d.tenant_public_id ≡ trim_space tenant
  pub tenant_given : is_empty d.tenant_public_id ≡ false
  pub event_trimmed : d.event_id ≡ trim_space event
  pub event_given : is_empty d.event_id ≡ false
  pub name_trimmed : d.name ≡ trim_space name
  pub name_given : is_empty d.name ≡ false
  pub registered : d.unregistered ≡ false
  pub silent : d.last_heartbeat_at ≡ none
  pub of_kind : d.kind ≡ kind
  pub parts : HasNewParts names (trim_space linked) kind d

module _ {S : Type 0} (read : Action S (List ℕ)) where
  new_observation_points-AreNew :
      (names : List Text) (s : S) (ps : List ObservationPoint)
      → (new_observation_points read names s).0 ≡ ok ps
      → AreNewPoints names ps
  unfolding new_observation_points
  new_observation_points-AreNew [] s [] h = tt
  new_observation_points-AreNew [] s (p ∷ ps) h = cc
  new_observation_points-AreNew (n ∷ names) s [] h = ground arith
  new_observation_points-AreNew (n ∷ names) s (p ∷ ps) h =
      ground (arith, new_observation_points-AreNew names (new_public_id read s).1 ps)

  new_device_of_kind-parts :
      (kind : EdgeDeviceKind) (tenant event name : Text) (names : List Text) (linked : Text) (s : S)
      (d : EdgeDevice)
      → (new_device_of_kind read kind tenant event name names linked s).0 ≡ ok d
      → (d.tenant_public_id ≡ tenant)
        × (d.event_id ≡ event)
        × (d.name ≡ name)
        × (d.unregistered ≡ false)
        × (d.last_heartbeat_at ≡ none)
        × (d.kind ≡ kind)
        × HasNewParts names linked kind d
  unfolding new_device_of_kind
  new_device_of_kind-parts observation_page tenant event name names linked s d h =
      ground (arith, new_observation_points-AreNew names s d.observation_points)
  new_device_of_kind-parts camera tenant event name names linked s d h =
      ground (arith, parse_public_id-cases linked)
  new_device_of_kind-parts other_kind tenant event name names linked s d h = cc

  -- A device is returned only with the trimmed tenant, event and name, none of them blank, not
  -- unregistered and without a heartbeat; a page has one enabled point for each name, with the
  -- trimmed name, and no link; a camera has no points and one link from its own ID to the point
  -- that was named, whose ID is a public ID.
  pub new_edge_device_with_kind-IsNewDevice :
      (tenant event name : Text) (kind : EdgeDeviceKind) (names : List Text) (linked : Text) (s : S)
      (d : EdgeDevice)
      → (new_edge_device_with_kind read tenant event name kind names linked s).0 ≡ ok d
      → IsNewDevice tenant event name kind names linked d
  unfolding new_edge_device_with_kind
  new_edge_device_with_kind-IsNewDevice tenant event name kind names linked s d h = ground (
    arith,
    new_device_of_kind-parts kind (trim_space tenant) (trim_space event) (trim_space name) names
        (trim_space linked) s d,
  )

-- The random source never reports an error.
abbrev pub NeverFails : {S : Type 0} → Action S (List ℕ) → Type 0
NeverFails {S} read = (s : S) → (bs : List ℕ) × ((read s).0 ≡ ok bs)

-- The parts that a registration of a kind asks for, with the linked point's ID trimmed.
abbrev pub IsValidParts : EdgeDeviceKind → List Text → Text → Type 0
IsValidParts observation_page names linked =
    (linked ≡ []) × All (λ (n : Text). is_empty (trim_space n) ≡ false) names
IsValidParts camera names linked = (names ≡ []) × IsPublicId linked
IsValidParts other_kind names linked = ⊥

pub record IsValidInput (tenant event name : Text) (kind : EdgeDeviceKind) (names : List Text)
    (linked : Text) : Type 0 where
  pub tenant_given : is_empty (trim_space tenant) ≡ false
  pub event_given : is_empty (trim_space event) ≡ false
  pub name_given : is_empty (trim_space name) ≡ false
  pub valid_parts : IsValidParts kind names (trim_space linked)

AreNewPoints-named :
    (names : List Text) (ps : List ObservationPoint)
    → AreNewPoints names ps
    → All (λ (n : Text). is_empty (trim_space n) ≡ false) names
AreNewPoints-named [] ps h = tt
AreNewPoints-named (n ∷ names) [] h = absurd h
AreNewPoints-named (n ∷ names) (p ∷ ps) h = (rw (← h.0.0) h.0.1, AreNewPoints-named names ps h.1)

IsNewDevice-IsValidInput :
    (tenant event name : Text) (kind : EdgeDeviceKind) (names : List Text) (linked : Text)
    (d : EdgeDevice)
    → IsNewDevice tenant event name kind names linked d
    → IsValidInput tenant event name kind names linked
IsNewDevice-IsValidInput tenant event name observation_page names linked d h =
    ground (arith, AreNewPoints-named names d.observation_points)
IsNewDevice-IsValidInput tenant event name camera names linked d h = ground arith
IsNewDevice-IsValidInput tenant event name other_kind names linked d h = absurd h.parts

module _ {S : Type 0} (read : Action S (List ℕ)) (never : NeverFails read) where
  new_public_id_total : (s : S) → (id : Text) × ((new_public_id read s).0 ≡ ok id)
  unfolding new_public_id
  new_public_id_total s = let (bs, e) = never s in (encode_to_string bs, ground arith)

  new_observation_points_total :
      (names : List Text) (s : S)
      → All (λ (n : Text). is_empty (trim_space n) ≡ false) names
      → (ps : List ObservationPoint) × ((new_observation_points read names s).0 ≡ ok ps)
  unfolding new_observation_points
  new_observation_points_total [] s h = ([], refl)
  new_observation_points_total (n ∷ names) s h =
      let (id, drawn) = new_public_id_total s in
      let (ps, made) = new_observation_points_total names (new_public_id read s).1 h.1 in
      (
        record { id = id; name = trim_space n; enabled = true; last_active_at = none } ∷ ps,
        ground arith,
      )

  new_device_of_kind_total :
      (kind : EdgeDeviceKind) (tenant event name : Text) (names : List Text) (linked : Text) (s : S)
      → IsValidParts kind names linked
      → (d : EdgeDevice) × ((new_device_of_kind read kind tenant event name names linked s).0
          ≡ ok d)
  unfolding new_device_of_kind
  new_device_of_kind_total observation_page tenant event name names linked s h =
      let (ps, made) = new_observation_points_total names s h.1 in
      let (id, drawn) = new_public_id_total (new_observation_points read names s).1 in
      (registered_device id tenant event name observation_page ps [], ground arith)
  new_device_of_kind_total camera tenant event name names linked s h =
      let (id, drawn) = new_public_id_total s in
      (
        registered_device id tenant event name camera []
            (record { camera_edge_device_id = id; observation_point_id = linked } ∷ []),
        ground (arith, (parse_public_id_ok linked linked).1),
      )
  new_device_of_kind_total other_kind tenant event name names linked s h = absurd h

  -- If the random source never fails, the registrations that return a device are exactly those with
  -- a tenant, an event and a name that are not blank and the parts that their kind asks for: a page
  -- no linked point and no blank point name, a camera no point names and a linked point whose
  -- trimmed ID is a public ID.
  pub new_edge_device_with_kind_iff :
      (tenant event name : Text) (kind : EdgeDeviceKind) (names : List Text) (linked : Text) (s : S)
      → ((d : EdgeDevice) × ((new_edge_device_with_kind read tenant event name kind names linked
              s).0
            ≡ ok d))
        ↔ IsValidInput tenant event name kind names linked
  unfolding new_edge_device_with_kind
  new_edge_device_with_kind_iff tenant event name kind names linked s = (
    λ (d, h).
        IsNewDevice-IsValidInput tenant event name kind names linked d
          (new_edge_device_with_kind-IsNewDevice read tenant event name kind names linked s d h),
    λ v.
        let (d, made) =
          new_device_of_kind_total kind (trim_space tenant) (trim_space event) (trim_space name)
            names (trim_space linked) s v.valid_parts in
        (d, ground arith),
  )
