-- ===== src/EdgeDeviceService/Unregister.antt =====
-- What unregistering a device does to the stored devices.
use tolo_observation.EdgeDeviceService.{
  EdgeDeviceRepository, EdgeDeviceView, linked_camera_ids, Time,
}
use tolo_observation.EdgeDeviceService.Cascade.{IsDeviceStore}
use tolo_observation.EdgeDevice.{
  EdgeDevice, EdgeDeviceId, ObservationPoint, contains, is_page, is_camera,
}
use tolo_observation.Common.Result.{ok, Action}
use tolo_observation.Common.Text.{Text, text_eq}
use tolo_observation.Common.{
  ◌≡◌, Bool, true, false, Option, some, [], if◌then◌else◌, map, ◌&&◌, ◌||◌,
}

-- A transaction that answers without an error ran its function, in a session that saw what is stored,
-- and then what the function left is stored. Of a transaction that fails nothing is said.
pub record IsTransactional {S D : Type 0} (devices : EdgeDeviceRepository S) (sees : S → D)
    : Type 1 where
  pub commits :
      {A : Type 0} (m : Action S A) (s s' : S) (a : A)
      → devices.within_transaction m s ≡ (ok a, s')
      → (o : S) × (o' : S) × (sees o ≡ sees s) × (m o ≡ (ok a, o')) × (sees s' ≡ sees o')

-- A clock does not change what is stored.
abbrev pub LeavesStored : {S D : Type 0} → Action S Time → (S → D) → Type 0
LeavesStored {S} clock sees = (s : S) → sees (clock s).1 ≡ sees s

-- A device after it was unregistered: a camera and a page without links, a page with its points
-- switched off.
abbrev pub dropped : EdgeDevice → EdgeDevice
dropped d = record d {
  unregistered = true;
  camera_links = if is_camera d.kind || is_page d.kind then [] else d.camera_links;
  observation_points =
      if is_camera d.kind
      then d.observation_points
      else map (λ (p : ObservationPoint). record p { enabled = false }) d.observation_points;
}

-- What the device's own method leaves: the links of a page stay.
abbrev kept : EdgeDevice → EdgeDevice
kept d = record (dropped d) { camera_links = if is_camera d.kind then [] else d.camera_links }

module _ {S D : Type 0} (devices : EdgeDeviceRepository S) (sees : S → D)
    (flag : D → EdgeDeviceId → Option Bool) (store : IsDeviceStore devices sees flag)
    (clock : Action S Time) (leaves : LeavesStored clock sees) where
  -- The flags of the stored devices after a device was unregistered with the cameras of its links.
  abbrev pub flags_after : EdgeDevice → D → EdgeDeviceId → Option Bool
  flags_after d t j =
      if text_eq j d.id
      then some true
      else if is_page d.kind && contains (linked_camera_ids d.camera_links) j
      then some true
      else flag t j

  -- The answer, and the stored devices afterwards.
  pub record Unregisters (event : Text) (id : EdgeDeviceId) (s s' : S) (v : EdgeDeviceView)
      : Type 0 where
    pub device : EdgeDevice
    pub own : device.id ≡ id
    pub of_event : device.event_id ≡ event
    pub registered : device.unregistered ≡ false
    pub answer : v ≡ record { device = dropped device; is_online = false }
    pub found :
        (o : S) × (o' : S) × (sees o ≡ sees s)
        × (devices.find_by_id_for_update id o ≡ (ok device, o'))
    pub flags : (j : EdgeDeviceId) → flag (sees s') j ≡ flags_after device (sees s) j
