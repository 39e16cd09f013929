-- ===== src/EdgeDeviceService/Link.antt =====
-- Which cameras may be linked, and the device that registering creates.
use tolo_observation.EdgeDeviceService.{check_camera_link, is_linked, ok}
use tolo_observation.EdgeDevice.{EdgeDevice, is_camera, CameraLink, ObservationPointId}
use tolo_observation.Common.Text.{Text, text_eq_iff}
use tolo_observation.Common.{◌≡◌, refl, false, List, [], ◌∷◌, arith, All, ◌↔◌, ◌≢◌}

-- The owner of a point can take a camera there.
pub record MayLink (event : Text) (id : ObservationPointId) (owner : EdgeDevice) : Type 0 where
  pub of_event : owner.event_id ≡ event
  pub no_camera : is_camera owner.kind ≡ false
  pub registered : owner.unregistered ≡ false
  pub none_yet : All (λ (l : CameraLink). l.observation_point_id ≢ id) owner.camera_links

is_linked_iff :
    (id : ObservationPointId) (links : List CameraLink)
    → (is_linked id links ≡ false) ↔ All (λ (l : CameraLink). l.observation_point_id ≢ id) links
is_linked_iff id [] = (λ h. tt, λ h. refl)
is_linked_iff id (l ∷ links) =
    let (to, from) = is_linked_iff id links in
    let (same, of_same) = text_eq_iff l.observation_point_id id in
    ground (arith, to, from, same, of_same)

-- A camera may be linked to a point exactly if the device that has the point is of the event, is no
-- camera, is registered, and has no camera linked to that point yet.
pub check_camera_link_iff :
    (event : Text) (id : ObservationPointId) (owner : EdgeDevice)
    → (check_camera_link event id owner ≡ ok tt) ↔ MayLink event id owner
unfolding check_camera_link
check_camera_link_iff event id owner =
    let (same_event, of_same) = text_eq_iff owner.event_id event in
    let (free, of_free) = is_linked_iff id owner.camera_links in
    (
      λ h. ground (arith, same_event, free, h),
      λ g. ground (arith, of_same g.of_event, of_free g.none_yet, g.no_camera, g.registered),
    )
