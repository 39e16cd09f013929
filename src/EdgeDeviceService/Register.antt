-- ===== src/EdgeDeviceService/Register.antt =====
-- What a camera that is registered is linked to.
use tolo_observation.EdgeDeviceService.{
  EdgeDeviceRepository, validate_camera_link, create_device, Text,
}
use tolo_observation.EdgeDeviceService.Unregister.{IsTransactional}
use tolo_observation.EdgeDeviceService.Link.{MayLink, check_camera_link_iff}
use tolo_observation.EdgeDevice.{EdgeDevice, CameraLink, is_camera}
use tolo_observation.Common.Result.{ok, Result-cases, Action, ◌>>◌, wrap_err}
use tolo_observation.Common.{◌≡◌, true, List, ◌∷◌, arith, inr, inl}

module _ {S : Type 0} (devices : EdgeDeviceRepository S) where
  -- The stored owner of the link's point can take the camera.
  pub record IsLinkable (event : Text) (link : CameraLink) (s : S) : Type 0 where
    pub owner : EdgeDevice
    pub found :
        (devices.find_by_observation_point_id_for_update link.observation_point_id s).0 ≡ ok owner
    pub allowed : MayLink event link.observation_point_id owner

  validate_camera_link_ok :
      (event : Text) (link : CameraLink) (s : S)
      → (validate_camera_link devices event link s).0 ≡ ok tt
      → IsLinkable event link s
  unfolding validate_camera_link
  validate_camera_link_ok event link s h =
      elim (Result-cases
        (devices.find_by_observation_point_id_for_update link.observation_point_id s).0) [
          | inr (e, u) ↦ ground (arith, h, u)
          | inl (d, u) ↦ record {
            owner = d;
            found = u;
            allowed =
                (check_camera_link_iff event link.observation_point_id d).0 (ground (arith, h, u));
          }
        ]

  -- The function that runs in the transaction of a camera's registration.
  abbrev link_and_create : Text → EdgeDevice → CameraLink → Action S (Unit {0})
  link_and_create event d link = do
    validate_camera_link devices event link
    wrap_err "create edge device" (devices.create d)

  link_and_create_ok :
      (event : Text) (d : EdgeDevice) (link : CameraLink) (s : S)
      → (link_and_create event d link s).0 ≡ ok tt
      → IsLinkable event link s
  link_and_create_ok event d link s h =
      elim (Result-cases (validate_camera_link devices event link s).0) [
        | inr (e, u) ↦ ground (arith, h, u)
        | inl (_, u) ↦ validate_camera_link_ok event link s (ground (arith, u))
      ]

  -- In a repository that keeps the laws of transactions, a camera is created only if, by what was
  -- stored when it was to be created, the device that has the linked point is of the event, is no
  -- camera, is registered, and has no camera linked to that point yet.
  pub create_device-IsLinkable :
      {D : Type 0} (sees : S → D) (transactional : IsTransactional devices sees) (event : Text)
      (d : EdgeDevice) (link : CameraLink) (links : List CameraLink) (s s' : S)
      → is_camera d.kind ≡ true
      → d.camera_links ≡ link ∷ links
      → create_device devices event d s ≡ (ok tt, s')
      → (o : S) × (sees o ≡ sees s) × IsLinkable event link o
  unfolding create_device
  create_device-IsLinkable sees transactional event d link links s s' is_one own h =
      let m = link_and_create event d link in
      let body : devices.within_transaction m s ≡ (ok tt, s') = ground (arith, h, is_one, own) in
      let (o, o', begun, ran, ended) = transactional.commits m s s' tt body in
      (o, begun, link_and_create_ok event d link o (ground (arith, ran)))
