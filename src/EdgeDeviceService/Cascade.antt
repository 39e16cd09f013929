-- ===== src/EdgeDeviceService/Cascade.antt =====
-- What unregistering the linked cameras does to the stored devices, over the laws that a store of
-- devices keeps whether or not its statements succeed.
use tolo_observation.EdgeDeviceService.{EdgeDeviceRepository, unregister_camera, unregister_cameras}
use tolo_observation.EdgeDevice.{EdgeDevice, EdgeDeviceId, unregister, contains}
use tolo_observation.Common.Result.{ok, Result-cases}
use tolo_observation.Common.Text.{text_eq, text_eq_iff}
use tolo_observation.Common.{
  ◌≡◌, Bool, true, false, Option, some, List, [], ◌∷◌, arith, if◌then◌else◌, Bool-cases, inl, inr,
}

-- What is stored, as the calls of a repository see it, and of each device whether it is unregistered:
-- a device that was found is stored with its flag, and a save that succeeds stores the flag of the
-- device and of no other.
pub record IsDeviceStore {S D : Type 0} (devices : EdgeDeviceRepository S) (sees : S → D)
    (flag : D → EdgeDeviceId → Option Bool) : Type 0 where
  pub found_same :
      (id : EdgeDeviceId) (s s' : S) (d : EdgeDevice)
      → devices.find_by_id_for_update id s ≡ (ok d, s')
      → sees s' ≡ sees s
  pub found_id :
      (id : EdgeDeviceId) (s s' : S) (d : EdgeDevice)
      → devices.find_by_id_for_update id s ≡ (ok d, s')
      → d.id ≡ id
  pub found_flag :
      (id : EdgeDeviceId) (s s' : S) (d : EdgeDevice)
      → devices.find_by_id_for_update id s ≡ (ok d, s')
      → flag (sees s) id ≡ some d.unregistered
  pub saved :
      (d : EdgeDevice) (s s' : S) (j : EdgeDeviceId)
      → devices.save d s ≡ (ok tt, s')
      → flag (sees s') j ≡ (if text_eq j d.id then some d.unregistered else flag (sees s) j)

pub unregister_ok :
    (d d' : EdgeDevice) → unregister d ≡ ok d' → (d'.id ≡ d.id) × (d'.unregistered ≡ true)
unfolding unregister
unregister_ok d d' h = ground (arith, h)

unregister-registered :
    (d : EdgeDevice)
    → d.unregistered ≡ false
    → (d' : EdgeDevice) × (unregister d ≡ ok d') × (d'.id ≡ d.id) × (d'.unregistered ≡ true)
unfolding unregister
unregister-registered d h = elim (Result-cases (unregister d)) [
  | inl (d', u) ↦ let left = unregister_ok d d' u in (d', u, left.0, left.1)
  | inr (e, u) ↦ ground (arith, h, u)
]

module _ {S D : Type 0} (devices : EdgeDeviceRepository S) (sees : S → D)
    (flag : D → EdgeDeviceId → Option Bool) (store : IsDeviceStore devices sees flag) where
  unregister_camera-found :
      (id : EdgeDeviceId) (s s' t : S) (d : EdgeDevice) (j : EdgeDeviceId)
      → devices.find_by_id_for_update id s ≡ (ok d, t)
      → unregister_camera devices id s ≡ (ok tt, s')
      → flag (sees s') j ≡ (if text_eq j id then some true else flag (sees s) j)
  unfolding unregister_camera
  unregister_camera-found id s s' t d j found h = elim (Bool-cases d.unregistered) [
    | inl gone ↦
        let same : t ≡ s' = ground (arith, found, gone, h) in
        ground (
          arith,
          same,
          store.found_same id s t d found,
          store.found_flag id s t d found,
          gone,
          text_eq_iff j id,
        )
    | inr here ↦
        let (d', u, own, off) = unregister-registered d here in
        elim (Result-cases (devices.save d' t).0) [
          | inr (e, v) ↦ ground (arith, found, here, u, v, h)
          | inl (_, v) ↦
              let done : devices.save d' t ≡ (ok tt, s') = ground (arith, found, here, u, v, h) in
              ground (
                arith,
                store.saved d' t s' j done,
                store.found_same id s t d found,
                store.found_id id s t d found,
                own,
                off,
              )
        ]
  ]

  unregister_camera-flag :
      (id : EdgeDeviceId) (s s' : S) (j : EdgeDeviceId)
      → unregister_camera devices id s ≡ (ok tt, s')
      → flag (sees s') j ≡ (if text_eq j id then some true else flag (sees s) j)
  unfolding unregister_camera
  unregister_camera-flag id s s' j h = elim (Result-cases (devices.find_by_id_for_update id s).0) [
    | inr (e, u) ↦ ground (arith, h, u)
    | inl (d, u) ↦
        unregister_camera-found id s s' (devices.find_by_id_for_update id s).1 d j
          (ground (arith, u)) h
  ]

  -- Over a repository that keeps the laws of a device store: if the loop over the cameras succeeds,
  -- each device with one of the IDs is stored as unregistered, however often its ID comes, and the
  -- flag of no other device has changed.
  pub unregister_cameras-Cascades :
      (ids : List EdgeDeviceId) (s s' : S) (j : EdgeDeviceId)
      → unregister_cameras devices ids s ≡ (ok tt, s')
      → flag (sees s') j ≡ (if contains ids j then some true else flag (sees s) j)
  unfolding unregister_cameras
  unregister_cameras-Cascades [] s s' j h = ground (arith, h)
  unregister_cameras-Cascades (id ∷ ids) s s' j h =
      elim (Result-cases (unregister_camera devices id s).0) [
        | inr (e, u) ↦ ground (arith, h, u)
        | inl (_, u) ↦
            let t = (unregister_camera devices id s).1 in
            ground (
              arith,
              unregister_camera-flag id s t j (ground (arith, u)),
              unregister_cameras-Cascades ids t s' j (ground (arith, u, h)),
            )
      ]
