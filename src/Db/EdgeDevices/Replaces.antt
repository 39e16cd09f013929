-- ===== src/Db/EdgeDevices/Replaces.antt =====
-- What saving a camera does to the table of links.
use tolo_observation.Db.EdgeDevices.{
  insert_link, insert_camera_links, update_device, update_checked, save_points, delete_links,
  save_rows, postgres_devices,
}
use tolo_observation.Db.EdgeDevices.Store.{seen, run_ok, execute-seen}
use tolo_observation.Db.DeviceTables.{
  DeviceTables, EdgeDeviceRow, ObservationPointRow, CameraLinkRow, find_first, select, is_point,
  find_device, find_point_row,
}
use tolo_observation.Db.Transaction.Atomic.{IsSafe}
use tolo_observation.Db.Transaction.{Driver, Session, execute}
use tolo_observation.EdgeDevice.{EdgeDevice, CameraLink, is_camera}
use tolo_observation.Common.Result.{ok, Result-cases}
use tolo_observation.Common.{
  ℕ, ◌==◌, ◌||◌, ◌≡◌, refl, true, some, List, [], ◌∷◌, ◌++◌, arith, not, any, Bool-cases,
  Option-cases, inl, inr, subst, sym, ◌∙◌, ap,
}
use mathlib.Core.List.{append_assoc, append-nil}
use tolo_observation.GoTime.{Time}
use tolo_observation.TenantCtx.{Context}

-- The rows of a camera for some links: each has the row of its point.
abbrev pub AreFor : List ObservationPointRow → ℕ → List CameraLink → List CameraLinkRow → Type 0
AreFor points camera [] [] = Unit {0}
AreFor points camera [] (x ∷ rows) = ⊥
AreFor points camera (l ∷ links) [] = ⊥
AreFor points camera (l ∷ links) (x ∷ rows) =
    ((p : ObservationPointRow) × (find_first (is_point l.observation_point_id) points ≡ some p)
      × (x ≡ record { camera = camera; point = p.id }))
    × AreFor points camera links rows

-- The links of the camera are replaced, and those of the others stay.
pub record ReplacesLinks (camera : ℕ) (links : List CameraLink) (t t' : DeviceTables) : Type 0 where
  pub new : List CameraLinkRow
  pub replaced : t'.links ≡ select (λ (r : CameraLinkRow). not (r.camera == camera)) t.links ++ new
  pub are_for : AreFor t'.points camera links new

insert_link_ok :
    (camera : ℕ) (l : CameraLink) (t t' : DeviceTables)
    → insert_link camera l t ≡ (ok tt, t')
    → (p : ObservationPointRow) × (find_point_row l.observation_point_id t ≡ some p)
      × (t'.links ≡ t.links ++ (record { camera = camera; point = p.id } ∷ []))
      × (t'.points ≡ t.points)
unfolding insert_link
insert_link_ok camera l t t' h = elim (Option-cases (find_point_row l.observation_point_id t)) [
  | inl u ↦ ground (arith, h, u)
  | inr (p, u) ↦
      elim (Bool-cases
        (any (λ (r : CameraLinkRow). r.camera == camera || r.point == p.id) t.links)) [
          | inl v ↦ ground (arith, h, u, v)
          | inr v ↦ (p, u, ground (arith, h, u, v), ground (arith, h, u, v))
        ]
]

insert_camera_links_ok :
    (camera : ℕ) (links : List CameraLink) (t t' : DeviceTables)
    → insert_camera_links camera links t ≡ (ok tt, t')
    → (new : List CameraLinkRow) × (t'.links ≡ t.links ++ new)
      × (t'.points ≡ t.points)
      × AreFor t.points camera links new
unfolding insert_camera_links
insert_camera_links_ok camera [] t t' h =
    ([], rw append-nil (ground (arith, h)), ground (arith, h), tt)
insert_camera_links_ok camera (l ∷ links) t t' h = elim (Result-cases (insert_link camera l t).0) [
  | inr (e, u) ↦ ground (arith, h, u)
  | inl (_, u) ↦
      let t1 = (insert_link camera l t).1 in
      let (p, found, here, same) = insert_link_ok camera l t t1 (ground (arith, u)) in
      let (new, links', points', are) =
        insert_camera_links_ok camera links t1 t' (ground (arith, h, u)) in
      let x : CameraLinkRow = record { camera = camera; point = p.id } in
      (
        x ∷ new,
        links' ∙ ap (λ (r : List CameraLinkRow). r ++ new) here ∙ append_assoc t.links (x ∷ []) new,
        points' ∙ same,
        ((p, found, refl), subst (λ ps. AreFor ps camera links new) same are),
      )
]

module _ (stored : Time → Time) where
  update_checked-links :
      (d : EdgeDevice) (t t' : DeviceTables) (n : ℕ)
      → update_checked stored d t ≡ (ok n, t')
      → (r : EdgeDeviceRow) × (find_device d.id t ≡ some r) × (n ≡ r.id) × (t'.links ≡ t.links)
  unfolding update_checked update_device
  update_checked-links d t t' n h = elim (Option-cases (find_device d.id t)) [
    | inl u ↦ ground (arith, h, u)
    | inr (r, u) ↦ (r, u, ground (arith, h, u), ground (arith, h, u))
  ]

  save_rows-ReplacesLinks :
      (d : EdgeDevice) (t t' : DeviceTables)
      → is_camera d.kind ≡ true
      → save_rows stored d t ≡ (ok tt, t')
      → (r : EdgeDeviceRow) × (find_device d.id t ≡ some r) × ReplacesLinks r.id d.camera_links t t'
  unfolding save_rows
  save_rows-ReplacesLinks d t t' is_one h = elim (Result-cases (update_checked stored d t).0) [
    | inr (e, u) ↦ ground (arith, h, u)
    | inl (n, u) ↦
        let t1 = (update_checked stored d t).1 in
        let (r, found, row, same) = update_checked-links d t t1 n (ground (arith, u)) in
        let t2 = (save_points stored n d.observation_points t1).1 in
        let t3 = (delete_links stored n t2).1 in
        let q : save_rows stored d t ≡ insert_camera_links n d.camera_links t3 =
          ground (arith, u, is_one) in
        let (new, links, points, are) = insert_camera_links_ok n d.camera_links t3 t' (sym q ∙ h) in
        let keep =
          λ (x : List CameraLinkRow). select (λ (l : CameraLinkRow). not (l.camera == n)) x in
        let made : ReplacesLinks n d.camera_links t t' = record {
          new = new;
          replaced = links ∙ ap (λ (x : List CameraLinkRow). keep x ++ new) same;
          are_for = subst (λ ps. AreFor ps n d.camera_links new) (sym points) are;
        } in
        (r, found, subst (λ (m : ℕ). ReplacesLinks m d.camera_links t t') row made)
  ]

  -- If a commit stores the work or fails without a trace: when saving a camera succeeds, the links of
  -- the camera's row are afterwards just the device's, in their order, each to the stored row of its
  -- point, whatever links the row had before; and the links of all other cameras are as before.
  pub save-ReplacesLinks :
      (driver : Driver DeviceTables) (ctx : Context) (d : EdgeDevice) (s s' : Session DeviceTables)
      → IsSafe driver
      → is_camera d.kind ≡ true
      → (postgres_devices stored driver ctx).save d s ≡ (ok tt, s')
      → (r : EdgeDeviceRow) × (find_device d.id (seen s) ≡ some r)
        × ReplacesLinks r.id d.camera_links (seen s) (seen s')
  save-ReplacesLinks driver ctx d s s' safe is_one h =
      let m = execute (save_rows stored d) in
      let (o, o', begun, ran, ended) = run_ok driver safe m s s' tt h in
      let (r, found, w) =
        save_rows-ReplacesLinks d (seen o) (seen o') is_one
          (execute-seen stored driver ctx (save_rows stored d) o o' tt ran) in
      (
        r,
        ap (λ (t : DeviceTables). find_device d.id t) (sym begun) ∙ found,
        subst (λ (t : DeviceTables). ReplacesLinks r.id d.camera_links t (seen s')) begun
            (subst (λ (t : DeviceTables). ReplacesLinks r.id d.camera_links (seen o) t) (sym ended)
              w),
      )
