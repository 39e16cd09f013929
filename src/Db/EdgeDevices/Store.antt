-- ===== src/Db/EdgeDevices/Store.antt =====
-- The PostgreSQL repository keeps the laws that the use cases assume of a store of devices.
use tolo_observation.Db.EdgeDevices.{
  insert_link, insert_camera_links, update_device, update_checked, save_points, delete_links,
  save_rows, postgres_devices,
}
use tolo_observation.Db.DeviceTables.{
  DeviceTables, EdgeDeviceRow, find_first, update_where, is_device, find_device, find_point_row,
  find_device_by_id, device_of_row, to_domain,
}
use tolo_observation.Db.Transaction.Atomic.{IsSafe}
use tolo_observation.Db.Transaction.{Driver, Session, execute, run_in_transaction, finish}
use tolo_observation.EdgeDeviceService.Cascade.{IsDeviceStore}
use tolo_observation.EdgeDeviceService.Unregister.{IsTransactional}
use tolo_observation.EdgeDevice.{EdgeDevice, EdgeDeviceId, CameraLink, is_camera, kind_string}
use tolo_observation.Common.Keeps.{Keeps, Keeps-bind, Keeps-pure}
use tolo_observation.Common.Result.{Action, Result, ok, err, Result-cases, ◌>>◌, pure}
use tolo_observation.Common.Text.{Text, text_eq, text_eq_iff, eq_of_text_eq}
use tolo_observation.Common.{
  ℕ, ◌≡◌, refl, Bool, true, false, Option, some, List, [], ◌∷◌, arith, if◌then◌else◌, get_or,
  Bool-cases, Option-cases, inl, inr, subst, ◌∙◌, ap,
}
use mathlib.Core.Option
use tolo_observation.GoTime.{Time}
use tolo_observation.TenantCtx.{Context, verify_ownership}

-- What a statement sees.
abbrev pub seen : {D : Type 0} → Session D → D
seen s = get_or s.transaction s.committed

module _ {D : Type 0} (driver : Driver D) (safe : IsSafe driver) where
  finish_ok :
      {A : Type 0} (before : D) (r : Result A) (left : Option D) (s' : Session D) (a : A)
      → finish driver before r left ≡ (ok a, s')
      → (r ≡ ok a) × (seen s' ≡ get_or left before)
  unfolding finish
  finish_ok before (err e) left s' a h = cc
  finish_ok before (ok b) left s' a h = elim (safe before (get_or left before)) [
    | inl c ↦ (ground (arith, c, h), ground (arith, c, h))
    | inr (e, c) ↦ ground (arith, c, h)
  ]

  pub run_ok :
      {A : Type 0} (m : Action (Session D) A) (s s' : Session D) (a : A)
      → run_in_transaction driver m s ≡ (ok a, s')
      → (o : Session D) × (o' : Session D) × (seen o ≡ seen s)
        × (m o ≡ (ok a, o'))
        × (seen s' ≡ seen o')
  unfolding run_in_transaction
  run_ok m s s' a h = elim (Option-cases s.transaction) [
    | inr (d, u) ↦ (s, s', refl, ground (arith, u, h), refl)
    | inl u ↦ elim (Result-cases (driver.begin_with s.committed)) [
      | inr (e, v) ↦ ground (arith, u, v, h)
      | inl (_, v) ↦
          let o : Session D = record s { transaction = some s.committed } in
          let w =
            finish_ok (m o).1.committed (m o).0 (m o).1.transaction s' a
              (ground (arith, u, v, h)) in
          (o, (m o).1, ground (arith, u), ground (arith, w.0), w.1)
    ]
  ]

-- The flag of a device in the tables.
abbrev pub stored_flag : DeviceTables → EdgeDeviceId → Option Bool
stored_flag t id = Option.map (λ (r : EdgeDeviceRow). r.unregistered) (find_device id t)

find_first-id :
    (id : Text) (rows : List EdgeDeviceRow) (r : EdgeDeviceRow)
    → find_first (is_device id) rows ≡ some r
    → r.edge_device_id ≡ id
find_first-id id [] r h = cc
find_first-id id (x ∷ rows) r h = elim (Bool-cases (text_eq x.edge_device_id id)) [
  | inl u ↦ ground (arith, h, u, eq_of_text_eq x.edge_device_id id u)
  | inr u ↦ find_first-id id rows r (ground (arith, h, u))
]

find_device_by_id_ok :
    (ctx : Context) (id : EdgeDeviceId) (t t' : DeviceTables) (d : EdgeDevice)
    → find_device_by_id ctx id t ≡ (ok d, t')
    → (t' ≡ t) × (d.id ≡ id) × (stored_flag t id ≡ some d.unregistered)
unfolding find_device_by_id device_of_row to_domain
find_device_by_id_ok ctx id t t' d h = elim (Option-cases (find_device id t)) [
  | inl u ↦ ground (arith, h, u)
  | inr (r, u) ↦ elim (Result-cases (verify_ownership ctx r.tenant_public_id)) [
    | inr (e, v) ↦ ground (arith, h, u, v)
    | inl (_, v) ↦ (
      ground (arith, h, u, v),
      ground (arith, h, u, v, find_first-id id t.devices r u),
      ground (arith, h, u, v),
    )
  ]
]

-- A step that leaves the rows of devices.
abbrev SameDevices : List EdgeDeviceRow → DeviceTables → Type 0
SameDevices rows t = t.devices ≡ rows

insert_link-SameDevices :
    (rows : List EdgeDeviceRow) (camera : ℕ) (l : CameraLink) (t : DeviceTables)
    → SameDevices rows t
    → SameDevices rows (insert_link camera l t).1
unfolding insert_link
insert_link-SameDevices rows camera l t h =
    elim (Option-cases (find_point_row l.observation_point_id t)) [
      | inl u ↦ ground (arith, u, h)
      | inr (p, u) ↦ ground (arith, u, h)
    ]

insert_camera_links-SameDevices :
    (rows : List EdgeDeviceRow) (camera : ℕ) (links : List CameraLink)
    → Keeps (SameDevices rows) (insert_camera_links camera links)
unfolding insert_camera_links
insert_camera_links-SameDevices rows camera [] = Keeps-pure tt
insert_camera_links-SameDevices rows camera (l ∷ links) =
    Keeps-bind (insert_link camera l) _ (record { at = insert_link-SameDevices rows camera l })
      (λ _. insert_camera_links-SameDevices rows camera links)

module _ (stored : Time → Time) where
  abbrev set_row : EdgeDevice → EdgeDeviceRow → EdgeDeviceRow
  set_row d o = record o {
    name = d.name;
    unregistered = d.unregistered;
    last_heartbeat_at = Option.map stored d.last_heartbeat_at;
    kind = kind_string d.kind;
  }

  set_row-flag :
      (d : EdgeDevice) (j : Text) (rows : List EdgeDeviceRow)
      → Option.map
          (λ (r : EdgeDeviceRow). r.unregistered)
          (find_first (is_device j) (update_where (is_device d.id) (set_row d) rows))
        ≡ (if text_eq j d.id
            then Option.map (λ (r : EdgeDeviceRow). d.unregistered) (find_first (is_device j) rows)
            else Option.map (λ (r : EdgeDeviceRow). r.unregistered) (find_first (is_device j) rows))
  set_row-flag d j [] = ground arith
  set_row-flag d j (r ∷ rows) = ground (
    arith,
    set_row-flag d j rows,
    text_eq_iff r.edge_device_id j,
    text_eq_iff r.edge_device_id d.id,
    text_eq_iff j d.id,
  )

  update_checked_ok :
      (d : EdgeDevice) (t t' : DeviceTables) (n : ℕ)
      → update_checked stored d t ≡ (ok n, t')
      → ((r : EdgeDeviceRow) × (find_device d.id t ≡ some r))
        × (t'.devices ≡ update_where (is_device d.id) (set_row d) t.devices)
  unfolding update_checked update_device
  update_checked_ok d t t' n h = elim (Option-cases (find_device d.id t)) [
    | inl u ↦ ground (arith, h, u)
    | inr (r, u) ↦ ((r, u), ground (arith, h, u))
  ]

  -- What `Save` does after it has written the row of the device.
  abbrev save_parts : EdgeDevice → ℕ → Action DeviceTables (Unit {0})
  save_parts d n =
      save_points stored n d.observation_points
      >> (if is_camera d.kind
          then (delete_links stored n >> insert_camera_links n d.camera_links)
          else pure tt)

  save_links-SameDevices :
      (rows : List EdgeDeviceRow) (b : Bool) (n : ℕ) (links : List CameraLink)
      → Keeps
          (SameDevices rows)
          (if b then (delete_links stored n >> insert_camera_links n links) else pure tt)
  save_links-SameDevices rows true n links =
      Keeps-bind (delete_links stored n) _ (record { at = λ t h. h })
        (λ _. insert_camera_links-SameDevices rows n links)
  save_links-SameDevices rows false n links = Keeps-pure tt

  save_parts-SameDevices :
      (rows : List EdgeDeviceRow) (d : EdgeDevice) (n : ℕ)
      → Keeps (SameDevices rows) (save_parts d n)
  save_parts-SameDevices rows d n =
      Keeps-bind (save_points stored n d.observation_points) _ (record { at = λ t h. h })
        (λ _. save_links-SameDevices rows (is_camera d.kind) n d.camera_links)

  save_rows_ok :
      (d : EdgeDevice) (t t' : DeviceTables)
      → save_rows stored d t ≡ (ok tt, t')
      → ((r : EdgeDeviceRow) × (find_device d.id t ≡ some r))
        × (t'.devices ≡ update_where (is_device d.id) (set_row d) t.devices)
  unfolding save_rows
  save_rows_ok d t t' h = elim (Result-cases (update_checked stored d t).0) [
    | inr (e, u) ↦ ground (arith, h, u)
    | inl (n, u) ↦
        let t1 = (update_checked stored d t).1 in
        let w = update_checked_ok d t t1 n (ground (arith, u)) in
        let q : save_rows stored d t ≡ save_parts d n t1 = ground (arith, u) in
        let same = (save_parts-SameDevices t1.devices d n).at t1 refl in
        let ends : (save_parts d n t1).1 ≡ t' = ground (arith, q, h) in
        (w.0, subst (SameDevices t1.devices) ends same ∙ w.1)
  ]

  save_rows-flag :
      (d : EdgeDevice) (t t' : DeviceTables) (j : EdgeDeviceId)
      → save_rows stored d t ≡ (ok tt, t')
      → stored_flag t' j ≡ (if text_eq j d.id then some d.unregistered else stored_flag t j)
  save_rows-flag d t t' j h =
      let ((r, found), same) = save_rows_ok d t t' h in
      let flags : stored_flag t' j ≡ _ =
        ap
          (λ (rows : List EdgeDeviceRow).
            Option.map (λ (x : EdgeDeviceRow). x.unregistered) (find_first (is_device j) rows))
          same
        ∙ set_row-flag d j t.devices in
      elim (Bool-cases (text_eq j d.id)) [
        | inl u ↦
            let q : find_device j t ≡ some r =
              ap (λ (x : Text). find_device x t) (eq_of_text_eq j d.id u) ∙ found in
            ground (arith, flags, u, q)
        | inr u ↦ ground (arith, flags, u)
      ]

  module _ (driver : Driver DeviceTables) (ctx : Context) where
    -- A transaction of PostgreSQL keeps the law of transactions, if a commit stores the work or fails
    -- without a trace.
    pub postgres_devices-IsTransactional :
        IsSafe driver → IsTransactional (postgres_devices stored driver ctx) seen
    postgres_devices-IsTransactional safe = record {
      commits = λ m s s' a h. run_ok driver safe m s s' a h;
    }

    find-seen :
        (id : EdgeDeviceId) (s s' : Session DeviceTables) (d : EdgeDevice)
        → execute (find_device_by_id ctx id) s ≡ (ok d, s')
        → (seen s' ≡ seen s) × (d.id ≡ id) × (stored_flag (seen s) id ≡ some d.unregistered)
    unfolding execute
    find-seen id s s' d h =
        let w = find_device_by_id_ok ctx id (seen s) (find_device_by_id ctx id (seen s)).1 d in
        elim (Option-cases s.transaction) [
          | inl u ↦
              let found = w (ground (arith, u, h)) in
              (ground (arith, u, h, found.0), found.1, found.2)
          | inr (t, u) ↦
              let found = w (ground (arith, u, h)) in
              (ground (arith, u, h, found.0), found.1, found.2)
        ]

    pub execute-seen :
        {A : Type 0} (m : Action DeviceTables A) (s s' : Session DeviceTables) (a : A)
        → execute m s ≡ (ok a, s')
        → m (seen s) ≡ (ok a, seen s')
    unfolding execute
    execute-seen m s s' a h = elim (Option-cases s.transaction) [
      | inl u ↦ ground (arith, u, h)
      | inr (t, u) ↦ ground (arith, u, h)
    ]

    -- If a commit stores the work or fails without a trace, the repository keeps the laws of a store.
    pub postgres_devices-IsDeviceStore :
        IsSafe driver → IsDeviceStore (postgres_devices stored driver ctx) seen stored_flag
    postgres_devices-IsDeviceStore safe = record {
      found_same = λ id s s' d h. (find-seen id s s' d h).0;
      found_id = λ id s s' d h. (find-seen id s s' d h).1;
      found_flag = λ id s s' d h. (find-seen id s s' d h).2;
      saved = λ d s s' j h.
          let (o, o', begun, ran, ended) =
            run_ok driver safe (execute (save_rows stored d)) s s' tt h in
          let flag =
            save_rows-flag d (seen o) (seen o') j (execute-seen (save_rows stored d) o o' tt ran) in
          ground (arith, flag, begun, ended);
    }
