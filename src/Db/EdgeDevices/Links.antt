-- ===== src/Db/EdgeDevices/Links.antt =====
-- A camera has at most one point, and a point at most one camera.
use tolo_observation.Db.EdgeDevices.{
  insert_link, insert_camera_links, insert_device, insert_point, insert_points, create_rows,
  update_device, update_checked, save_points, delete_links, save_rows, postgres_devices,
}
use tolo_observation.Db.DeviceTables.{DeviceTables, CameraLinkRow, select, find_point_row}
use tolo_observation.Db.Transaction.Atomic.{
  IsSafe, run_in_transaction-IsAtomic, execute-StaysInside,
}
use tolo_observation.Db.Transaction.{Driver, execute, run_in_transaction}
use tolo_observation.Common.Keeps.{Keeps, keeps_rules, Keeps-bind, Keeps-pure}
use tolo_observation.Common.Result.{Action, ◌>>◌, pure}
use tolo_observation.Common.{
  ℕ, ◌==◌, ◌≡◌, refl, Bool, true, false, ◌||◌, none, List, [], ◌∷◌, ◌++◌, any, arith, Option-cases,
  inl, inr, subst, sym, if◌then◌else◌, Bool-cases,
}
use tolo_observation.EdgeDevice.{EdgeDevice, CameraLink, ObservationPoint}
use tolo_observation.GoTime.{Time}
use tolo_observation.TenantCtx.{Context}

abbrev clashes : ℕ → ℕ → CameraLinkRow → Bool
clashes camera point r = r.camera == camera || r.point == point

-- No two links share their camera or their point.
abbrev pub AreOneToOne : List CameraLinkRow → Type 0
AreOneToOne [] = Unit {0}
AreOneToOne (l ∷ links) = (any (clashes l.camera l.point) links ≡ false) × AreOneToOne links

abbrev pub IsLinked : DeviceTables → Type 0
IsLinked t = AreOneToOne t.links

any-snoc : {A : Type 0} (p : A → Bool) (l : List A) (a : A) → any p (l ++ (a ∷ [])) ≡ any p l || p a
any-snoc p [] a = ground arith
any-snoc p (b ∷ l) a = ground (arith, any-snoc p l a)

any-select :
    {A : Type 0} (p q : A → Bool) (l : List A) → any p l ≡ false → any p (select q l) ≡ false
any-select p q [] h = refl
any-select p q (a ∷ l) h = ground (arith, any-select p q l (ground (arith, h)), h)

snoc-AreOneToOne :
    (links : List CameraLinkRow) (c p : ℕ)
    → AreOneToOne links
    → any (clashes c p) links ≡ false
    → AreOneToOne (links ++ (record { camera = c; point = p } ∷ []))
snoc-AreOneToOne [] c p h free = (refl, tt)
snoc-AreOneToOne (l ∷ links) c p (apart, h) free = (
  ground (
    arith,
    any-snoc (clashes l.camera l.point) links (record { camera = c; point = p }),
    apart,
    free,
  ),
  snoc-AreOneToOne links c p h (ground (arith, free)),
)

select-AreOneToOne :
    (q : CameraLinkRow → Bool) (links : List CameraLinkRow)
    → AreOneToOne links
    → AreOneToOne (select q links)
select-AreOneToOne q [] h = tt
select-AreOneToOne q (l ∷ links) (apart, h) = elim (Bool-cases (q l)) [
  | inl u ↦
      let e : l ∷ select q links ≡ select q (l ∷ links) = ground (arith, u) in
      subst AreOneToOne e
        (any-select (clashes l.camera l.point) q links apart, select-AreOneToOne q links h)
  | inr u ↦
      let e : select q links ≡ select q (l ∷ links) = ground (arith, u) in
      subst AreOneToOne e (select-AreOneToOne q links h)
]

-- A step that leaves the links as they are.
leaves_links :
    {A : Type 0} (m : Action DeviceTables A)
    → ((t : DeviceTables) → (m t).1.links ≡ t.links)
    → Keeps IsLinked m
leaves_links m same = record { at = λ t h. subst AreOneToOne (sym (same t)) h }

insert_link-IsLinked :
    (camera : ℕ) (l : CameraLink) (t : DeviceTables)
    → IsLinked t
    → IsLinked (insert_link camera l t).1
unfolding insert_link
insert_link-IsLinked camera l t h = elim (Option-cases (find_point_row l.observation_point_id t)) [
  | inl u ↦ let e : t ≡ (insert_link camera l t).1 = ground (arith, u) in subst IsLinked e h
  | inr (p, u) ↦ elim (Bool-cases (any (clashes camera p.id) t.links)) [
    | inl v ↦ let e : t ≡ (insert_link camera l t).1 = ground (arith, u, v) in subst IsLinked e h
    | inr v ↦
        let e : record t { links = t.links ++ (record { camera = camera; point = p.id } ∷ []) }
            ≡ (insert_link camera l t).1 =
          ground (arith, u, v) in
        subst IsLinked e (snoc-AreOneToOne t.links camera p.id h v)
  ]
]

insert_link-Keeps : (camera : ℕ) (l : CameraLink) → Keeps IsLinked (insert_link camera l)
insert_link-Keeps camera l = record { at = insert_link-IsLinked camera l }

insert_camera_links-Keeps :
    (camera : ℕ) (links : List CameraLink) → Keeps IsLinked (insert_camera_links camera links)
unfolding insert_camera_links
insert_camera_links-Keeps camera [] = Keeps-pure tt
insert_camera_links-Keeps camera (l ∷ links) =
    Keeps-bind (insert_link camera l) _ (insert_link-Keeps camera l)
      (λ _. insert_camera_links-Keeps camera links)

module _ (stored : Time → Time) where
  delete_links-Keeps : (camera : ℕ) → Keeps IsLinked (delete_links stored camera)
  delete_links-Keeps camera = record { at = λ t h. select-AreOneToOne _ t.links h }

  insert_device-Keeps : (d : EdgeDevice) → Keeps IsLinked (insert_device stored d)
  unfolding insert_device
  insert_device-Keeps d = leaves_links (insert_device stored d) (λ t. ground arith)

  insert_point-Keeps : (n : ℕ) (p : ObservationPoint) → Keeps IsLinked (insert_point stored n p)
  unfolding insert_point
  insert_point-Keeps n p = leaves_links (insert_point stored n p) (λ t. ground arith)

  insert_points-Keeps :
      (n : ℕ) (points : List ObservationPoint) → Keeps IsLinked (insert_points stored n points)
  unfolding insert_points
  insert_points-Keeps n [] = Keeps-pure tt
  insert_points-Keeps n (p ∷ points) =
      Keeps-bind (insert_point stored n p) _ (insert_point-Keeps n p)
        (λ _. insert_points-Keeps n points)

  create_rows-Keeps : (d : EdgeDevice) → Keeps IsLinked (create_rows stored d)
  unfolding create_rows
  create_rows-Keeps d =
      search (keeps_rules, insert_device-Keeps, insert_points-Keeps, insert_camera_links-Keeps)

  update_checked-Keeps : (d : EdgeDevice) → Keeps IsLinked (update_checked stored d)
  unfolding update_checked update_device
  update_checked-Keeps d = leaves_links (update_checked stored d) (λ t. ground arith)

  save_points-Keeps :
      (n : ℕ) (points : List ObservationPoint) → Keeps IsLinked (save_points stored n points)
  save_points-Keeps n points = record { at = λ t h. h }

  save_links-Keeps :
      (b : Bool) (n : ℕ) (links : List CameraLink)
      → Keeps IsLinked
          (if b then (delete_links stored n >> insert_camera_links n links) else pure tt)
  save_links-Keeps true n links =
      Keeps-bind (delete_links stored n) _ (delete_links-Keeps n)
        (λ _. insert_camera_links-Keeps n links)
  save_links-Keeps false n links = Keeps-pure tt

  save_rows-Keeps : (d : EdgeDevice) → Keeps IsLinked (save_rows stored d)
  unfolding save_rows
  save_rows-Keeps d =
      search (keeps_rules, update_checked-Keeps, save_points-Keeps, save_links-Keeps)

run-IsLinked :
    {A : Type 0} (driver : Driver DeviceTables) (m : Action DeviceTables A) (t : DeviceTables)
    → IsSafe driver
    → Keeps IsLinked m
    → IsLinked t
    → IsLinked
        (run_in_transaction driver
          (execute m)
          (record { committed = t; transaction = none })).1.committed
unfolding execute
run-IsLinked driver m t safe keeps h =
    elim (run_in_transaction-IsAtomic driver (execute m) t safe
      (execute-StaysInside m)).all_or_nothing [
        | inl (_, _, _, u) ↦
            let e : (m t).1
                ≡ (run_in_transaction driver (execute m)
                    (record { committed = t; transaction = none })).1.committed =
              ground (arith, u) in
            subst IsLinked e (keeps.at t h)
        | inr (_, _, u) ↦ subst IsLinked (sym u) h
      ]

-- The tables after each of the calls that write links.
pub record StayLinked (stored : Time → Time) (driver : Driver DeviceTables) (ctx : Context)
    (d : EdgeDevice) (t : DeviceTables) : Type 0 where
  pub created :
      IsLinked
        ((postgres_devices stored driver ctx).create d
          (record { committed = t; transaction = none })).1.committed
  pub saved :
      IsLinked
        ((postgres_devices stored driver ctx).save d
          (record { committed = t; transaction = none })).1.committed

-- If a commit stores the work or fails without a trace, and no two links of the tables share a camera
-- or a point: the same holds after `Create` and after `Save` of any device, whatever links it has and
-- whether the call succeeds.
pub postgres_devices-StayLinked :
    (stored : Time → Time) (driver : Driver DeviceTables) (ctx : Context) (d : EdgeDevice)
    (t : DeviceTables)
    → IsSafe driver
    → IsLinked t
    → StayLinked stored driver ctx d t
postgres_devices-StayLinked stored driver ctx d t safe h = record {
  created = run-IsLinked driver (create_rows stored d) t safe (create_rows-Keeps stored d) h;
  saved = run-IsLinked driver (save_rows stored d) t safe (save_rows-Keeps stored d) h;
}
