-- ===== src/Db/Measurements/Resend.antt =====
-- Measurements that are sent again are accepted once, and no two rows share a key.
use tolo_observation.Db.Measurements.{
  MeasurementRow, has_key, same_key, insert_measurement, row_of, is_storable, record_one,
  record_from, record_all, find_accepted, ℤ, Float, eq_ℤ, Time, Text, is_empty, ok, pos,
}
use tolo_observation.Db.Transaction.{Session, Driver}
use tolo_observation.Db.Transaction.Atomic.{IsReliable, execute_ok, of_execute_ok}
use tolo_observation.Measurement.{Measurement}
use tolo_observation.Common.{
  ◌≡◌, refl, Bool, true, false, none, List, [], ◌∷◌, arith, any, All, Bool-cases, ◌++◌, inl, ◌||◌,
  inr, subst, sym,
}
use tolo_observation.Common.Text.{text_eq_refl}
use tolo_observation.Common.Result.{Result-cases}

eq_ℤ_refl : (x : ℤ) → eq_ℤ x x ≡ true
eq_ℤ_refl x = ground arith

any-append : {A : Type 0} (p : A → Bool) (xs ys : List A) → any p (xs ++ ys) ≡ any p xs || any p ys
any-append p [] ys = refl
any-append p (x ∷ xs) ys = ground (arith, any-append p xs ys)

module _ {F : Type 0} where
  -- No row has the key of one before it.
  abbrev pub HaveDistinctKeys : List (MeasurementRow F) → Type 0
  HaveDistinctKeys [] = Unit
  HaveDistinctKeys (r ∷ rows) =
      All (λ (x : MeasurementRow F). same_key x r ≡ false) rows × HaveDistinctKeys rows

  All-snoc :
      (P : MeasurementRow F → Type 0) (rows : List (MeasurementRow F)) (new : MeasurementRow F)
      → All P rows
      → P new
      → All P (rows ++ (new ∷ []))
  All-snoc P [] new h p = (p, tt)
  All-snoc P (r ∷ rows) new (q, h) p = (q, All-snoc P rows new h p)

  snoc-HaveDistinctKeys :
      (rows : List (MeasurementRow F)) (new : MeasurementRow F)
      → any (same_key new) rows ≡ false
      → HaveDistinctKeys rows
      → HaveDistinctKeys (rows ++ (new ∷ []))
  snoc-HaveDistinctKeys [] new h d = (tt, tt)
  snoc-HaveDistinctKeys (r ∷ rows) new h (a, d) =
      let here : same_key new r ≡ false = ground (arith, h) in
      let rest : any (same_key new) rows ≡ false = ground (arith, h) in
      (All-snoc _ rows new a here, snoc-HaveDistinctKeys rows new rest d)

  insert_measurement-HaveDistinctKeys :
      (new : MeasurementRow F) (rows : List (MeasurementRow F))
      → HaveDistinctKeys rows
      → HaveDistinctKeys (insert_measurement new rows).0
  unfolding insert_measurement has_key
  insert_measurement-HaveDistinctKeys new rows d = elim (Bool-cases (any (same_key new) rows)) [
    | inl e ↦ rw (insert_measurement, e) d
    | inr e ↦ rw (insert_measurement, e) (snoc-HaveDistinctKeys rows new e d)
  ]

  has_key-insert :
      (k new : MeasurementRow F) (rows : List (MeasurementRow F))
      → has_key k rows ≡ true
      → has_key k (insert_measurement new rows).0 ≡ true
  unfolding insert_measurement has_key
  has_key-insert k new rows h = ground (arith, h, any-append (same_key k) rows (new ∷ []))

module _ {F : Type 0} (f : Float F) (stored : Time → Time) (tenant event device : Text) where
  abbrev row : Measurement F → MeasurementRow F
  row m = row_of f stored tenant event device m

  -- The measurement's key is taken, and its row is one that the table may hold.
  abbrev IsRecorded : List (MeasurementRow F) → Measurement F → Type 0
  IsRecorded rows m = (has_key (row m) rows ≡ true) × (is_storable f stored (row m) ≡ true)

  same_key_refl : (m : Measurement F) → is_empty device ≡ false → same_key (row m) (row m) ≡ true
  same_key_refl m h = ground (
    arith,
    h,
    text_eq_refl tenant,
    text_eq_refl event,
    text_eq_refl device,
    text_eq_refl m.observation_point_id,
    eq_ℤ_refl (stored m.window_start),
  )

  has_key-row :
      (m : Measurement F) (rows : List (MeasurementRow F))
      → is_empty device ≡ false
      → has_key (row m) (insert_measurement (row m) rows).0 ≡ true
  unfolding insert_measurement has_key
  has_key-row m rows h =
      ground (arith, any-append (same_key (row m)) rows (row m ∷ []), same_key_refl m h)

  record_one_ok :
      (m : Measurement F) (accepted n : ℤ) (rows rows' : List (MeasurementRow F))
      → record_one f stored tenant event device m accepted rows ≡ (ok n, rows')
      → (rows' ≡ (insert_measurement (row m) rows).0) × (is_storable f stored (row m) ≡ true)
  unfolding record_one find_accepted
  record_one_ok m accepted n rows rows' h = ground (arith, h)

  again_one :
      (m : Measurement F) (accepted : ℤ) (rows : List (MeasurementRow F))
      → IsRecorded rows m
      → record_one f stored tenant event device m accepted rows ≡ (ok accepted, rows)
  unfolding record_one find_accepted insert_measurement
  again_one m accepted rows (taken, fits) = ground (arith, taken, fits)

  again :
      (ms : List (Measurement F)) (accepted : ℤ) (rows : List (MeasurementRow F))
      → All (IsRecorded rows) ms
      → record_from f stored tenant event device ms accepted rows ≡ (ok accepted, rows)
  unfolding record_from
  again [] accepted rows h = refl
  again (m ∷ ms) accepted rows (h, hs) =
      ground (arith, again_one m accepted rows h, again ms accepted rows hs)

  -- What a run of the loop that succeeded leaves.
  record Records (ms : List (Measurement F)) (rows rows' : List (MeasurementRow F)) : Type 0 where
    keeps : (k : MeasurementRow F) → has_key k rows ≡ true → has_key k rows' ≡ true
    all_recorded : All (IsRecorded rows') ms
    distinct : HaveDistinctKeys rows → HaveDistinctKeys rows'

  record_from-cons :
      (m : Measurement F) (ms : List (Measurement F)) (accepted n : ℤ)
      (rows rows' : List (MeasurementRow F))
      → record_from f stored tenant event device (m ∷ ms) accepted rows ≡ (ok n, rows')
      → (k : ℤ) × (record_one f stored tenant event device m accepted rows
          ≡ (ok k, (insert_measurement (row m) rows).0))
        × (record_from f stored tenant event device ms k (insert_measurement (row m) rows).0
            ≡ (ok n, rows'))
  unfolding record_from
  record_from-cons m ms accepted n rows rows' h =
      elim (Result-cases (record_one f stored tenant event device m accepted rows).0) [
        | inr (e, u) ↦ ground (arith, h, u)
        | inl (k, u) ↦
            let one : record_one f stored tenant event device m accepted rows
                ≡ (ok k, (record_one f stored tenant event device m accepted rows).1) =
              ground (arith, u) in
            let left = (record_one_ok m accepted k rows _ one).0 in
            (k, ground (arith, u, left), ground (arith, h, u, left))
      ]

  record_from-Records :
      (ms : List (Measurement F)) (accepted n : ℤ) (rows rows' : List (MeasurementRow F))
      → is_empty device ≡ false
      → record_from f stored tenant event device ms accepted rows ≡ (ok n, rows')
      → Records ms rows rows'
  unfolding record_from
  record_from-Records [] accepted n rows rows' device_given h =
      let same : rows ≡ rows' = ground (arith, h) in
      subst (Records [] rows) same
        (record { keeps = λ k e. e; all_recorded = tt; distinct = λ d. d })
  record_from-Records (m ∷ ms) accepted n rows rows' device_given h =
      let (k, one, rest) = record_from-cons m ms accepted n rows rows' h in
      let r =
        record_from-Records ms k n (insert_measurement (row m) rows).0 rows' device_given rest in
      let fits = (record_one_ok m accepted k rows _ one).1 in
      record {
        keeps = λ key e. r.keeps key (has_key-insert key (row m) rows e);
        all_recorded = ((r.keeps (row m) (has_key-row m rows device_given), fits), r.all_recorded);
        distinct = λ d. r.distinct (insert_measurement-HaveDistinctKeys (row m) rows d);
      }

  -- The rows that a report of a device leaves, and what the same report does to them.
  pub record IsIdempotent (driver : Driver (List (MeasurementRow F))) (ms : List (Measurement F))
      (rows : List (MeasurementRow F)) (s : Session (List (MeasurementRow F))) : Type 0 where
    pub ended : s.transaction ≡ none
    pub distinct : HaveDistinctKeys rows → HaveDistinctKeys s.committed
    pub again : record_all f stored tenant event device driver ms s ≡ (ok (pos 0), s)

  -- With a driver that does what it is asked to, and a device that is named: after measurements were
  -- recorded, recording them again accepts none and changes no row; and if no two rows shared a key
  -- before, then none do after.
  pub record_all-IsIdempotent :
      (driver : Driver (List (MeasurementRow F))) (ms : List (Measurement F))
      (rows : List (MeasurementRow F)) (s : Session (List (MeasurementRow F))) (n : ℤ)
      → IsReliable driver
      → is_empty device ≡ false
      → record_all f stored tenant event device driver ms
          (record { committed = rows; transaction = none })
        ≡ (ok n, s)
      → IsIdempotent driver ms rows s
  unfolding record_all
  record_all-IsIdempotent driver [] rows s n reliable given h =
      let same : record { committed = rows; transaction = none } ≡ s = ground (arith, h) in
      subst (IsIdempotent driver [] rows) same
        (record { ended = refl; distinct = λ d. d; again = refl })
  record_all-IsIdempotent driver (m ∷ ms) rows s n reliable given h =
      let (rows', ran, left) =
        of_execute_ok driver (record_from f stored tenant event device (m ∷ ms) (pos 0)) reliable
          rows s n h in
      let r = record_from-Records (m ∷ ms) (pos 0) n rows rows' given ran in
      subst (IsIdempotent driver (m ∷ ms) rows) (sym left) (record {
        ended = refl;
        distinct = r.distinct;
        again =
            execute_ok driver (record_from f stored tenant event device (m ∷ ms) (pos 0)) reliable
              rows' rows' (pos 0) (again (m ∷ ms) (pos 0) rows' r.all_recorded);
      })
