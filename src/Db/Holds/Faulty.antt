-- ===== src/Db/Holds/Faulty.antt =====
-- `Evaluate` over the table of holds with a driver that may fail.
use tolo_observation.Db.Holds.{
  HoldRow, Tables, Faults, Query, counting, finding, inserting, counting_inserted, ending,
  counting_ended, attempt, affected_one, open_row, insert_row, close_rows, postgres_holds,
  start_hold, end_hold, count_holds, find_open_hold,
}
use tolo_observation.Db.Holds.Evaluate.{no_faults, Evaluated, IsOpenIn, evaluate-reliable}
use tolo_observation.Db.Holds.Laws.{
  open_count, open_count-zero, open_count-append, close-open_count,
}
use tolo_observation.Hold.{HeartbeatLossHoldPolicy}
use tolo_observation.Holds.{evaluate, end_open, start_new, evaluate_from}
use tolo_observation.GoTime.{Time, add}
use tolo_observation.Errors.{Error, wrapped}
use tolo_observation.Float.{Float}
use Prim.Native.String.{String}
use tolo_observation.Common.{
  ℕ, ◌≡◌, refl, Bool, true, false, Option, none, some, List, arith, ◌≤◌, Option-cases, inl, inr,
  ◌⊎◌, subst, sym, ◌∙◌, if◌then◌else◌, ◌==◌,
}
use tolo_observation.Common.Int.{◌<ℤ◌}
use tolo_observation.Common.Result.{Result, Action, ok, err, ◌>>=◌, pure, wrap_err}

abbrev HasOne : Tables → Type 0
HasOne t = open_count t.heartbeat_loss_holds ≤ 1

module _ (stored : Time → Time) (faults : Faults) where
  -- An error of the driver, with the contexts that were put before it.
  pub data IsFault : Error → Type 0 where
    is_fault : (q : Query) (t : Tables) (e : Error) → faults q t ≡ some e → IsFault e
    in_context : (context : String) {e : Error} → IsFault e → IsFault (wrapped context e)

  -- An error of the driver was returned, and there still is at most one open hold.
  pub record Faulted {A : Type 0} (r : Result A × Tables) : Type 0 where
    pub error : Error
    pub returned : r.0 ≡ err error
    pub of_driver : IsFault error
    pub one_open : HasOne r.1

  -- `m` does as `m'` does, or reports a fault.
  record Mirrors {A : Type 0} (m m' : Action Tables A) : Type 0 where
    at : (t : Tables) → HasOne t → ((m t ≡ m' t) × HasOne (m' t).1) ⊎ Faulted (m t)

  Mirrors-pure : {A : Type 0} (a : A) → Mirrors (pure a) (pure a)
  Mirrors-pure a = record { at = λ t h. inl (refl, h) }

  Mirrors-wrap :
      {A : Type 0} (context : String) (m m' : Action Tables A)
      → Mirrors m m'
      → Mirrors (wrap_err context m) (wrap_err context m')
  Mirrors-wrap context m m' k = record {
    at = λ t h. elim (k.at t h) [
      | inl (same, one) ↦ inl (ground (arith, same), one)
      | inr w ↦ inr (record {
        error = wrapped context w.error;
        returned = ground (arith, w.returned);
        of_driver = in_context context w.of_driver;
        one_open = w.one_open;
      })
    ];
  }

  module _ {A B : Type 0} where
    after :
        (p p' : Result A × Tables) (f f' : A → Action Tables B)
        → ((p ≡ p') × HasOne p'.1) ⊎ Faulted p
        → ((a : A) → Mirrors (f a) (f' a))
        → let r = elim p.0 as (λ _. Result B × Tables) [ ok a ↦ f a p.1 | err e ↦ (err e, p.1) ] in
          let r' = elim p'.0 as (λ _. Result B × Tables) [
            | ok a ↦ f' a p'.1
            | err e ↦ (err e, p'.1)
          ] in
          ((r ≡ r') × HasOne r'.1) ⊎ Faulted r
    after (ok a, t) (ok a', t') f f' (inl (same, one)) k =
        let q : a ≡ a' = ground (arith, same) in
        let u : t ≡ t' = ground (arith, same) in
        let moved : f' a t ≡ f' a' t' = cc (q, u) in
        elim ((k a).at t (subst HasOne (sym u) one)) [
          | inl (e, o) ↦ inl (e ∙ moved, subst (λ (r : Result B × Tables). HasOne r.1) moved o)
          | inr w ↦ inr w
        ]
    after (ok a, t) (err e, t') f f' (inl (same, one)) k = cc
    after (err e, t) (ok a, t') f f' (inl (same, one)) k = cc
    after (err e, t) (err e', t') f f' (inl (same, one)) k = inl (ground (arith, same), one)
    after (ok a, t) p' f f' (inr w) k = cc (w.returned)
    after (err e, t) p' f f' (inr w) k = inr (record {
      error = w.error;
      returned = ground (arith, w.returned);
      of_driver = w.of_driver;
      one_open = w.one_open;
    })

    Mirrors-bind :
        (m m' : Action Tables A) (f f' : A → Action Tables B)
        → Mirrors m m'
        → ((a : A) → Mirrors (f a) (f' a))
        → Mirrors (m >>= f) (m' >>= f')
    Mirrors-bind m m' f f' km kf = record { at = λ t h. after (m t) (m' t) f f' (km.at t h) kf }

  Mirrors-attempt :
      {A : Type 0} (q : Query) (context : String) (m m' : Action Tables A)
      → Mirrors m m'
      → Mirrors (λ t. attempt (faults q t) context m t) m'
  Mirrors-attempt q context m m' k = record {
    at = λ t h. elim (Option-cases (faults q t)) [
      | inl u ↦ rw u (k.at t h)
      | inr (e, u) ↦ inr (record {
        error = wrapped context e;
        returned = ground (arith, u);
        of_driver = in_context context (is_fault q t e u);
        one_open = ground (arith, u, h);
      })
    ];
  }

  Mirrors-affected :
      (q : Query) (g : Tables → Tables) (n : Tables → ℕ)
      → ((t : Tables) → HasOne t → HasOne (g t))
      → Mirrors (λ t. (affected_one (faults q (g t)) (n t), g t)) (λ t. (ok (n t == 1), g t))
  Mirrors-affected q g n keeps = record {
    at = λ t h. elim (Option-cases (faults q (g t))) [
      | inl u ↦ inl (ground (arith, u), keeps t h)
      | inr (e, u) ↦ inr (record {
        error = wrapped "count affected heartbeat loss holds" e;
        returned = ground (arith, u);
        of_driver = in_context "count affected heartbeat loss holds" (is_fault q (g t) e u);
        one_open = keeps t h;
      })
    ];
  }

  Mirrors-count :
      (since limit : Time)
      → Mirrors (count_holds stored faults since limit) (count_holds stored no_faults since limit)
  unfolding count_holds
  Mirrors-count since limit =
      Mirrors-attempt counting "count edge devices by heartbeat" _ _
        (record { at = λ t h. inl (refl, h) })

  Mirrors-find : Mirrors (find_open_hold stored faults) (find_open_hold stored no_faults)
  unfolding find_open_hold
  Mirrors-find =
      Mirrors-attempt finding "select open heartbeat loss hold" _ _
        (record { at = λ t h. inl (refl, h) })

  insert_row-HasOne :
      (at : Time) (lost : ℕ) (rows : List HoldRow)
      → open_count rows ≤ 1
      → open_count (insert_row at lost rows).0 ≤ 1
  unfolding insert_row
  insert_row-HasOne at lost rows h = elim (Option-cases (open_row rows)) [
    | inl u ↦
        let new : HoldRow = record { started_at = at; ended_at = none; device_count = lost } in
        ground (arith, u, open_count-append rows new, (open_count-zero rows).1 u)
    | inr (x, u) ↦ ground (arith, u, h)
  ]

  Mirrors-start :
      (at : Time) (lost : ℕ)
      → Mirrors (start_hold stored faults at lost) (start_hold stored no_faults at lost)
  unfolding start_hold
  Mirrors-start at lost = Mirrors-attempt inserting "insert heartbeat loss hold" _ _ (
      Mirrors-affected counting_inserted
        (λ t. record t {
          heartbeat_loss_holds = (insert_row (stored at) lost t.heartbeat_loss_holds).0;
        })
        (λ t. if (insert_row (stored at) lost t.heartbeat_loss_holds).1 then 1 else 0)
        (λ t h. insert_row-HasOne (stored at) lost t.heartbeat_loss_holds h))

  Mirrors-end :
      (at now : Time) → Mirrors (end_hold stored faults at now) (end_hold stored no_faults at now)
  unfolding end_hold
  Mirrors-end at now = Mirrors-attempt ending "end heartbeat loss hold" _ _ (
      Mirrors-affected counting_ended
        (λ t. record t {
          heartbeat_loss_holds = (close_rows (stored at) (stored now) t.heartbeat_loss_holds).0;
        })
        (λ t. (close_rows (stored at) (stored now) t.heartbeat_loss_holds).1)
        (λ t h. omega (arith, close-open_count (stored at) (stored now) t.heartbeat_loss_holds)))

  module _ {F : Type 0} (f : Float F) (p : HeartbeatLossHoldPolicy F) (now : Time) where
    Mirrors-end_open :
        (opened : Option Time) (b : Bool)
        → Mirrors
            (end_open f (postgres_holds stored faults) p now opened b)
            (end_open f (postgres_holds stored no_faults) p now opened b)
    unfolding end_open
    Mirrors-end_open opened false = Mirrors-pure opened
    Mirrors-end_open opened true =
        Mirrors-bind _ _ _ _ (Mirrors-wrap "end heartbeat loss hold" _ _ (Mirrors-end _ now))
          (λ _. Mirrors-pure none)

    Mirrors-start_new :
        (opened : Option Time) (lost : ℕ) (b : Bool)
        → Mirrors
            (start_new f (postgres_holds stored faults) p now opened lost b)
            (start_new f (postgres_holds stored no_faults) p now opened lost b)
    unfolding start_new
    Mirrors-start_new opened lost false = Mirrors-pure opened
    Mirrors-start_new opened lost true =
        Mirrors-bind _ _ _ _ (Mirrors-wrap "start heartbeat loss hold" _ _ (Mirrors-start now lost))
          (λ _.
            Mirrors-bind _ _ _ _ (Mirrors-wrap "find open heartbeat loss hold" _ _ Mirrors-find)
              (λ again. Mirrors-pure _))

    Mirrors-evaluate :
        Mirrors
          (evaluate f (postgres_holds stored faults) p now)
          (evaluate f (postgres_holds stored no_faults) p now)
    unfolding evaluate evaluate_from
    Mirrors-evaluate =
        Mirrors-bind _ _ _ _ (Mirrors-wrap "find open heartbeat loss hold" _ _ Mirrors-find)
          (λ opened.
            Mirrors-bind _ _ _ _ (Mirrors-wrap "count heartbeat loss" _ _ (Mirrors-count _ _))
              (λ count. Mirrors-bind _ _ _ _ (Mirrors-end_open opened _) (λ left.
                Mirrors-bind _ _ _ _ (Mirrors-start_new left count.lost _)
                  (λ started. Mirrors-pure _))))

    -- If stored timestamps are stored exactly, and a hold that starts now has not lasted for the
    -- longest duration: over a table with at most one open hold, whose start is a stored timestamp,
    -- the evaluation succeeds and returns the hold that is open in the table that it leaves, where
    -- again at most one hold is open, and none that has lasted for the longest duration; or it returns
    -- an error of the driver, with the contexts of the code, and at most one hold is open.
    pub evaluate-Evaluated :
        ((x : Time) → stored (stored x) ≡ stored x)
        → now <ℤ add (stored now) p.max_duration
        → (o : Option Time) (t : Tables) → IsOpenIn stored o t.heartbeat_loss_holds
        → Evaluated f stored p now (evaluate f (postgres_holds stored faults) p now t)
          ⊎ Faulted (evaluate f (postgres_holds stored faults) p now t)
    evaluate-Evaluated idem fresh o t h = elim (Mirrors-evaluate.at t h.1) [
      | inl (same, one) ↦ inl (
          subst (Evaluated f stored p now) (sym same)
            (evaluate-reliable f stored p idem now fresh o t h))
      | inr w ↦ inr w
    ]
