-- ===== src/Db/Transaction/Atomic.antt =====
-- A transaction keeps all of its work or none.
use tolo_observation.Db.Transaction.{
  Session, Driver, finish, run_in_transaction, execute, rolled_back, marked, sql_state, is_abort,
  is_transaction_abort,
}
use tolo_observation.Errors.{
  Error, wrapped, sentinel, external, postgres, joined, SqlState, serialization_failure,
  deadlock_detected, unique_violation, other_state, transaction_aborted,
}
use Prim.Native.String.{String}
use tolo_observation.Common.Result.{Result, ok, err, Action, Result-cases}
use tolo_observation.Common.{
  ◌≡◌, refl, Option, none, some, if◌then◌else◌, arith, ◌⊎◌, inl, inr, subst, sym,
}

-- A commit stores the work or fails without a trace.
abbrev pub IsSafe : {D : Type 0} → Driver D → Type 0
IsSafe {D} driver =
    (d d' : D)
    → (driver.commit d d' ≡ (ok tt, d')) ⊎ ((e : Error) × (driver.commit d d' ≡ (err e, d)))

-- A function that runs its statements on the transaction that is open, and neither ends it nor
-- writes past it.
abbrev pub StaysInside : {D A : Type 0} → Action (Session D) A → Type 0
StaysInside {D} m =
    (d now : D)
    → (d' : D) × ((m (record { committed = d; transaction = some now })).1
        ≡ record { committed = d; transaction = some d' })

pub execute-StaysInside : {D A : Type 0} (m : Action D A) → StaysInside (execute m)
unfolding execute
execute-StaysInside m d now = ((m now).1, refl)

module _ {D A : Type 0} (driver : Driver D) where
  abbrev pub inner : Action (Session D) A → D → Result A × Session D
  inner m d = m (record { committed = d; transaction = some d })

  -- The function succeeded and all that it wrote is committed; or there is an error and the database
  -- is as before.
  pub record IsAtomic (m : Action (Session D) A) (d : D) (r : Result A × Session D) : Type 0 where
    pub ended : r.1.transaction ≡ none
    pub all_or_nothing :
        ((a : A) × (r.0 ≡ ok a)
          × ((inner m d).0 ≡ ok a)
          × (some r.1.committed ≡ (inner m d).1.transaction))
        ⊎ ((e : Error) × (r.0 ≡ err e) × (r.1.committed ≡ d))

  finish-IsAtomic :
      (m : Action (Session D) A) (d d' : D)
      → IsSafe driver
      → (inner m d).1 ≡ record { committed = d; transaction = some d' }
      → IsAtomic m d (finish driver d (inner m d).0 (some d'))
  unfolding finish
  finish-IsAtomic m d d' safe left = elim (Result-cases (inner m d).0) [
    | inl (a, u) ↦ elim (safe d d') [
      | inl c ↦ record {
        ended = ground (arith, u, c);
        all_or_nothing = inl (a, ground (arith, u, c), u, ground (arith, u, c, left));
      }
      | inr (e, c) ↦ record {
        ended = ground (arith, u, c);
        all_or_nothing =
            inr (wrapped "commit transaction" e, ground (arith, u, c), ground (arith, u, c));
      }
    ]
    | inr (e, u) ↦ record {
      ended = ground (arith, u);
      all_or_nothing =
          inr (rolled_back e (driver.roll_back d), ground (arith, u), ground (arith, u));
    }
  ]

  run-finish :
      (m : Action (Session D) A) (d d' : D)
      → driver.begin_with d ≡ ok tt
      → (inner m d).1 ≡ record { committed = d; transaction = some d' }
      → run_in_transaction driver m (record { committed = d; transaction = none })
        ≡ finish driver d (inner m d).0 (some d')
  unfolding run_in_transaction
  run-finish m d d' b left = ground (arith, b, left)

  not_begun :
      (m : Action (Session D) A) (d : D) (e : Error)
      → driver.begin_with d ≡ err e
      → IsAtomic m d (run_in_transaction driver m (record { committed = d; transaction = none }))
  unfolding run_in_transaction
  not_begun m d e b = record {
    ended = ground (arith, b);
    all_or_nothing = inr (wrapped "begin transaction" e, ground (arith, b), ground (arith, b));
  }

  -- If a commit stores the work or fails without a trace, and the function runs its statements on the
  -- transaction: outside of a transaction the run ends with none open, and either the function
  -- succeeded and the database is what it wrote, or there is an error and the database is as before.
  pub run_in_transaction-IsAtomic :
      (m : Action (Session D) A) (d : D)
      → IsSafe driver
      → StaysInside m
      → IsAtomic m d (run_in_transaction driver m (record { committed = d; transaction = none }))
  run_in_transaction-IsAtomic m d safe inside = elim (Result-cases (driver.begin_with d)) [
    | inr (e, b) ↦ not_begun m d e b
    | inl (_, b) ↦
        let (d', left) = inside d d in
        subst (IsAtomic m d) (sym (run-finish m d d' b left)) (finish-IsAtomic m d d' safe left)
  ]

-- A driver that does all that it is asked to.
pub record IsReliable {D : Type 0} (driver : Driver D) : Type 0 where
  pub begins : (d : D) → driver.begin_with d ≡ ok tt
  pub commits : (d d' : D) → driver.commit d d' ≡ (ok tt, d')
  pub rolls_back : (d : D) → driver.roll_back d ≡ ok tt

-- The answer of a function that ran alone on the database, and the database after it.
abbrev pub alone : {D A : Type 0} → Result A × D → D → Result A × Session D
alone (ok a, d') d = (ok a, record { committed = d'; transaction = none })
alone (err e, d') d = (err (marked e), record { committed = d; transaction = none })

pub run_in_transaction-alone :
    {D A : Type 0} (driver : Driver D) (m : Action D A) (d : D)
    → IsReliable driver
    → run_in_transaction driver (execute m) (record { committed = d; transaction = none })
      ≡ alone (m d) d
unfolding run_in_transaction execute finish
run_in_transaction-alone driver m d reliable = elim (Result-cases (m d).0) [
  | inl (a, u) ↦ ground (arith, u, reliable.begins d, reliable.commits d (m d).1)
  | inr (e, u) ↦ ground (arith, u, reliable.begins d, reliable.rolls_back d)
]

-- The code of the first error of PostgreSQL in the tree of an error, the first branch of a joined
-- error before the second.
abbrev pub Reports : Error → SqlState → Type 0
Reports (sentinel s) state = ⊥
Reports (external text) state = ⊥
Reports (postgres s) state = s ≡ state
Reports (wrapped context e) state = Reports e state
Reports (joined context a b) state =
    Reports a state ⊎ (((s : SqlState) → Reports a s → ⊥) × Reports b state)

-- PostgreSQL aborted the transaction.
abbrev pub IsAborted : Error → Type 0
IsAborted e = Reports e serialization_failure ⊎ Reports e deadlock_detected

-- The statements alone succeeded, and the database is what they left; or they failed, the database
-- is as before, and the error has the mark of an abort besides if PostgreSQL aborted.
pub data RunsAs {D A : Type 0} (d : D) : Result A × D → Result A × Session D → Type 0 where
  commits :
      (a : A) (d' : D) → RunsAs d (ok a, d') (ok a, record { committed = d'; transaction = none })
  aborts :
      (e : Error) (d' : D)
      → IsAborted e
      → RunsAs d
          (err e, d')
          (
            err (joined "" e (sentinel transaction_aborted)),
            record { committed = d; transaction = none },
          )
  fails :
      (e : Error) (d' : D)
      → (IsAborted e → ⊥)
      → RunsAs d (err e, d') (err e, record { committed = d; transaction = none })

-- What `sql_state` finds.
abbrev IsFound : Error → Option SqlState → Type 0
IsFound e none = (s : SqlState) → Reports e s → ⊥
IsFound e (some state) = Reports e state × ((s : SqlState) → Reports e s → s ≡ state)

joined-IsFound :
    (context : String) (a b : Error) (x y : Option SqlState)
    → IsFound a x
    → IsFound b y
    → IsFound (joined context a b) (elim x [ some state ↦ some state | none ↦ y ])
joined-IsFound context a b (some state) y f g =
    (inl f.0, λ s r. elim r [ inl u ↦ f.1 s u | inr u ↦ absurd (u.0 state f.0) ])
joined-IsFound context a b none none f g = λ s r. elim r [ inl u ↦ f s u | inr u ↦ g s u.1 ]
joined-IsFound context a b none (some state) f g =
    (inr (f, g.0), λ s r. elim r [ inl u ↦ absurd (f s u) | inr u ↦ g.1 s u.1 ])

sql_state-IsFound : (e : Error) → IsFound e (sql_state e)
unfolding sql_state
sql_state-IsFound (sentinel s) = λ x r. r
sql_state-IsFound (external text) = λ x r. r
sql_state-IsFound (postgres s) = (refl, λ x r. sym r)
sql_state-IsFound (wrapped context e) = sql_state-IsFound e
sql_state-IsFound (joined context a b) =
    joined-IsFound context a b (sql_state a) (sql_state b) (sql_state-IsFound a)
      (sql_state-IsFound b)

failed-RunsAs :
    {D A : Type 0} (d d' : D) (e : Error) (x : Option SqlState)
    → IsFound e x
    → RunsAs {A = A} d
        (err e, d')
        (
          err (if is_abort x then joined "" e (sentinel transaction_aborted) else e),
          record { committed = d; transaction = none },
        )
failed-RunsAs d d' e none f = fails e d' (λ h. elim h [ inl u ↦ f _ u | inr u ↦ f _ u ])
failed-RunsAs d d' e (some serialization_failure) f = aborts e d' (inl f.0)
failed-RunsAs d d' e (some deadlock_detected) f = aborts e d' (inr f.0)
failed-RunsAs d d' e (some unique_violation) f =
    fails e d' (λ h. elim h [ inl u ↦ cc (f.1 _ u) | inr u ↦ cc (f.1 _ u) ])
failed-RunsAs d d' e (some other_state) f =
    fails e d' (λ h. elim h [ inl u ↦ cc (f.1 _ u) | inr u ↦ cc (f.1 _ u) ])

alone-RunsAs : {D A : Type 0} (d : D) (r : Result A × D) → RunsAs d r (alone r d)
unfolding is_transaction_abort
alone-RunsAs d (ok a, d') = commits a d'
alone-RunsAs d (err e, d') = failed-RunsAs d d' e (sql_state e) (sql_state-IsFound e)

-- With a driver that does what it is asked to, statements that run in a transaction answer as they
-- do alone on the database, which then is what they left if they succeeded and as before if not; an
-- error is joined with the mark of an abort exactly if the first error of PostgreSQL in it is a
-- serialization failure or a deadlock.
pub run_in_transaction-execute :
    {D A : Type 0} (driver : Driver D) (m : Action D A) (d : D)
    → IsReliable driver
    → RunsAs d
        (m d)
        (run_in_transaction driver (execute m) (record { committed = d; transaction = none }))
run_in_transaction-execute driver m d reliable =
    subst (RunsAs d (m d)) (sym (run_in_transaction-alone driver m d reliable))
      (alone-RunsAs d (m d))

-- A run inside of a transaction joins it: it is the function's own run.
run_in_transaction-open :
    {D A : Type 0} (driver : Driver D) (m : Action (Session D) A) (d now : D)
    → run_in_transaction driver m (record { committed = d; transaction = some now })
      ≡ m (record { committed = d; transaction = some now })
unfolding run_in_transaction
run_in_transaction-open driver m d now = refl

module _ {D A : Type 0} (driver : Driver D) (m : Action D A) (reliable : IsReliable driver) where
  -- Success of the transaction and success of the statements alone.
  pub execute_ok :
      (d d' : D) (a : A)
      → m d ≡ (ok a, d')
      → run_in_transaction driver (execute m) (record { committed = d; transaction = none })
        ≡ (ok a, record { committed = d'; transaction = none })
  execute_ok d d' a h = ground (arith, run_in_transaction-alone driver m d reliable, h)

  pub of_execute_ok :
      (d : D) (s : Session D) (a : A)
      → run_in_transaction driver (execute m) (record { committed = d; transaction = none })
        ≡ (ok a, s)
      → (d' : D) × (m d ≡ (ok a, d')) × (s ≡ record { committed = d'; transaction = none })
  of_execute_ok d s a h = elim (Result-cases (m d).0) [
    | inl (b, u) ↦ (
      (m d).1,
      ground (arith, run_in_transaction-alone driver m d reliable, h, u),
      ground (arith, run_in_transaction-alone driver m d reliable, h, u),
    )
    | inr (e, u) ↦ ground (arith, run_in_transaction-alone driver m d reliable, h, u)
  ]
