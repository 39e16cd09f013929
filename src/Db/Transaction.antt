-- ===== src/Db/Transaction.antt =====
-- internal/infra/db/transaction.go: RunInTransaction over one connection. How the server and the
-- driver answer is a parameter.
pub mod Atomic
use tolo_observation.Errors.{
  Error, wrapped, joined, sentinel, transaction_aborted, postgres, SqlState, serialization_failure,
  deadlock_detected, external, unique_violation, other_state,
}
use tolo_observation.Common.{
  ℕ, zero, suc, ◌≡◌, refl, Bool, true, false, Option, none, some, List, [], ◌∷◌, arith,
  if◌then◌else◌, get_or,
}
use tolo_observation.Common.Result.{Result, Action, ok, err, wrap_result}

-- The database as it is committed, and as the transaction that the context carries sees it.
pub record Session (D : Type 0) : Type 0 where
  pub committed : D
  pub transaction : Option D

-- What beginning, committing and rolling back answer; a commit leaves a database.
pub record Driver (D : Type 0) : Type 0 where
  pub begin_with : D → Result (Unit {0})
  pub commit : D → D → Result (Unit {0}) × D
  pub roll_back : D → Result (Unit {0})

-- `isTransactionAbort`: `errors.As` takes the first PostgreSQL error in the tree.
unfoldable pub sql_state : Error → Option SqlState
sql_state (sentinel s) = none
sql_state (external text) = none
sql_state (postgres state) = some state
sql_state (wrapped context e) = sql_state e
sql_state (joined context a b) =
    let other = sql_state b in elim (sql_state a) [ some state ↦ some state | none ↦ other ]

abbrev pub is_abort_state : SqlState → Bool
is_abort_state serialization_failure = true
is_abort_state deadlock_detected = true
is_abort_state unique_violation = false
is_abort_state other_state = false

abbrev pub is_abort : Option SqlState → Bool
is_abort none = false
is_abort (some state) = is_abort_state state

unfoldable pub is_transaction_abort : Error → Bool
is_transaction_abort e = is_abort (sql_state e)

-- `errors.Join(err, ErrTransactionAborted)` where the server aborted.
abbrev pub marked : Error → Error
marked e = if is_transaction_abort e then joined "" e (sentinel transaction_aborted) else e

-- The answer after the function failed, by what rolling back answers.
abbrev pub rolled_back : Error → Result (Unit {0}) → Error
rolled_back e (ok _) = marked e
rolled_back e (err f) = joined "" (marked e) (wrapped "rollback transaction" f)

-- `Executor`: a statement sees the transaction if there is one, and the committed database if not.
unfoldable pub execute : {D A : Type 0} → Action D A → Action (Session D) A
execute m s = elim s.transaction [
  | none ↦ let (r, d) = m s.committed in (r, record s { committed = d })
  | some d ↦ let (r, d') = m d in (r, record s { transaction = some d' })
]

module _ {D : Type 0} (driver : Driver D) where
  -- What follows the function, on its result and the session that it left. A session that lost its
  -- transaction has nothing to commit.
  unfoldable pub finish : {A : Type 0} → D → Result A → Option D → Result A × Session D
  finish before (err e) left = (
    err (rolled_back e (driver.roll_back before)),
    record { committed = before; transaction = none },
  )
  finish before (ok a) left =
      let (r, d) = driver.commit before (get_or left before) in
      (
        elim (wrap_result "commit transaction" r) [ ok _ ↦ ok a | err e ↦ err e ],
        record { committed = d; transaction = none },
      )

  unfoldable pub run_in_transaction : {A : Type 0} → Action (Session D) A → Action (Session D) A
  run_in_transaction m s = elim s.transaction [
    | some d ↦ m s
    | none ↦ elim (wrap_result "begin transaction" (driver.begin_with s.committed)) [
      | err e ↦ (err e, s)
      | ok _ ↦
          let (r, s') = m (record s { transaction = some s.committed }) in
          finish s'.committed r s'.transaction
    ]
  ]

  -- A repeatable read of one snapshot, which joins a transaction that is open.
  abbrev pub read_snapshot : {A : Type 0} → Action (Session D) A → Action (Session D) A
  read_snapshot m = run_in_transaction m
