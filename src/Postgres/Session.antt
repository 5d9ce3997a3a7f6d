-- ===== src/Postgres/Session.antt =====
-- `run_on` of src-tauri/src/drivers/postgres/mod.rs: one piece of work on the session's connection,
-- which is opened when there is none and kept only if it can be trusted. The server, what opens a
-- connection and the work are parameters.
pub mod Settled
use data_looker.Prelude.{◌≡◌, Bool, true, false, Option, none, some, if◌then◌else◌}
use data_looker.Error.{AppError, cancelled, Result, ok, err}
use data_looker.Drivers.{
  TransactionState, idle, SqlError, reported, protocol, DriverError, sql, refused,
  in_open_transaction, broken, app_error,
}
use data_looker.Postgres.Server.{Server}
use data_looker.Postgres.Transaction.{state}

-- What the work answered, or none when it was cancelled before it ended.
abbrev pub Outcome : Type 0 → Type 0
Outcome T = Option (Result T DriverError)

unfoldable pub keeps : {T : Type 0} → Outcome T → Bool
keeps none = false
keeps (some (ok t)) = true
keeps (some (err (sql (reported code message)))) = true
keeps (some (err (sql (protocol message)))) = false
keeps (some (err (refused message))) = true
keeps (some (err (in_open_transaction message))) = true
keeps (some (err (broken message))) = false

unfoldable pub answer : {T : Type 0} → Outcome T → Result T AppError
unfolding app_error
answer none = err cancelled
answer (some (ok t)) = ok t
answer (some (err e)) = err (app_error e)

pub record Slot (Conn : Type 0) : Type 0 where
  pub held : Option Conn
  pub transaction : TransactionState

module _ (server : Server) where
  open server use {Conn}

  -- `tokio::time::timeout(...).ok().and_then(Result::ok)`
  unfoldable pub stands :
      (timed_out : Bool) → Result TransactionState SqlError → Option TransactionState
  stands true r = none
  stands false (err e) = none
  stands false (ok s) = some s

  -- Where the connection was left, when `tracked` says that the slot keeps that up to date.
  unfoldable pub settle :
      (tracked : Bool) (times_out : Conn → Bool) → Option Conn → TransactionState → Slot Conn
  unfolding stands state
  settle false times_out held was = record { held = held; transaction = was }
  settle true times_out none was = record { held = none; transaction = idle }
  settle true times_out (some conn) was =
      let (said, conn') = state server conn in
      elim (stands (times_out conn) said) [
        | none ↦ record { held = none; transaction = idle }
        | some s ↦ record { held = some conn'; transaction = s }
      ]

  unfoldable pub with_conn :
      {T : Type 0} (tracked : Bool) (times_out : Conn → Bool) (work : Conn → Outcome T × Conn)
      → Conn
      → TransactionState
      → Result T AppError × Slot Conn
  unfolding keeps settle answer
  with_conn tracked times_out work conn was =
      let (outcome, conn') = work conn in
      (answer outcome, settle tracked times_out (if keeps outcome then some conn' else none) was)

  unfoldable pub run_on :
      {T : Type 0} (tracked : Bool) (cancelled_first : Bool) (connect : Result Conn AppError)
      (times_out : Conn → Bool) (work : Conn → Outcome T × Conn)
      → Slot Conn
      → Result T AppError × Slot Conn
  unfolding with_conn
  run_on tracked true connect times_out work slot = (err cancelled, slot)
  run_on tracked false connect times_out work slot = elim slot.held [
    | some conn ↦ with_conn tracked times_out work conn slot.transaction
    | none ↦ elim connect [
      | err e ↦ (err e, record slot { held = none })
      | ok conn ↦ with_conn tracked times_out work conn slot.transaction
    ]
  ]
