-- ===== src/Postgres/Transaction.antt =====
-- src-tauri/src/drivers/postgres/transaction.rs, and `apply` of edit.rs: a save in one transaction.
pub mod Atomic
use data_looker.Prelude.{
  ℕ, zero, suc, ◌+◌, ◌%◌, ◌^◌, Bool, true, false, Option, none, some, List, [], ◌∷◌, ◌++◌, ◌==◌,
  if◌then◌else◌,
}
use data_looker.Text.{Text, codes, text_eq}
use data_looker.Text.Decimal.{to_text}
use data_looker.Error.{Result, ok, err}
use data_looker.Drivers.{
  SqlError, reported, protocol, DriverError, sql, refused, in_open_transaction, TransactionState,
  idle, open_transaction, failed,
}
use data_looker.Postgres.Edit.{Statement}
use data_looker.Postgres.Server.{Server, Call}

-- The server's code for a statement sent inside a failed transaction.
abbrev pub in_failed_transaction : Text
in_failed_transaction = codes "25P02"

unfoldable pub state_of : Result Bool SqlError → Result TransactionState SqlError
state_of (ok true) = ok open_transaction
state_of (ok false) = ok idle
state_of (err (reported none message)) = err (reported none message)
state_of (err (reported (some code) message)) =
    if text_eq code in_failed_transaction then ok failed else err (reported (some code) message)
state_of (err (protocol message)) = err (protocol message)

abbrev pub not_one_row : ℕ → DriverError
not_one_row affected = refused (
    if affected == 0
    then codes "a row changed after it was read, so nothing was saved"
    else codes "a key named "
      ++ (to_text affected ++ codes " rows rather than one, so nothing was saved"))

abbrev pub in_the_editor : DriverError
in_the_editor = in_open_transaction (
    codes "a transaction is open in the editor, so nothing was saved; commit or roll it back first")

module _ (server : Server) where
  open server use {Conn, asks, begin, execute, commit, dropped}

  unfoldable pub state : Call Conn TransactionState
  unfolding state_of
  state c = let (answer, c') = asks c in (state_of answer, c')

  -- The loop over the statements, in the transaction; `applied` of them are done, in 32 bits.
  unfoldable pub run_statements : List Statement → ℕ → Conn → Result ℕ DriverError × Conn
  run_statements [] applied c = (ok applied, c)
  run_statements (s ∷ ss) applied c =
      let (answer, c') = execute s c in
      let rest = run_statements ss (suc applied % 2 ^ 32) c' in
      elim answer [
        | err e ↦ (err (sql e), c')
        | ok affected ↦ if affected == 1 then rest else (err (not_one_row affected), c')
      ]

  -- An early return drops the transaction; so does an error of the loop.
  unfoldable pub finish_save : Result ℕ DriverError × Conn → Result ℕ DriverError × Conn
  finish_save (err e, c) = (err e, dropped c)
  finish_save (ok applied, c) =
      let (answer, c') = commit c in
      elim answer [ ok u ↦ (ok applied, c') | err e ↦ (err (sql e), c') ]

  unfoldable pub begin_save : List Statement → Conn → Result ℕ DriverError × Conn
  unfolding run_statements finish_save
  begin_save plan c =
      let (answer, c') = begin c in
      let rest = finish_save (run_statements plan 0 c') in
      elim answer [ ok u ↦ rest | err e ↦ (err (sql e), c') ]

  unfoldable pub apply : List Statement → Conn → Result ℕ DriverError × Conn
  unfolding state begin_save
  apply plan c =
      let (answer, c') = state c in
      let save = begin_save plan c' in
      elim answer [ err e ↦ (err (sql e), c') | ok idle ↦ save | ok _ ↦ (err in_the_editor, c') ]
