-- ===== src/Postgres/Explain.antt =====
-- src-tauri/src/drivers/postgres/explain.rs: a plan asked for where nothing can be kept.
pub mod Kept
use data_looker.Prelude.{Bool, true, false, Option, none, some, ◌++◌, if◌then◌else◌}
use data_looker.Text.{Text, codes}
use data_looker.Json.{Value, array, nil, cons}
use data_looker.Error.{Result, ok, err}
use data_looker.Drivers.{SqlError, DriverError, sql, broken, message_of}
use data_looker.Postgres.Server.{Server}

unfoldable pub statement : Text → Bool → Text
statement text analyze =
    let options =
      if analyze
      then codes "FORMAT JSON, ANALYZE, BUFFERS, SETTINGS"
      else codes "FORMAT JSON, SETTINGS" in
    codes "EXPLAIN (" ++ (options ++ (codes ") " ++ text))

abbrev pub savepoint : Text
savepoint = codes "SAVEPOINT datalooker_explain; SET LOCAL transaction_read_only = on"

abbrev pub back_to_savepoint : Text
back_to_savepoint =
    codes "ROLLBACK TO SAVEPOINT datalooker_explain; RELEASE SAVEPOINT datalooker_explain"

unfoldable pub only_plan : Value → Value
only_plan (array (cons plan nil)) = plan
only_plan other = other

unfoldable pub ended : Result Value SqlError → Result (Unit {0}) SqlError → Result Value DriverError
unfolding only_plan
ended (ok output) (ok u) = ok (only_plan output)
ended (err e) (ok u) = err (sql e)
ended (ok output) (err ending) =
    err (broken (codes "the read-only transaction would not end: " ++ message_of ending))
ended (err e) (err ending) = err (
    broken (
      message_of e
      ++ (codes ", and the read-only transaction would not end: " ++ message_of ending)))

module _ (server : Server) where
  open server use {Conn, asks, command, scalar}

  abbrev pub opening : Bool → Text
  opening inside = if inside then savepoint else codes "BEGIN READ ONLY"

  abbrev pub closing : Bool → Text
  closing inside = if inside then back_to_savepoint else codes "ROLLBACK"

  -- The query, and the end of the transaction that it ran in.
  unfoldable pub query : Bool → Text → Conn → Result Value DriverError × Conn
  unfolding ended
  query inside text c =
      let (result, c1) = scalar text c in
      let (ending, c2) = command (closing inside) c1 in (ended result ending, c2)

  unfoldable pub begin_query : Bool → Text → Conn → Result Value DriverError × Conn
  unfolding query
  begin_query inside text c =
      let (begun, c1) = command (opening inside) c in
      let rest = query inside text c1 in elim begun [ err e ↦ (err (sql e), c1) | ok u ↦ rest ]

  unfoldable pub run : Text → Conn → Result Value DriverError × Conn
  unfolding begin_query
  run text c =
      let (inside, c1) = asks c in
      elim inside [ err e ↦ (err (sql e), c1) | ok i ↦ begin_query i text c1 ]
