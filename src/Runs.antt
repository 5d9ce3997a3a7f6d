-- ===== src/Runs.antt =====
-- Running a statement: src-tauri/src/app/query.rs, agent_queries.rs and `record_run` of history.rs.
-- What a session, the clock and the tables come to is given with each run.
mod Agent
mod Logged
mod Tests
use data_looker.Prelude.{
  ℕ, ◌-◌, ◌^◌, ◌≡◌, min, Bool, true, false, Option, none, some, List, [], ◌∷◌, ◌++◌, length,
  if◌then◌else◌,
}
use data_looker.Text.{Text, codes}
use data_looker.Error.{AppError, timeout, display, Result, ok, err}
use data_looker.Sessions.{Whose, Session, Registry, drop_one}
use data_looker.Drivers.{TransactionState, idle}
use data_looker.Registries.{Queries, register, forget_query}
use data_looker.Bigquery.Query.{QueryResult}
use data_looker.Db.{Meta, Source}
use data_looker.Db.History.{QueryRun, record_row}
use data_looker.Dispatch.{Backends, execute_reading, explain_statement, explain, transaction_state}

abbrev pub agent_rows : ℕ
agent_rows = 1_000

-- `usize::MAX`
abbrev pub row_limit : ℕ
row_limit = 2 ^ 64 - 1

abbrev pub u32_max : ℕ
u32_max = 2 ^ 32 - 1

-- What a run finds: when it is written, how long it took in milliseconds, and what the transaction
-- that writes it meets.
pub record Circumstances : Type 0 where
  pub ran_at : Text
  pub elapsed : ℕ
  pub refused : Option AppError
  pub foreign : AppError

unfoldable pub rows_returned : Result QueryResult AppError → Result ℕ AppError
rows_returned (ok result) = ok (min (length result.rows) u32_max)
rows_returned (err e) = err e

abbrev pub count_of : Result ℕ AppError → Option ℕ
count_of (ok n) = some n
count_of (err e) = none

abbrev pub error_of : Result ℕ AppError → Option Text
error_of (ok n) = none
error_of (err e) = some (display e)

abbrev pub query_run : Text → Text → ℕ → Result ℕ AppError → Source → QueryRun
query_run connection_id sql elapsed rows source = record {
  connection_id = connection_id;
  sql = sql;
  duration_ms = min elapsed u32_max;
  row_count = count_of rows;
  error = error_of rows;
  source = source;
}

-- A log that cannot be written is not an error.
unfoldable pub record_run : Circumstances → Meta → Text → Text → Result ℕ AppError → Source → Meta
unfolding record_row
record_run c m connection_id sql rows source =
    (record_row c.refused c.foreign c.ran_at m
      (query_run connection_id sql c.elapsed rows source)).1

pub record App (Server : Type 0) : Type 0 where
  pub server : Server
  pub meta : Meta
  pub sessions : Registry
  pub queries : Queries

module _ (d : Backends) where
  abbrev pub Running : Type 0
  Running = App d.Server

  -- The work, unless the wait is over first: it is dropped then, having left the server somewhere,
  -- and the agent's session with it.
  unfoldable pub within_wait :
      {A : Type 0}
      → Text
      → Option d.Server
      → Result A AppError × d.Server
      → Running
      → Result A AppError × Running
  unfolding drop_one
  within_wait id none (result, s) app = (result, record app { server = s })
  within_wait id (some left) done app =
      (err timeout, record app { server = left; sessions = drop_one app.sessions id Whose.agent })

  abbrev pub logged :
      {A : Type 0}
      → Circumstances
      → Text
      → Text
      → (Result A AppError → Result ℕ AppError)
      → Source
      → Result A AppError × Running
      → Result A AppError × Running
  unfolding record_run
  logged c id sql rows source (result, app) =
      (result, record app { meta = record_run c app.meta id sql (rows result) source })

  unfoldable pub run_agent_query :
      Circumstances
      → Option d.Server
      → Result Session AppError
      → Text
      → Text
      → Running
      → Result QueryResult AppError × Running
  unfolding execute_reading within_wait logged rows_returned
  run_agent_query c late (err e) id sql app = (err e, app)
  run_agent_query c late (ok session) id sql app =
      logged c id sql rows_returned Source.agent
        (within_wait id late (execute_reading d session sql agent_rows app.server) app)

  abbrev one_row : {A : Type 0} → Result A AppError → Result ℕ AppError
  one_row (ok a) = ok 1
  one_row (err e) = err e

  abbrev explained_agent :
      Circumstances
      → Option d.Server
      → Session
      → Text
      → Result Text AppError
      → Running
      → Result d.QueryPlan AppError × Running
  unfolding explain within_wait logged
  explained_agent c late session id (err e) app = (err e, app)
  explained_agent c late session id (ok statement) app =
      logged c id statement one_row Source.agent
        (within_wait id late (explain d session statement app.server) app)

  unfoldable pub explain_agent_query :
      Circumstances
      → Option d.Server
      → Result Session AppError
      → Text
      → Text
      → Bool
      → Running
      → Result d.QueryPlan AppError × Running
  unfolding explained_agent explain_statement
  explain_agent_query c late (err e) id sql analyze app = (err e, app)
  explain_agent_query c late (ok session) id sql analyze app =
      explained_agent c late session id (explain_statement d session sql analyze) app

  abbrev executed :
      Circumstances
      → Result Session AppError
      → Text
      → Text
      → Running
      → Result QueryResult AppError × Running
  unfolding logged rows_returned
  executed c (err e) id sql app = (err e, app)
  executed c (ok session) id sql app =
      let (result, s) = d.execute session sql row_limit app.server in
      logged c id sql rows_returned Source.reader (result, record app { server = s })

  -- Dropping the `Registration`, however the run ends.
  abbrev released : {A : Type 0} → Text → Result A AppError × Running → Result A AppError × Running
  unfolding forget_query
  released query_id (result, app) =
      (result, record app { queries = forget_query app.queries query_id })

  abbrev registered :
      {A : Type 0}
      → Text
      → (Running → Result A AppError × Running)
      → Result ℕ AppError × Queries
      → Running
      → Result A AppError × Running
  unfolding released
  registered query_id work (err e, q) app = (err e, record app { queries = q })
  registered query_id work (ok token, q) app = released query_id (work (record app { queries = q }))

  unfoldable pub execute_query :
      Circumstances
      → Result Session AppError
      → Text
      → Text
      → Text
      → Running
      → Result QueryResult AppError × Running
  unfolding executed registered register
  execute_query c opened id sql query_id app =
      registered query_id (executed c opened id sql) (register app.queries query_id) app

  abbrev explained :
      Circumstances
      → Session
      → Text
      → Result Text AppError
      → Running
      → Result d.QueryPlan AppError × Running
  unfolding explain logged
  explained c session id (err e) app = (err e, app)
  explained c session id (ok statement) app =
      let (result, s) = explain d session statement app.server in
      logged c id statement one_row Source.reader (result, record app { server = s })

  abbrev explaining :
      Circumstances
      → Result Session AppError
      → Text
      → Text
      → Bool
      → Running
      → Result d.QueryPlan AppError × Running
  unfolding explained explain_statement
  explaining c (err e) id sql analyze app = (err e, app)
  explaining c (ok session) id sql analyze app =
      explained c session id (explain_statement d session sql analyze) app

  unfoldable pub explain_query :
      Circumstances
      → Result Session AppError
      → Text
      → Text
      → Bool
      → Text
      → Running
      → Result d.QueryPlan AppError × Running
  unfolding explaining registered register
  explain_query c opened id sql analyze query_id app =
      registered query_id (explaining c opened id sql analyze) (register app.queries query_id) app
