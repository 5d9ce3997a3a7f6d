-- ===== src/Runs/Tests.antt =====
-- Runs on a server that counts what was written to it.
use data_looker.Prelude.{
  ℕ, suc, ◌≡◌, ◌≢◌, refl, Bool, true, false, none, some, [], ◌∷◌, if◌then◌else◌,
}
use data_looker.Text.{Text, codes, text_eq}
use data_looker.Map.{text_is_eq, get}
use data_looker.Error.{AppError, database, timeout, unsupported, Result, ok, err}
use data_looker.Sessions.{Whose, Session, bigquery_session, key_eq, key_is_eq, peek}
use data_looker.Drivers.{idle}
use data_looker.Db.{Source, is_stored}
use data_looker.Db.History.{list, next_id}
use data_looker.Db.History.Log.{Descends}
use data_looker.Bigquery.Risks.{Planned}
use data_looker.Bigquery.Query.{QueryResult}
use data_looker.Dispatch.{Backends}
use data_looker.Runs.{Circumstances, Running, run_agent_query, execute_query}
use data_looker.Runs.Agent.{NotRun, IsLogged, run_agent_query-guarded}
use data_looker.Runs.Logged.{logged_entry, execute_query-logged}

abbrev not_here : AppError
not_here = unsupported (codes "not here")

abbrev nothing : {A : Type 0} → ℕ → Result A AppError × ℕ
nothing s = (err not_here, s)

abbrev is_select : Text → Bool
is_select sql = text_eq sql (codes "SELECT 1")

abbrev no_rows : QueryResult
no_rows = record { columns = []; rows = []; truncated = false; elapsed_ms = 0 }

abbrev kind_of : Text → Text
kind_of sql = if is_select sql then codes "SELECT" else codes "INSERT"

abbrev counting : Backends
counting = record {
  Server = ℕ;
  SchemaTree = Unit;
  Index = Unit;
  Column = Unit;
  TableDefinition = Unit;
  QueryPlan = Unit;
  TableShape = Unit;
  Edits = Unit;
  Plan = Unit;
  Estimate = Unit;
  test = λ session s. (ok tt, s);
  execute = λ session sql n s. (ok no_rows, if is_select sql then s else suc s);
  schema_tree = λ session s. nothing s;
  columns = λ session schema table s. nothing s;
  preview = λ session request s. nothing s;
  postgres_transaction_state = λ session s. idle;
  postgres_execute_reading = λ session sql n s. nothing s;
  postgres_risks = λ sql production. [];
  postgres_explain_statement = λ sql analyze. sql;
  postgres_explain = λ session statement s. nothing s;
  postgres_routine_definition = λ session schema name arguments s. nothing s;
  postgres_indexes = λ session schema table s. nothing s;
  postgres_definition = λ session schema table s. nothing s;
  postgres_shape = λ session schema table s. nothing s;
  postgres_plan_edits = λ session schema table edits s. nothing s;
  postgres_apply_plan = λ session plan s. nothing s;
  bigquery_plan = λ session sql s. (ok (record { kind = kind_of sql; target = none }), s);
  bigquery_estimate = λ session sql s. nothing s;
  bigquery_risks = λ session sql production s. nothing s;
  bigquery_routine_definition = λ session schema name s. nothing s;
  bigquery_described = λ session project dataset table s. nothing s;
  bigquery_preview_cost = λ session request s. nothing s;
}

abbrev warehouse : Session
warehouse = bigquery_session (codes "p") (codes "US")

abbrev app : Running counting
app = record {
  server = 5;
  meta = record {
    connections = codes "a" ∷ [];
    open_tabs = [];
    query_history = [];
    query_templates = [];
  };
  sessions = record { open_sessions = ((codes "a", Whose.agent), warehouse) ∷ []; closed = [] };
  queries = record { running = []; next = 0; cancelled = [] };
}

abbrev now : Circumstances
now = record {
  ran_at = codes "now";
  elapsed = 3;
  refused = none;
  foreign = database (codes "foreign");
}

-- An agent's insertion is refused, and the refusal is logged.
agent_refused :
    (run_agent_query counting now none (ok warehouse) (codes "a") (codes "INSERT") app).1.server ≡ 5
unfolding run_agent_query
agent_refused = refl

run_agent_query-guarded_example :
    let dry = counting.bigquery_plan warehouse (codes "INSERT") 5 in
    let after = run_agent_query counting now none (ok warehouse) (codes "a") (codes "INSERT") app in
    let late =
      run_agent_query counting now (some 6) (ok warehouse) (codes "a") (codes "INSERT") app in
    ((planned : Planned)
      → dry.0 ≡ ok planned
      → planned.kind ≡ codes "SELECT"
      → ◌≡◌ {A = Result QueryResult AppError × ℕ}
          (after.0, after.1.server)
          (counting.execute warehouse (codes "INSERT") 1000 dry.1))
    × (((planned : Planned) → dry.0 ≡ ok planned → planned.kind ≢ codes "SELECT")
        → NotRun counting (after.0, after.1.server) dry.1)
    × IsLogged counting now (codes "a") (codes "INSERT") app after
    × (late.0 ≡ err timeout)
    × (peek late.1.sessions (codes "a") Whose.agent ≡ none)
    × ((other : Text) (whose : Whose)
        → key_eq (codes "a", Whose.agent) (other, whose) ≡ false
        → peek late.1.sessions other whose ≡ peek app.sessions other whose)
    × IsLogged counting now (codes "a") (codes "INSERT") app late
run_agent_query-guarded_example =
    run_agent_query-guarded counting now (codes "p") (codes "US") (codes "a") (codes "INSERT") app 6

execute_query-logged_example :
    let after =
      execute_query counting now (ok warehouse) (codes "a") (codes "INSERT") (codes "q") app in
    (after.0 ≡ ok no_rows)
    × (now.refused ≡ none
        → is_stored app.meta (codes "a") ≡ true
        → Descends app.meta.query_history
        → list after.1.meta (codes "a") 1
          ≡ logged_entry
              (next_id app.meta.query_history)
              now
              (codes "INSERT")
              Source.reader
              (ok no_rows)
            ∷ [])
    × ((other : Text) → get after.1.queries.running other ≡ get app.queries.running other)
unfolding data_looker.Map.get
execute_query-logged_example =
    execute_query-logged counting now warehouse (codes "a") (codes "INSERT") (codes "q") app refl
