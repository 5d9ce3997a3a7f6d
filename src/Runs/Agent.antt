-- ===== src/Runs/Agent.antt =====
-- What an agent's query does.
use data_looker.Prelude.{◌≡◌, ◌≢◌, refl, Option, none, some, true, false, [], ◌∷◌, arith, ℕ}
use data_looker.Text.{Text, codes, text_eq, text_eq_iff, text_eq_refl}
use data_looker.Map.{get-remove}
use data_looker.Error.{AppError, timeout, Result, ok, err}
use data_looker.Sessions.{
  Whose, Session, bigquery_session, Registry, drop_one, peek, key_is_eq, key_eq,
}
use data_looker.Db.{Source, is_stored}
use data_looker.Db.History.{next_id, list}
use data_looker.Db.History.Log.{Descends}
use data_looker.Bigquery.Risks.{Planned}
use data_looker.Bigquery.Query.{QueryResult}
use data_looker.Dispatch.{Backends, once_planned, execute_reading}
use data_looker.Runs.{Circumstances, Running, within_wait, run_agent_query}
use data_looker.Runs.Logged.{logged_entry, query-list}

dropped-agent : (r : Registry) (id : Text) → peek (drop_one r id Whose.agent) id Whose.agent ≡ none
unfolding peek drop_one
dropped-agent r id =
    ground (arith, get-remove r.open_sessions (id, Whose.agent) (id, Whose.agent), text_eq_refl id)

dropped-other :
    (r : Registry) (id other : Text) (whose : Whose)
    → key_eq (id, Whose.agent) (other, whose) ≡ false
    → peek (drop_one r id Whose.agent) other whose ≡ peek r other whose
unfolding peek drop_one
dropped-other r id other whose apart =
    rw (get-remove r.open_sessions (id, Whose.agent) (other, whose), apart) refl

module _ (d : Backends) where
  once_planned-select :
      (session : Session) (sql : Text) (n : ℕ) (r : Result Planned AppError) (s : d.Server)
      (planned : Planned)
      → r ≡ ok planned
      → planned.kind ≡ codes "SELECT"
      → once_planned d session sql n (r, s) ≡ d.execute session sql n s
  once_planned-select session sql n r s planned q k =
      let e : text_eq planned.kind (codes "SELECT") ≡ true =
        (text_eq_iff planned.kind (codes "SELECT")).1 k in
      rw q (rw e refl)

  -- Refused, and nothing is sent.
  abbrev pub NotRun : Result QueryResult AppError × d.Server → d.Server → Type 0
  NotRun outcome s = ((e : AppError) × (outcome.0 ≡ err e)) × (outcome.1 ≡ s)

  once_planned-other :
      (session : Session) (sql : Text) (n : ℕ) (r : Result Planned AppError) (s : d.Server)
      → ((planned : Planned) → r ≡ ok planned → planned.kind ≢ codes "SELECT")
      → NotRun (once_planned d session sql n (r, s)) s
  once_planned-other session sql n (err e) s h = ((e, refl), refl)
  once_planned-other session sql n (ok planned) s h =
      let e : text_eq planned.kind (codes "SELECT") ≡ false = not_kind (h planned refl) in
      rw e ((_, refl), refl)
    where
      not_kind : planned.kind ≢ codes "SELECT" → text_eq planned.kind (codes "SELECT") ≡ false
      not_kind k = ground (arith, text_eq_iff planned.kind (codes "SELECT"), k)

  -- Logged as the agent's, at the front of the connection's history.
  abbrev pub IsLogged :
      Circumstances → Text → Text → Running d → Result QueryResult AppError × Running d → Type 0
  IsLogged c id sql app after =
      c.refused ≡ none
      → is_stored app.meta id ≡ true
      → Descends app.meta.query_history
      → list after.1.meta id 1
        ≡ logged_entry (next_id app.meta.query_history) c sql Source.agent after.0 ∷ []

  run_agent_query-IsLogged :
      (c : Circumstances) (late : Option d.Server) (session : Session) (id sql : Text)
      (app : Running d)
      → IsLogged c id sql app (run_agent_query d c late (ok session) id sql app)
  unfolding run_agent_query within_wait
  run_agent_query-IsLogged c none session id sql app r h descends =
      query-list c app.meta id sql Source.agent (execute_reading d session sql 1000 app.server).0 r
        h descends
  run_agent_query-IsLogged c (some left) session id sql app r h descends =
      query-list c app.meta id sql Source.agent (err timeout) r h descends

  -- An agent's query of BigQuery is run only if the dry run calls it a `SELECT`, for 1,000 rows at
  -- most, on the server as the dry run leaves it, and is answered as that run is; any other, and one
  -- that the dry run refuses, is an error, and nothing is sent after the dry run. One that takes too
  -- long is answered with a timeout, and its session is gone from the registry, no other with it.
  -- Whichever it is, the history of the connection then begins with it, as the agent's, if the log
  -- can be written.
  pub run_agent_query-guarded :
      (c : Circumstances) (project location id sql : Text) (app : Running d) (left : d.Server)
      → let session = bigquery_session project location in
        let dry = d.bigquery_plan session sql app.server in
        let after = run_agent_query d c none (ok session) id sql app in
        let late = run_agent_query d c (some left) (ok session) id sql app in
        ((planned : Planned)
          → dry.0 ≡ ok planned
          → planned.kind ≡ codes "SELECT"
          → ◌≡◌ {A = Result QueryResult AppError × d.Server}
              (after.0, after.1.server)
              (d.execute session sql 1000 dry.1))
        × (((planned : Planned) → dry.0 ≡ ok planned → planned.kind ≢ codes "SELECT")
            → NotRun (after.0, after.1.server) dry.1)
        × IsLogged c id sql app after
        × (late.0 ≡ err timeout)
        × (peek late.1.sessions id Whose.agent ≡ none)
        × ((other : Text) (whose : Whose)
            → key_eq (id, Whose.agent) (other, whose) ≡ false
            → peek late.1.sessions other whose ≡ peek app.sessions other whose)
        × IsLogged c id sql app late
  unfolding run_agent_query within_wait execute_reading
  run_agent_query-guarded c project location id sql app left =
      let session = bigquery_session project location in
      let dry = d.bigquery_plan session sql app.server in
      (
        (λ planned q k. once_planned-select session sql 1000 dry.0 dry.1 planned q k),
        (λ h. once_planned-other session sql 1000 dry.0 dry.1 h),
        run_agent_query-IsLogged c none session id sql app,
        refl,
        dropped-agent app.sessions id,
        (λ other whose apart. dropped-other app.sessions id other whose apart),
        run_agent_query-IsLogged c (some left) session id sql app,
      )
