-- ===== src/Runs/Logged.antt =====
-- What is run is logged, and is let go.
use data_looker.Prelude.{
  ℕ, suc, ◌≡◌, refl, ap, ◌∙◌, min, true, Option, none, some, List, [], ◌∷◌, take, arith, length,
  ◌-◌, ◌^◌,
}
use data_looker.Text.{Text, text_eq, text_eq_iff, text_eq_refl}
use data_looker.Map.{text_is_eq, get, insert, get-remove, get-insert}
use data_looker.Error.{AppError, Result, ok, err, display}
use data_looker.Bigquery.Query.{QueryResult}
use data_looker.Sessions.{Session}
use data_looker.Registries.{Queries, register, forget_query}
use data_looker.Db.{Meta, HistoryRow, Source, is_stored}
use data_looker.Db.History.{
  QueryRun, HistoryEntry, keep, history_row, row_to_entry, next_id, prune, newest, list, record_row,
}
use data_looker.Db.History.Log.{Descends, next_id-Below, newest-take, prune-own, prune-Descends}
use data_looker.Db.History.Refines.{read_source-written}
use data_looker.Dispatch.{Backends}
use data_looker.Runs.{
  Circumstances, Running, row_limit, u32_max, rows_returned, count_of, error_of, query_run,
  record_run, execute_query,
}

abbrev pub entry_of : ℕ → Circumstances → Text → Result ℕ AppError → Source → HistoryEntry
entry_of id c sql rows source = record {
  id = id;
  sql = sql;
  ran_at = c.ran_at;
  duration_ms = min c.elapsed u32_max;
  row_count = count_of rows;
  error = error_of rows;
  source = source;
}

-- The entry of a query: how many rows it gave, as far as 32 bits count, or what went
-- wrong.
abbrev pub logged_entry :
    ℕ → Circumstances → Text → Source → Result QueryResult AppError → HistoryEntry
logged_entry id c sql source (ok result) = record {
  id = id;
  sql = sql;
  ran_at = c.ran_at;
  duration_ms = min c.elapsed (2 ^ 32 - 1);
  row_count = some (min (length result.rows) (2 ^ 32 - 1));
  error = none;
  source = source;
}
logged_entry id c sql source (err e) = record {
  id = id;
  sql = sql;
  ran_at = c.ran_at;
  duration_ms = min c.elapsed (2 ^ 32 - 1);
  row_count = none;
  error = some (display e);
  source = source;
}

entry_of-logged :
    (id : ℕ) (c : Circumstances) (sql : Text) (source : Source)
    (result : Result QueryResult AppError)
    → entry_of id c sql (rows_returned result) source ≡ logged_entry id c sql source result
unfolding rows_returned
entry_of-logged id c sql source (ok result) = refl
entry_of-logged id c sql source (err e) = refl

abbrev registered_queries : Queries → Text → Queries
registered_queries q id = record q { running = insert q.running id q.next; next = suc q.next }

register-free :
    (q : Queries) (id : Text)
    → get q.running id ≡ none
    → register q id ≡ (ok q.next, registered_queries q id)
unfolding register
register-free q id free = rw free refl

freed :
    (q : Queries) (id other : Text)
    → get q.running id ≡ none
    → get (forget_query (registered_queries q id) id).running other ≡ get q.running other
unfolding forget_query
freed q id other free = ground (
  arith,
  get-remove (insert q.running id q.next) id other,
  get-insert q.running id other q.next,
  text_eq_iff id other,
  free,
)

record_row-stored :
    (refused : Option AppError) (foreign : AppError) (ran_at : Text) (m : Meta) (run : QueryRun)
    → refused ≡ none
    → is_stored m run.connection_id ≡ true
    → (record_row refused foreign ran_at m run).1 ≡ record m {
      query_history =
          prune run.connection_id keep
            (history_row (next_id m.query_history) ran_at run ∷ m.query_history);
    }
unfolding record_row
record_row-stored refused foreign ran_at m run r h = rw (r, h) refl

newest-prune :
    (id : Text) (row : HistoryRow) (rows : List HistoryRow)
    → text_eq row.connection_id id ≡ true
    → Descends (row ∷ rows)
    → newest 1 id (prune id keep (row ∷ rows)) ≡ row ∷ []
newest-prune id row rows h d =
    newest-take 1 id (prune id keep (row ∷ rows)) (prune-Descends id keep (row ∷ rows) d)
    ∙ ap (take 1) (prune-own id keep (row ∷ rows) d)
    ∙ rw h refl

record_run-list :
    (c : Circumstances) (m : Meta) (id sql : Text) (rows : Result ℕ AppError) (source : Source)
    → c.refused ≡ none
    → is_stored m id ≡ true
    → Descends m.query_history
    → list (record_run c m id sql rows source) id 1
      ≡ entry_of (next_id m.query_history) c sql rows source ∷ []
unfolding record_run list row_to_entry
record_run-list c m id sql rows source r h d =
    let run = query_run id sql c.elapsed rows source in
    rw
      (
        record_row-stored c.refused c.foreign c.ran_at m run r h,
        newest-prune id (history_row (next_id m.query_history) c.ran_at run) m.query_history
            (text_eq_refl id) (next_id-Below m.query_history, d),
        read_source-written source,
      )
      refl

-- The history of a connection begins with the query that is logged.
pub query-list :
    (c : Circumstances) (m : Meta) (id sql : Text) (source : Source)
    (result : Result QueryResult AppError)
    → c.refused ≡ none
    → is_stored m id ≡ true
    → Descends m.query_history
    → list (record_run c m id sql (rows_returned result) source) id 1
      ≡ logged_entry (next_id m.query_history) c sql source result ∷ []
query-list c m id sql source result r h d =
    record_run-list c m id sql (rows_returned result) source r h d
    ∙ ap (λ e. e ∷ []) (entry_of-logged (next_id m.query_history) c sql source result)

module _ (d : Backends) where
  -- A query of the reader's, under an id that no other runs under, is answered as the session
  -- answers it; the history of the connection then begins with it, saying how many rows it gave, as
  -- far as 32 bits count, and no error, or what went wrong and no rows, if the log can be written;
  -- and its id is free again, every other as it was.
  pub execute_query-logged :
      (c : Circumstances) (session : Session) (id sql query_id : Text) (app : Running d)
      → get app.queries.running query_id ≡ none
      → let after = execute_query d c (ok session) id sql query_id app in
        let result = (d.execute session sql row_limit app.server).0 in
        (after.0 ≡ result)
        × (c.refused ≡ none
            → is_stored app.meta id ≡ true
            → Descends app.meta.query_history
            → list after.1.meta id 1
              ≡ logged_entry (next_id app.meta.query_history) c sql Source.reader result ∷ [])
        × ((other : Text) → get after.1.queries.running other ≡ get app.queries.running other)
  unfolding execute_query
  execute_query-logged c session id sql query_id app free =
      rw (register-free app.queries query_id free) (
        refl,
        (λ r h descends.
            let result = (d.execute session sql row_limit app.server).0 in
            query-list c app.meta id sql Source.reader result r h descends),
        λ other. freed app.queries query_id other free,
      )
