-- ===== src/Db/History.antt =====
-- src-tauri/src/db/history.rs, and `record_run` of src-tauri/src/app/history.rs: what was run.
pub mod Log
pub mod Refines
mod Tests
use data_looker.Prelude.{
  ℕ, suc, ◌+◌, ◌-◌, ◌^◌, min, max, Bool, true, false, not, ◌&&◌, Option, none, some, List, [], ◌∷◌,
  ◌++◌, ◌==◌, ltb, leb, if◌then◌else◌, select, length, map, take, zero,
}
use data_looker.Text.{Text, codes, text_eq}
use data_looker.Error.{AppError, Result, ok, err}
use data_looker.Db.{Meta, HistoryRow, Source, reader, agent, handoff, is_stored}

-- Runs kept per connection.
abbrev pub keep : ℕ
keep = 1_000

unfoldable pub written : Source → Text
written reader = codes "reader"
written agent = codes "agent"
written handoff = codes "handoff"

unfoldable pub read_source : Text → Source
read_source text =
    if text_eq text (codes "agent")
    then agent
    else (if text_eq text (codes "handoff") then handoff else reader)

pub record QueryRun : Type 0 where
  pub connection_id : Text
  pub sql : Text
  pub duration_ms : ℕ
  pub row_count : Option ℕ
  pub error : Option Text
  pub source : Source

pub record HistoryEntry : Type 0 where
  pub id : ℕ
  pub sql : Text
  pub ran_at : Text
  pub duration_ms : ℕ
  pub row_count : Option ℕ
  pub error : Option Text
  pub source : Source

unfoldable pub row_to_entry : HistoryRow → HistoryEntry
unfolding read_source
row_to_entry row = record {
  id = row.id;
  sql = row.sql;
  ran_at = row.ran_at;
  duration_ms = row.duration_ms;
  row_count = row.row_count;
  error = row.error;
  source = read_source row.source;
}

-- An `INTEGER PRIMARY KEY` that is left out is one more than the greatest.
unfoldable pub next_id : List HistoryRow → ℕ
next_id [] = 1
next_id (row ∷ rows) = max (suc row.id) (next_id rows)

abbrev pub of_connection : Text → HistoryRow → Bool
of_connection id row = text_eq row.connection_id id

-- `ORDER BY id DESC`.
unfoldable pub insert_newest : HistoryRow → List HistoryRow → List HistoryRow
insert_newest row [] = row ∷ []
insert_newest row (r ∷ rs) =
    let rest = insert_newest row rs in if leb r.id row.id then row ∷ r ∷ rs else r ∷ rest

unfoldable pub newest_first : List HistoryRow → List HistoryRow
unfolding insert_newest
newest_first [] = []
newest_first (r ∷ rs) = insert_newest r (newest_first rs)

unfoldable pub newest : ℕ → Text → List HistoryRow → List HistoryRow
unfolding newest_first
newest limit id rows = take limit (newest_first (select (of_connection id) rows))

abbrev pub has_id : ℕ → List HistoryRow → Bool
has_id n [] = false
has_id n (row ∷ rows) = let rest = has_id n rows in if n == row.id then true else rest

unfoldable pub prune : Text → ℕ → List HistoryRow → List HistoryRow
unfolding newest
prune id limit rows =
    select (λ row. not (of_connection id row && not (has_id row.id (newest limit id rows)))) rows

abbrev pub history_row : ℕ → Text → QueryRun → HistoryRow
history_row id ran_at run = record {
  id = id;
  connection_id = run.connection_id;
  sql = run.sql;
  ran_at = ran_at;
  duration_ms = run.duration_ms;
  row_count = run.row_count;
  error = run.error;
  source = written run.source;
}

-- `refused` is the error that the transaction meets, and `foreign` the one that a connection with no
-- row meets.
unfoldable pub record_row :
    Option AppError → AppError → Text → Meta → QueryRun → Result (Unit {0}) AppError × Meta
unfolding next_id prune written
record_row (some refused) foreign ran_at m run = (err refused, m)
record_row none foreign ran_at m run =
    if is_stored m run.connection_id
    then (
      ok tt,
      record m {
        query_history =
            prune run.connection_id keep
              (history_row (next_id m.query_history) ran_at run ∷ m.query_history);
      },
    )
    else (err foreign, m)

unfoldable pub list : Meta → Text → ℕ → List HistoryEntry
unfolding newest row_to_entry
list m id limit = map row_to_entry (newest limit id m.query_history)
