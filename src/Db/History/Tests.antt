-- ===== src/Db/History/Tests.antt =====
-- A run of the history.
use data_looker.Prelude.{◌≡◌, refl, Option, none, some, List, [], ◌∷◌, map, take, select}
use data_looker.Text.{Text, codes}
use data_looker.Error.{AppError, database}
use data_looker.Db.{Meta, agent, reader, Source}
use data_looker.Db.History.{keep, QueryRun, list}
use data_looker.Db.History.Refines.{Attempt, said, own, records, happened, records-list}

abbrev fresh : Meta
fresh = record {
  connections = codes "a" ∷ codes "b" ∷ [];
  open_tabs = [];
  query_history = [];
  query_templates = [];
}

abbrev run_of : Text → Text → Source → QueryRun
run_of id sql source = record {
  connection_id = id;
  sql = sql;
  duration_ms = 3;
  row_count = some 1;
  error = none;
  source = source;
}

abbrev attempt : Option AppError → Text → QueryRun → Attempt
attempt refused ran_at run = record { refused = refused; ran_at = ran_at; run = run }

abbrev busy : AppError
busy = database (codes "busy")

abbrev attempts : List Attempt
attempts =
    attempt none (codes "1") (run_of (codes "a") (codes "SELECT 1") reader)
    ∷ attempt none (codes "2") (run_of (codes "b") (codes "SELECT 2") agent)
    ∷ attempt (some busy) (codes "3") (run_of (codes "a") (codes "SELECT 3") reader)
    ∷ attempt none (codes "4") (run_of (codes "a") (codes "SELECT 4") agent)
    ∷ []

-- What the log holds of the first connection.
logged :
    select (own (codes "a")) (happened fresh.connections attempts [])
    ≡ (codes "4", run_of (codes "a") (codes "SELECT 4") agent)
      ∷ (codes "1", run_of (codes "a") (codes "SELECT 1") reader)
      ∷ []
unfolding happened
logged = refl

records-list_example :
    map (said (codes "a")) (list (records busy fresh attempts) (codes "a") 1)
    ≡ take 1 (take keep (select (own (codes "a")) (happened fresh.connections attempts [])))
records-list_example = records-list busy attempts fresh (codes "a") 1 refl
