-- ===== src/Bigquery/Estimate/Tests.antt =====
-- A statement that names its table's column, and one that does not.
use data_looker.Prelude.{◌≡◌, ◌≢◌, ◌↔◌, refl, true, none, some, [], ◌∷◌}
use data_looker.Text.{codes}
use data_looker.Error.{ok}
use data_looker.Bigquery.Api.{TableReference, Table}
use data_looker.Bigquery.Estimate.{lower, names, pruned_by, unpruned, session_partitioning}
use data_looker.Bigquery.Estimate.Named.{StandsIn, names-StandsIn}

abbrev events : TableReference
events = record { project_id = codes "p"; dataset_id = codes "d"; table_id = codes "events" }

abbrev by_day : Table
by_day = record {
  kind = some (codes "TABLE");
  schema = none;
  time_partitioning = some (record { field = some (codes "Day") });
  range_partitioning = none;
}

prunes : pruned_by by_day ≡ some (codes "Day" ∷ [])
unfolding pruned_by
prunes = refl

filtered :
    unpruned (codes "SELECT 1 FROM d.events WHERE day > 1") ((events, codes "Day" ∷ []) ∷ []) ≡ []
unfolding unpruned
filtered = refl

unfiltered :
    unpruned (codes "SELECT days FROM d.events") ((events, codes "Day" ∷ []) ∷ [])
    ≡ record { table = codes "p.d.events"; column = codes "Day" } ∷ []
unfolding unpruned
unfiltered = refl

asked_once :
    (session_partitioning (session_partitioning [] 5 events (ok by_day)).1 64 events (ok by_day)).1
    ≡ (session_partitioning [] 5 events (ok by_day)).1
unfolding session_partitioning data_looker.Map.get data_looker.Map.insert
asked_once = refl

names-StandsIn_example :
    (names (codes "SELECT days, Day") (codes "day") ≡ true)
    ↔ StandsIn (lower (codes "day")) none (lower (codes "SELECT days, Day"))
names-StandsIn_example =
    names-StandsIn (codes "SELECT days, Day") (codes "day") (refl, (refl, (refl, tt))) there
  where
    there : codes "day" ≢ []
    there e = cc
