-- ===== src/Registries/Tests.antt =====
-- Concrete queries and runs.
use data_looker.Prelude.{[], ◌∷◌}
use data_looker.Text.{codes}
use data_looker.Map.{text_is_eq}
use data_looker.Registries.{Queries, ShellRun}

abbrev one_running : Queries
one_running = record { running = (codes "q", 3) ∷ []; next = 4; cancelled = [] }

abbrev a_run : ShellRun
a_run = record { id = codes "r2"; connection_id = codes "c" }
