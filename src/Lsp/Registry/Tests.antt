-- ===== src/Lsp/Registry/Tests.antt =====
-- A server that is starting while all are stopped.
use data_looker.Prelude.{◌≡◌, none, List, [], ◌∷◌, inl, inr}
use data_looker.Text.{codes}
use data_looker.Lsp.Registry.{
  LspSession, LspRegistry, before_starting, insert_session, LspOperation, asks, takes_all,
  lsp_steps,
}
use data_looker.Lsp.Registry.Stopping.{insert_session-stopped_meanwhile}

abbrev nothing_runs : LspRegistry
nothing_runs = record { running = []; stopped = [] }

abbrev starting : LspSession
starting = record { id = codes "s"; connection_id = codes "c" }

abbrev meanwhile : List LspOperation
meanwhile = asks (codes "d") ∷ takes_all ∷ []

insert_session-stopped_meanwhile_example :
    let (seen, r) = before_starting nothing_runs (codes "c") in
    insert_session (lsp_steps r meanwhile) starting seen ≡ (none, lsp_steps r meanwhile)
insert_session-stopped_meanwhile_example =
    insert_session-stopped_meanwhile nothing_runs meanwhile starting (inr (inl tt))
