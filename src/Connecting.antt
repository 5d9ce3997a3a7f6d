-- ===== src/Connecting.antt =====
-- `save_connection` and `delete_connection` of src-tauri/src/app/connections.rs, and `stop_command` of
-- shell.rs: what they do to everything that stands open for a connection.
mod LetGo
mod Tests
use data_looker.Prelude.{ℕ, ◌≡◌, Bool, true, false, Option, none, some, if◌then◌else◌}
use data_looker.Text.{Text}
use data_looker.Map.{Eq, text_is_eq, get, is_some}
use data_looker.Error.{AppError, Result, ok, err}
use data_looker.Connections.{Backend, SaveConnectionInput, given, save, delete}
use data_looker.Sessions.{Registry, close}
use data_looker.Lsp.Registry.{LspRegistry, remove_server}
use data_looker.Registries.{Shells, ShellRun, remove_run}
use data_looker.Completion.{Catalog, TablePath, forget}

pub record Standing (Columns : Type 0) : Type 0 where
  pub sessions : Registry
  pub servers : LspRegistry
  pub catalogs : Catalog Columns
  pub shells : Shells

module _ {Columns : Type 0} ⦃e : Eq TablePath⦄ where
  abbrev pub stopped_run : Text → Option ShellRun → Standing Columns → Standing Columns
  unfolding remove_run
  stopped_run id none o = o
  stopped_run id (some run) o = record o { shells = (remove_run o.shells id run.id).1 }

  -- Once the command is gone.
  unfoldable pub stop_command : Text → Standing Columns → Standing Columns
  unfolding stopped_run
  stop_command id o = stopped_run id (get o.shells id) o

  unfoldable pub let_go : Text → Standing Columns → Standing Columns
  unfolding close remove_server forget
  let_go id o = record o {
    sessions = close o.sessions id;
    servers = (remove_server o.servers id).1;
    catalogs = forget o.catalogs id;
  }

  abbrev pub edited : Option Text → Standing Columns → Standing Columns
  unfolding let_go
  edited none o = o
  edited (some id) o = let_go id o

  unfoldable pub after_save :
      SaveConnectionInput → Result Text AppError → Standing Columns → Standing Columns
  unfolding edited stop_command given
  after_save input (ok id) o =
      let_go id (if is_some (given input.command) then o else stop_command id o)
  after_save input (err e) o = edited input.id o

  module _ (backend : Backend) where
    unfoldable pub save_connection :
        SaveConnectionInput
        → backend.Stores × Standing Columns
        → Result Text AppError × (backend.Stores × Standing Columns)
    unfolding save after_save
    save_connection input (s, o) =
        let (saved, s') = save backend input s in (saved, (s', after_save input saved o))

    unfoldable pub delete_connection :
        Text
        → backend.Stores × Standing Columns
        → Result (Unit {0}) AppError × (backend.Stores × Standing Columns)
    unfolding delete let_go stop_command
    delete_connection id (s, o) =
        let (deleted, s') = delete backend id s in (deleted, (s', stop_command id (let_go id o)))
