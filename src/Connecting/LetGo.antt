-- ===== src/Connecting/LetGo.antt =====
-- Nothing that was opened for a connection before it was saved or deleted is used after.
use data_looker.Prelude.{ℕ, ◌<◌, ◌≡◌, false, none, some, inr}
use data_looker.Text.{Text, text_eq}
use data_looker.Map.{Eq, text_is_eq, get}
use data_looker.Error.{AppError, Result, ok, err}
use data_looker.Connections.{SaveConnectionInput}
use data_looker.Sessions.{Whose, Session, Registry, look, land, peek, key_is_eq}
use data_looker.Lsp.Registry.{LspSession, stops, insert_session}
use data_looker.Completion.{TablePath, generation}
use data_looker.Connecting.{Standing}

module _ {Columns : Type 0} ⦃e : Eq TablePath⦄ where
  -- What is closed for a connection: its sessions and its server are gone, one that was being opened
  -- before does not come back, nothing is known of its tables, and what was being learnt of them
  -- before is not believed.
  pub record IsLetGo (id : Text) (before after : Standing Columns) : Type 0 where
    pub session : (whose : Whose) → peek after.sessions id whose ≡ none
    pub opening :
        (whose : Whose) (seen : ℕ) (s : Session)
        → look before.sessions id whose ≡ inr seen
        → land after.sessions id whose seen s ≡ (none, after.sessions)
    pub server : get after.servers.running id ≡ none
    pub starting :
        (s : LspSession)
        → s.connection_id ≡ id
        → insert_session after.servers s (stops before.servers id) ≡ (none, after.servers)
    pub unknown : get after.catalogs.tables id ≡ none
    pub learning : generation before.catalogs id < generation after.catalogs id
    pub others :
        (other : Text) (whose : Whose)
        → text_eq id other ≡ false
        → (peek after.sessions other whose ≡ peek before.sessions other whose)
          × (get after.servers.running other ≡ get before.servers.running other)

  -- An edit that a save refused may have been made in part, so the connection is let go all the same;
  -- a new connection that was refused is none.
  abbrev pub Saved :
      SaveConnectionInput → Result Text AppError → Standing Columns → Standing Columns → Type 0
  Saved input (ok id) before after = IsLetGo id before after
  Saved input (err _) before after =
      ((id : Text) → input.id ≡ some id → IsLetGo id before after)
      × (input.id ≡ none → after ≡ before)
