-- ===== src/Lsp/Registry.antt =====
-- `LspRegistry` of src-tauri/src/lsp/mod.rs: one language server per connection. A start is
-- `before_starting` and `insert_session`, with what other callers do between them.
mod Stopping
mod Tests
use data_looker.Prelude.{
  ℕ, suc, ◌≡◌, Bool, true, false, Option, none, some, List, [], ◌∷◌, ◌==◌, if◌then◌else◌, map,
}
use data_looker.Text.{Text, text_eq}
use data_looker.Map.{Map, text_is_eq, get, insert, remove, or_default, is_some}

pub record LspSession : Type 0 where
  pub id : Text
  pub connection_id : Text

pub record LspRegistry : Type 0 where
  pub running : Map Text LspSession
  pub stopped : Map Text ℕ

unfoldable pub stops : LspRegistry → Text → ℕ
stops r id = or_default (get r.stopped id)

-- Asking records the connection.
unfoldable pub before_starting : LspRegistry → Text → ℕ × LspRegistry
unfolding stops
before_starting r id = (
  stops r id,
  (if is_some (get r.stopped id) then r else record r { stopped = insert r.stopped id 0 }),
)

unfoldable pub insert_session : LspRegistry → LspSession → ℕ → Option LspSession × LspRegistry
unfolding stops
insert_session r session seen =
    if stops r session.connection_id == seen
    then (elim (get r.running session.connection_id) [
      | some first ↦ (some first, r)
      | none ↦ (some session, record r { running = insert r.running session.connection_id session })
    ])
    else (none, r)

unfoldable pub remove_server : LspRegistry → Text → Option LspSession × LspRegistry
unfolding stops
remove_server r id = (
  get r.running id,
  record { running = remove r.running id; stopped = insert r.stopped id (suc (stops r id)) },
)

unfoldable pub remove_session : LspRegistry → Text → Text → Bool × LspRegistry
remove_session r connection_id id = elim (get r.running connection_id) [
  | none ↦ (true, r)
  | some session ↦
      if text_eq session.id id
      then (true, record r { running = remove r.running connection_id })
      else (false, r)
]

-- `values_mut` of the counts.
unfoldable pub bumped : Map Text ℕ → Map Text ℕ
bumped [] = []
bumped ((k, n) ∷ m) = (k, suc n) ∷ bumped m

unfoldable pub take_all_servers : LspRegistry → List LspSession × LspRegistry
unfolding bumped
take_all_servers r = (
  map (λ (e : Text × LspSession). e.1) r.running,
  record { running = []; stopped = bumped r.stopped },
)

-- What a caller does to the registry in one critical section.
pub data LspOperation : Type 0 where
  asks : Text → LspOperation
  inserts : LspSession → ℕ → LspOperation
  removes : Text → LspOperation
  removes_session : Text → Text → LspOperation
  takes_all : LspOperation

unfoldable pub lsp_step : LspRegistry → LspOperation → LspRegistry
unfolding before_starting insert_session remove_server remove_session take_all_servers
lsp_step r (asks id) = (before_starting r id).1
lsp_step r (inserts session seen) = (insert_session r session seen).1
lsp_step r (removes id) = (remove_server r id).1
lsp_step r (removes_session c id) = (remove_session r c id).1
lsp_step r takes_all = (take_all_servers r).1

unfoldable pub lsp_steps : LspRegistry → List LspOperation → LspRegistry
unfolding lsp_step
lsp_steps r [] = r
lsp_steps r (o ∷ os) = lsp_steps (lsp_step r o) os
