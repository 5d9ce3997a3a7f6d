-- ===== src/Db.antt =====
-- meta.db (src-tauri/src/db and src-tauri/migrations): the tables, as the rows that they hold. A
-- statement's text is read as what SQLite does on these rows. Every call may fail; what the calls
-- of one operation meet is a parameter of it, and a failed transaction leaves the tables alone.
pub mod Tabs
pub mod History
pub mod Templates
use data_looker.Prelude.{ℕ, Bool, true, false, Option, none, some, List, [], ◌∷◌, select, not, any}
use data_looker.Text.{Text, text_eq}
use data_looker.Error.{AppError, Result}

-- A row of `open_tabs`.
pub record OpenTab : Type 0 where
  pub connection_id : Text
  pub position : ℕ
  pub kind : Text
  pub title : Option Text
  pub sql : Option Text
  pub schema_name : Option Text
  pub table_name : Option Text
  pub active : Bool

pub data Source : Type 0 where
  reader agent handoff : Source

-- A row of `query_history`, with its source as it is written.
pub record HistoryRow : Type 0 where
  pub id : ℕ
  pub connection_id : Text
  pub sql : Text
  pub ran_at : Text
  pub duration_ms : ℕ
  pub row_count : Option ℕ
  pub error : Option Text
  pub source : Text

pub record QueryTemplate : Type 0 where
  pub id : Text
  pub name : Text
  pub sql : Text

pub record Meta : Type 0 where
  -- The ids of `connections`.
  pub connections : List Text
  pub open_tabs : List OpenTab
  pub query_history : List HistoryRow
  pub query_templates : List QueryTemplate

abbrev pub is_stored : Meta → Text → Bool
is_stored m id = any (text_eq id) m.connections

-- `ON DELETE CASCADE`, which both tables declare.
unfoldable pub delete_row : Meta → Text → Meta
delete_row m id = record m {
  connections = select (λ c. not (text_eq id c)) m.connections;
  open_tabs = select (λ (t : OpenTab). not (text_eq id t.connection_id)) m.open_tabs;
  query_history = select (λ (h : HistoryRow). not (text_eq id h.connection_id)) m.query_history;
}
