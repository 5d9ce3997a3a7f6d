-- ===== src/Db/Tabs.antt =====
-- src-tauri/src/db/tabs.rs and src-tauri/src/app/tabs.rs: the tabs that a connection had open.
mod Kept
mod Tests
use data_looker.Prelude.{
  ℕ, suc, ◌+◌, ◌-◌, ◌^◌, min, max, Bool, true, false, not, ◌&&◌, Option, none, some, List, [], ◌∷◌,
  ◌++◌, ◌==◌, ltb, leb, if◌then◌else◌, select, length,
}
use data_looker.Text.{Text, codes, text_eq}
use data_looker.Error.{AppError, validation, not_found, database, Result, ok, err, ◌>>=◌}
use data_looker.Db.{Meta, OpenTab, is_stored}

pub data SavedTab : Type 0 where
  -- A title and what was written, and a schema and its table.
  sql_tab table_tab : Text → Text → SavedTab

pub record SavedTabs : Type 0 where
  pub tabs : List SavedTab
  pub active : ℕ

abbrev pub missing : Text → Text → AppError
missing kind column = database (codes "a " ++ (kind ++ (codes " tab without its " ++ column)))

abbrev pub column_text : Text → Text → Option Text → Result Text AppError
column_text kind column none = err (missing kind column)
column_text kind column (some text) = ok text

unfoldable pub row_to_tab : OpenTab → Result SavedTab AppError
row_to_tab row =
    if text_eq row.kind (codes "sql")
    then (column_text row.kind (codes "title") row.title >>= λ title.
        column_text row.kind (codes "sql") row.sql >>= λ sql. ok (sql_tab title sql))
    else (if text_eq row.kind (codes "table")
        then (column_text row.kind (codes "schema_name") row.schema_name >>= λ schema.
            column_text row.kind (codes "table_name") row.table_name >>= λ table.
            ok (table_tab schema table))
        else err (database (codes "a tab of kind " ++ row.kind)))

-- `ORDER BY position`.
unfoldable pub insert_by_position : OpenTab → List OpenTab → List OpenTab
insert_by_position row [] = row ∷ []
insert_by_position row (r ∷ rs) =
    let rest = insert_by_position row rs in
    if leb row.position r.position then row ∷ r ∷ rs else r ∷ rest

unfoldable pub by_position : List OpenTab → List OpenTab
unfolding insert_by_position
by_position [] = []
by_position (r ∷ rs) = insert_by_position r (by_position rs)

abbrev pub of_connection : Text → OpenTab → Bool
of_connection id row = text_eq row.connection_id id

-- The loop of `load` from the row at `index`.
unfoldable pub load_rows : List OpenTab → ℕ → SavedTabs → Result SavedTabs AppError
unfolding row_to_tab
load_rows [] index saved = ok saved
load_rows (row ∷ rows) index saved = row_to_tab row >>= λ tab. load_rows rows (suc index) (record {
  tabs = saved.tabs ++ tab ∷ [];
  active = if row.active then (if ltb index (2 ^ 32) then index else 0) else saved.active;
})

unfoldable pub load : Meta → Text → Result SavedTabs AppError
unfolding load_rows by_position
load m id =
    load_rows (by_position (select (of_connection id) m.open_tabs)) 0
      (record { tabs = []; active = 0 })

-- The row that is inserted for the tab at `position`.
abbrev pub tab_row : Text → ℕ → ℕ → SavedTab → OpenTab
tab_row id active position (sql_tab title sql) = record {
  connection_id = id;
  position = min position (2 ^ 63 - 1);
  kind = codes "sql";
  title = some title;
  sql = some sql;
  schema_name = none;
  table_name = none;
  active = ltb position (2 ^ 32) && position == active;
}
tab_row id active position (table_tab schema table) = record {
  connection_id = id;
  position = min position (2 ^ 63 - 1);
  kind = codes "table";
  title = none;
  sql = none;
  schema_name = some schema;
  table_name = some table;
  active = ltb position (2 ^ 32) && position == active;
}

unfoldable pub tab_rows : Text → ℕ → ℕ → List SavedTab → List OpenTab
tab_rows id active position [] = []
tab_rows id active position (tab ∷ tabs) =
    tab_row id active position tab ∷ tab_rows id active (suc position) tabs

-- `refused` is the error that the transaction meets, if it meets one.
unfoldable pub replace : Option AppError → Meta → Text → SavedTabs → Result Bool AppError × Meta
unfolding tab_rows
replace (some refused) m id saved = (err refused, m)
replace none m id saved =
    if is_stored m id
    then (
      ok true,
      record m {
        open_tabs =
            select (λ row. not (of_connection id row)) m.open_tabs
            ++ tab_rows id saved.active 0 saved.tabs;
      },
    )
    else (ok false, m)

-- `App::save_tabs`.
unfoldable pub save_tabs :
    Option AppError → Meta → Text → SavedTabs → Result (Unit {0}) AppError × Meta
unfolding replace
save_tabs refused m id saved =
    let (replaced, m') = replace refused m id saved in
    let answer : Result (Unit {0}) AppError =
      replaced >>= λ found. if found then ok tt else err (not_found id) in
    if leb (max (length saved.tabs) 1) saved.active
    then (err (validation (codes "the active tab is not among the tabs")), m)
    else (answer, m')
