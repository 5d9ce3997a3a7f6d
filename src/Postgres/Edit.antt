-- ===== src/Postgres/Edit.antt =====
-- src-tauri/src/drivers/postgres/edit.rs: the statements of a save, and their run in one transaction.
-- `shape` asks the catalog and is not modelled; its result is a parameter.
pub mod Plain
pub mod Renders
pub mod Rendered
pub mod Plans
pub mod Planned
mod Tests
use data_looker.Prelude.{
  ℕ, zero, suc, ◌+◌, ◌-◌, Bool, true, false, not, ◌&&◌, Option, none, some, List, [], ◌∷◌, ◌++◌,
  map, leb, ◌==◌, if◌then◌else◌, length, all, is_empty, get_elem?,
}
use data_looker.Text.{Text, codes, join, text_leb, is_digit}
use data_looker.Text.Decimal.{to_text, parse_usize}
use data_looker.Map.{Map, get, is_some, text_is_eq}
use data_looker.Error.{Result, ok, err, ◌>>=◌, ◌>>◌}
use data_looker.Drivers.{RowUpdate, RowInsert, RowDelete, TableShape, DriverError, refused}
use data_looker.Postgres.Quote.{quote, literal}

pub record Statement : Type 0 where
  pub sql : Text
  pub values : List (Option Text)

pub record Edits : Type 0 where
  pub inserts : List RowInsert
  pub updates : List RowUpdate
  pub deletes : List RowDelete

abbrev pub Pairs : Type 0
Pairs = List (Text × Option Text)

-- `sort_by_key` by the column: a stable insertion sort.
unfoldable pub insert_pair : Text → Option Text → Pairs → Pairs
insert_pair k v [] = (k, v) ∷ []
insert_pair k v ((j, w) ∷ ps) =
    let rest = insert_pair k v ps in if text_leb k j then (k, v) ∷ (j, w) ∷ ps else (j, w) ∷ rest

unfoldable pub sorted : Pairs → Pairs
unfolding insert_pair
sorted [] = []
sorted ((k, v) ∷ ps) = insert_pair k v (sorted ps)

-- A column the table does not have is left as text.
unfoldable pub cast : TableShape → Text → Text
cast shape column = elim (get shape.types column) [ none ↦ codes "text" | some t ↦ t ]

-- `$n::type`, for the value that is pushed as the `n`th.
abbrev pub placeholder : TableShape → Text → ℕ → Text
placeholder shape column n = b'$' ∷ (to_text n ++ (codes "::" ++ cast shape column))

-- What the pairs write: `lead` for the column, and the placeholder of its value, which is numbered
-- by how many values are pushed by then.
abbrev pub numbered : TableShape → (Text → Text) → Pairs → ℕ → List Text
numbered shape lead [] n = []
numbered shape lead ((column, v) ∷ ps) n =
    (lead column ++ placeholder shape column (suc n)) ∷ numbered shape lead ps (suc n)

abbrev pub pushed : Pairs → List (Option Text)
pushed [] = []
pushed ((column, v) ∷ ps) = v ∷ pushed ps

abbrev pub target : Text → Text → Text
target schema table = quote schema ++ (b'.' ∷ quote table)

abbrev pub bare : Text → Text
bare column = []

abbrev pub assignment : Text → Text
assignment column = quote column ++ codes " = "

abbrev pub comparison : Text → Text
comparison column = quote column ++ codes " IS NOT DISTINCT FROM "

abbrev pub version_match : ℕ → Text
version_match n = codes "xmin = $" ++ (to_text n ++ codes "::xid")

unfoldable pub insert : TableShape → Text → Text → RowInsert → Statement
unfolding sorted cast
insert shape schema table row =
    let columns = sorted row.values in
    if is_empty columns
    then record {
      sql = codes "INSERT INTO " ++ (target schema table ++ codes " DEFAULT VALUES");
      values = [];
    }
    else record {
      sql =
          codes "INSERT INTO "
          ++ (target schema table
              ++ (codes " ("
                  ++ (join (codes ", ") (map (λ p. quote p.0) columns)
                      ++ (codes ") VALUES ("
                          ++ (join (codes ", ") (numbered shape bare columns 0) ++ codes ")")))));
      values = pushed columns;
    }

unfoldable pub delete : TableShape → Text → Text → RowDelete → Statement
unfolding sorted cast
delete shape schema table row =
    let key = sorted row.key in
    let matches = numbered shape comparison key 0 ++ version_match (length key + 1) ∷ [] in
    record {
      sql =
          codes "DELETE FROM "
          ++ (target schema table ++ (codes " WHERE " ++ join (codes " AND ") matches));
      values = pushed key ++ some row.version ∷ [];
    }

unfoldable pub update : TableShape → Text → Text → RowUpdate → Statement
unfolding sorted cast
update shape schema table row =
    let set = sorted row.set in
    let key = sorted row.key in
    let matches =
      numbered shape comparison key (length set)
      ++ version_match (length set + length key + 1) ∷ [] in
    record {
      sql =
          codes "UPDATE "
          ++ (target schema table
              ++ (codes " SET "
                  ++ (join (codes ", ") (numbered shape assignment set 0)
                      ++ (codes " WHERE " ++ join (codes " AND ") matches))));
      values = pushed set ++ (pushed key ++ some row.version ∷ []);
    }

-- The whole primary key.
unfoldable pub whole_key : TableShape → Map Text (Option Text) → Bool
whole_key shape key =
    length key == length shape.primary_key && all (λ c. is_some (get key c)) shape.primary_key

unfoldable pub names_one_row : TableShape → Map Text (Option Text) → Result (Unit {0}) DriverError
unfolding whole_key
names_one_row shape key =
    if whole_key shape key
    then ok tt
    else err (
        refused (
          codes "a row is named by ("
          ++ (join (codes ", ") shape.primary_key ++ codes "), so nothing was saved")))

-- The loop over the deletions, and the one over the updates.
unfoldable pub plan_deletes :
    TableShape → Text → Text → List RowDelete → Result (List Statement) DriverError
unfolding names_one_row delete
plan_deletes shape schema table [] = ok []
plan_deletes shape schema table (d ∷ ds) = do
  names_one_row shape d.key
  rest ← plan_deletes shape schema table ds
  ok (delete shape schema table d ∷ rest)

unfoldable pub plan_updates :
    TableShape → Text → Text → List RowUpdate → Result (List Statement) DriverError
unfolding names_one_row update
plan_updates shape schema table [] = ok []
plan_updates shape schema table (u ∷ us) = do
  names_one_row shape u.key
  rest ← plan_updates shape schema table us
  ok (update shape schema table u ∷ rest)

-- Deletions go first and additions last.
unfoldable pub plan : TableShape → Text → Text → Edits → Result (List Statement) DriverError
unfolding plan_deletes plan_updates insert
plan shape schema table edits =
    if is_empty shape.primary_key
    then err (
        refused
          (schema ++ (b'.' ∷ (table ++ codes " has no primary key, so a row cannot be named"))))
    else do
      deletes ← plan_deletes shape schema table edits.deletes
      updates ← plan_updates shape schema table edits.updates
      ok (deletes ++ (updates ++ map (insert shape schema table) edits.inserts))

-- The digits at the front, and what is behind them.
unfoldable pub split_digits : Text → Text × Text
split_digits [] = ([], [])
split_digits (c ∷ s) =
    let (digits, rest) = split_digits s in if is_digit c then (c ∷ digits, rest) else ([], c ∷ s)

-- The value of a placeholder; `none` is the panic of `expect`, or of an index out of range.
unfoldable pub value_at : List (Option Text) → Text → Option Text
unfolding literal
value_at values digits = elim (parse_usize digits) [
  | none ↦ none
  | some zero ↦ none
  | some (suc i) ↦ elim (get_elem? values i) [ none ↦ none | some v ↦ some (literal v) ]
]

abbrev pub prepend : Text → Option Text → Option Text
prepend t none = none
prepend t (some s) = some (t ++ s)

-- `rendered`: each `$n` outside quotes becomes its value as a literal. `skip` digits of the last
-- placeholder are still to be stepped over; `none` is a panic.
unfoldable pub render : List (Option Text) → Bool → ℕ → Text → Option Text
unfolding split_digits value_at
render values quoted skip [] = some []
render values quoted (suc skip) (c ∷ s) = render values quoted skip s
render values quoted zero (c ∷ s) =
    let toggled = prepend (c ∷ []) (render values (not quoted) 0 s) in
    let copied = prepend (c ∷ []) (render values quoted 0 s) in
    let behind = render values quoted (length (split_digits s).0) s in
    if c == b'"'
    then toggled
    else if c == b'$' && not quoted
    then (elim (value_at values (split_digits s).0) [ none ↦ none | some v ↦ prepend v behind ])
    else copied

unfoldable pub rendered : Statement → Option Text
unfolding render
rendered statement = render statement.values false 0 statement.sql
