-- ===== src/Bigquery/Estimate.antt =====
-- src-tauri/src/drivers/bigquery/estimate.rs, and what mod.rs keeps of partitions: which partitioned
-- tables a statement reads with no filter that could prune them.
mod Named
mod Tests
use data_looker.Prelude.{
  ℕ, zero, suc, ◌+◌, ◌-◌, Bool, true, false, not, ◌&&◌, ◌||◌, Option, none, some, List, [], ◌∷◌,
  ◌++◌, map, ◌==◌, ltb, if◌then◌else◌, length, any, select,
}
use data_looker.Text.{Text, codes, strip_prefix, to_lower, is_digit, is_alphabetic}
use data_looker.Map.{Map, text_is_eq, get, insert}
use data_looker.Error.{AppError, Result, ok, err}
use data_looker.Bigquery.Api.{Failure, failure_error, hidden, Table, TableReference, Partitioning}

abbrev pub arrival : List Text
arrival = codes "_PARTITIONTIME" ∷ codes "_PARTITIONDATE" ∷ []

pub record Unpruned : Type 0 where
  pub table : Text
  pub column : Text

abbrev pub time_columns : Option Text → List Text
time_columns none = arrival
time_columns (some column) = column ∷ []

abbrev pub range_columns : Option Partitioning → Option (List Text)
range_columns none = none
range_columns (some range) = elim range.field [ none ↦ none | some column ↦ some (column ∷ []) ]

unfoldable pub pruned_by : Table → Option (List Text)
pruned_by table = elim table.time_partitioning [
  | some time ↦ some (time_columns time.field)
  | none ↦ range_columns table.range_partitioning
]

-- What the request for the table was answered with, read.
unfoldable pub partitioning : Result Table Failure → Result (Option (List Text)) AppError
unfolding pruned_by hidden
partitioning (ok found) = ok (pruned_by found)
partitioning (err failure) = if hidden failure then ok none else err (failure_error failure)

abbrev pub lower : Text → Text
lower s = map to_lower s

abbrev pub is_part : ℕ → Bool
is_part c = is_alphabetic c || is_digit c || c == b'_'

-- The character on one side of a name, if there is one.
abbrev pub part : Option ℕ → Bool
part none = false
part (some c) = is_part c

abbrev pub first_of : Text → Option ℕ
first_of [] = none
first_of (c ∷ s) = some c

abbrev pub whole : Option ℕ → Option Text → Bool
whole before none = false
whole before (some after) = not (part before) && not (part (first_of after))

-- How many characters behind this one belong to the match that starts at it.
abbrev pub skipped : Text → Option Text → ℕ
skipped name none = 0
skipped name (some after) = length name - 1

-- `match_indices` with its test: matches do not overlap, and the first number is how many of the
-- characters that follow are a match's.
unfoldable pub matches : Text → ℕ → Option ℕ → Text → Bool
unfolding strip_prefix
matches name (suc k) before [] = false
matches name (suc k) before (c ∷ s) = matches name k (some c) s
matches name zero before [] = whole before (strip_prefix name [])
matches name zero before (c ∷ s) =
    let found = strip_prefix name (c ∷ s) in
    whole before found || matches name (skipped name found) (some c) s

unfoldable pub names : Text → Text → Bool
unfolding matches
names sql name = matches (lower name) 0 none (lower sql)

abbrev pub dotted : TableReference → Text
dotted table = table.project_id ++ (b'.' ∷ table.dataset_id ++ (b'.' ∷ table.table_id))

abbrev pub Read : Type 0
Read = TableReference × List Text

abbrev pub is_read : Text → Read → Bool
unfolding names
is_read sql r = names sql r.0.dataset_id && names sql r.0.table_id

abbrev pub is_pruned : Text → Read → Bool
unfolding names
is_pruned sql r = any (names sql) r.1

-- `columns[0]`: `pruned_by` never gives an empty list, on which the source would panic.
abbrev pub first_column : List Text → Text
first_column [] = []
first_column (c ∷ cs) = c

unfoldable pub unpruned : Text → List Read → List Unpruned
unfolding is_read is_pruned
unpruned sql read =
    map (λ (r : Read). record { table = dotted r.0; column = first_column r.1 })
      (select (λ (r : Read). not (is_pruned sql r)) (select (is_read sql) read))

-- `BigQuerySession::partitioning`: what was asked is trusted for a minute. `now` is the time in
-- seconds, `answer` what BigQuery says if it is asked.
abbrev pub partitions_kept : ℕ
partitions_kept = 60

abbrev pub Partitions : Type 0
Partitions = Map Text (ℕ × Option (List Text))

abbrev pub remembered : ℕ → Option (ℕ × Option (List Text)) → Option (Option (List Text))
remembered now none = none
remembered now (some (asked, known)) =
    if ltb (now - asked) partitions_kept then some known else none

abbrev pub learned :
    Partitions
    → ℕ
    → Text
    → Result (Option (List Text)) AppError
    → Result (Option (List Text)) AppError × Partitions
learned kept now key (ok found) = (ok found, insert kept key (now, found))
learned kept now key (err e) = (err e, kept)

unfoldable pub session_partitioning :
    Partitions
    → ℕ
    → TableReference
    → Result Table Failure
    → Result (Option (List Text)) AppError × Partitions
unfolding partitioning
session_partitioning kept now table answer = elim (remembered now (get kept (dotted table))) [
  | some known ↦ (ok known, kept)
  | none ↦ learned kept now (dotted table) (partitioning answer)
]
