-- ===== src/Bigquery/Schema.antt =====
-- src-tauri/src/drivers/bigquery/schema.rs: the tree, the columns and the types, out of the rows of
-- the catalog's queries, which Bigquery/Query reads. Sequences and user types, which only
-- PostgreSQL has, are left out of a schema.
mod Tree
mod Assembled
mod Literals
mod Tests
use mathlib.Core.List.{reverse}
use data_looker.Prelude.{
  ℕ, Bool, true, false, not, Option, none, some, List, [], ◌∷◌, ◌++◌, map, ◌==◌, if◌then◌else◌,
  filter_map, get_elem?, is_empty,
}
use data_looker.Text.{Text, codes, text_eq, text_leb, join, replace, strip_prefix}
use data_looker.Json.{Value}
use data_looker.Error.{AppError, Result, ok, err}
use data_looker.Bigquery.Api.{
  Failure, failure_error, hidden, Field, Nested, FieldList, field_of, no_fields, own_fields, last,
  next, name_of, mode_of,
}
use data_looker.Bigquery.Value.{canonical, repeated}

pub data TableKind : Type 0 where
  table_kind view materialized_view foreign_table : TableKind

pub data RoutineKind : Type 0 where
  function procedure aggregate window table_function : RoutineKind

pub record Table : Type 0 where
  pub name : Text
  pub kind : TableKind
  pub comment : Option Text

pub record Routine : Type 0 where
  pub name : Text
  pub kind : RoutineKind
  pub arguments : Text
  pub comment : Option Text

pub record Schema : Type 0 where
  pub name : Text
  pub tables : List Table
  pub routines : List Routine

pub record Column : Type 0 where
  pub name : Text
  pub data_type : Text
  pub nullable : Bool
  pub comment : Option Text

abbrev pub Cells : Type 0
Cells = List Value

-- `text` of the cell at an index.
abbrev pub text_of : Option Value → Option Text
text_of (some (Value.string t)) = some t
text_of _ = none

abbrev pub text : Cells → ℕ → Option Text
text row at = text_of (get_elem? row at)

abbrev pub is_word : Text → Option Text → Bool
is_word word none = false
is_word word (some t) = text_eq t word

unfoldable pub kind_of : Option Text → TableKind
kind_of table_type =
    if is_word (codes "VIEW") table_type
    then view
    else (if is_word (codes "MATERIALIZED VIEW") table_type
        then materialized_view
        else (if is_word (codes "EXTERNAL") table_type then foreign_table else table_kind))

unfoldable pub routine_kind : Option Text → RoutineKind
routine_kind routine_type =
    if is_word (codes "PROCEDURE") routine_type
    then procedure
    else (if is_word (codes "TABLE FUNCTION") routine_type
        then table_function
        else (if is_word (codes "AGGREGATE FUNCTION") routine_type then aggregate else function))

abbrev pub strip_last : ℕ → Text → Option Text
strip_last c [] = none
strip_last c (d ∷ s) = if d == c then some (reverse s) else none

-- What a backslash and the character behind it stand for.
abbrev pub escaped : ℕ → ℕ
escaped c =
    if c == b'n' then b'\n' else (if c == b't' then b'\t' else (if c == b'r' then b'\r' else c))

unfoldable pub unescaped : Text → Text
unescaped [] = []
unescaped (c ∷ []) = c ∷ []
unescaped (c ∷ d ∷ s) =
    let there = escaped d ∷ unescaped s in
    let here = c ∷ unescaped (d ∷ s) in if c == b'\\' then there else here

abbrev pub inner : Option Text → Option Text
inner none = none
inner (some rest) = strip_last b'"' (reverse rest)

abbrev pub unescaped_or : Text → Option Text → Text
unfolding unescaped
unescaped_or literal none = literal
unescaped_or literal (some t) = unescaped t

unfoldable pub unquoted : Text → Text
unfolding strip_prefix unescaped_or
unquoted literal = unescaped_or literal (inner (strip_prefix (b'"' ∷ []) literal))

abbrev pub not_empty : Option Text → Option Text
not_empty none = none
not_empty (some t) = if is_empty t then none else some t

abbrev pub unquoted_option : Option Text → Option Text
unfolding unquoted
unquoted_option none = none
unquoted_option (some t) = some (unquoted t)

-- The dataset, and the table of it, that a row names.
abbrev pub named_table : Option Text → Option Text → Cells → Option (Text × Table)
unfolding kind_of unquoted_option
named_table (some dataset) (some name) row = some (
  dataset,
  record {
    name = name;
    kind = kind_of (text row 2);
    comment = not_empty (unquoted_option (text row 3));
  },
)
named_table _ _ row = none

unfoldable pub table_of : Cells → Option (Text × Table)
unfolding named_table
table_of row = named_table (text row 0) (text row 1) row

abbrev pub schema_with : Text → Table → Schema
schema_with dataset table = record { name = dataset; tables = table ∷ []; routines = [] }

-- The table goes to the last schema, if that is its dataset's, or to a new one.
unfoldable pub push_table : List Schema → Text → Table → List Schema
push_table [] dataset table = schema_with dataset table ∷ []
push_table (s ∷ []) dataset table =
    if text_eq s.name dataset
    then record s { tables = s.tables ++ table ∷ [] } ∷ []
    else s ∷ schema_with dataset table ∷ []
push_table (s ∷ t ∷ ss) dataset table = s ∷ push_table (t ∷ ss) dataset table

abbrev pub push_row : List Schema → Option (Text × Table) → List Schema
unfolding push_table
push_row schemas none = schemas
push_row schemas (some (dataset, table)) = push_table schemas dataset table

-- The loop of `assemble`.
unfoldable pub assemble_from : List Schema → List Cells → List Schema
unfolding push_row table_of
assemble_from schemas [] = schemas
assemble_from schemas (row ∷ rows) = assemble_from (push_row schemas (table_of row)) rows

unfoldable pub assemble : List Cells → List Schema
unfolding assemble_from
assemble rows = assemble_from [] rows

abbrev pub or_empty : Option Text → Text
or_empty none = []
or_empty (some t) = t

abbrev pub named_routine : Option Text → Option Text → Cells → Option (Text × Routine)
unfolding routine_kind
named_routine (some dataset) (some name) row = some (
  dataset,
  record {
    name = name;
    kind = routine_kind (text row 2);
    arguments = or_empty (text row 3);
    comment = none;
  },
)
named_routine _ _ row = none

-- To the first schema of the name, or to a new one behind them all.
unfoldable pub push_routine : List Schema → Text → Routine → List Schema
push_routine [] dataset routine =
    record { name = dataset; tables = []; routines = routine ∷ [] } ∷ []
push_routine (s ∷ ss) dataset routine =
    let rest = push_routine ss dataset routine in
    if text_eq s.name dataset
    then record s { routines = s.routines ++ routine ∷ [] } ∷ ss
    else s ∷ rest

abbrev pub push_routine_row : List Schema → Option (Text × Routine) → List Schema
unfolding push_routine
push_routine_row schemas none = schemas
push_routine_row schemas (some (dataset, routine)) = push_routine schemas dataset routine

unfoldable pub routines_from : List Schema → List Cells → List Schema
unfolding push_routine_row named_routine
routines_from schemas [] = schemas
routines_from schemas (row ∷ rows) =
    routines_from (push_routine_row schemas (named_routine (text row 0) (text row 1) row)) rows

-- `sort_by`, which is stable.
unfoldable pub insert_schema : Schema → List Schema → List Schema
insert_schema s [] = s ∷ []
insert_schema s (t ∷ ts) =
    let rest = insert_schema s ts in if text_leb s.name t.name then s ∷ t ∷ ts else t ∷ rest

unfoldable pub sorted_schemas : List Schema → List Schema
unfolding insert_schema
sorted_schemas [] = []
sorted_schemas (s ∷ ss) = insert_schema s (sorted_schemas ss)

unfoldable pub add_routines : List Schema → List Cells → List Schema
unfolding sorted_schemas routines_from
add_routines schemas rows = sorted_schemas (routines_from schemas rows)

abbrev pub column_parts : Option Text → Option Text → Option Text → Option Text → Option Column
column_parts (some name) (some data_type) (some nullable) comment = some (record {
  name = name;
  data_type = data_type;
  nullable = text_eq nullable (codes "YES");
  comment = not_empty comment;
})
column_parts _ _ _ comment = none

-- The rows of `columns`.
unfoldable pub columns_of : List Cells → List Column
columns_of rows =
    filter_map (λ row. column_parts (text row 0) (text row 1) (text row 2) (text row 3)) rows

abbrev pub array_of : Bool → Text → Text
array_of many base = if many then codes "ARRAY<" ++ (base ++ codes ">") else base

-- Each inner field is quoted.
unfoldable mutual
  unfolding canonical repeated replace join

  pub spelled : Field → Text
  spelled (field_of name kind mode nested) =
      let struct = codes "STRUCT<" ++ (join (codes ", ") (spelled_nested nested) ++ codes ">") in
      array_of (repeated (field_of name kind mode nested))
        (if text_eq (canonical kind) (codes "STRUCT") then struct else canonical kind)

  pub spelled_nested : Nested → List Text
  spelled_nested no_fields = []
  spelled_nested (own_fields own) = spelled_list own

  pub spelled_list : FieldList → List Text
  spelled_list last = []
  spelled_list (next field fields) =
      (codes "`" ++ (replace b'`' (codes "\\`") (name_of field) ++ (codes "` " ++ spelled field)))
      ∷ spelled_list fields

unfoldable pub described_column : Field → Column
unfolding spelled
described_column field = record {
  name = name_of field;
  data_type = spelled field;
  nullable = not (is_word (codes "REQUIRED") (mode_of field));
  comment = none;
}

abbrev pub or_none : Option (List Field) → List Field
or_none none = []
or_none (some fields) = fields

-- What the request for the table was answered with, which is its schema's fields here.
unfoldable pub described :
    Result (Option (List Field)) Failure → Result (Option (List Column)) AppError
unfolding described_column hidden
described (ok schema) = ok (some (map described_column (or_none schema)))
described (err failure) = if hidden failure then ok none else err (failure_error failure)
