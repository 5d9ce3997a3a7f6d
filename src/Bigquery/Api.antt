-- ===== src/Bigquery/Api.antt =====
-- src-tauri/src/drivers/bigquery/api.rs: what BigQuery's REST API is asked and answers, as far as the
-- driver reads it. The transport is a parameter of the modules that call it.
use data_looker.Prelude.{ℕ, Bool, false, ◌||◌, ◌==◌, ◌++◌, Option, none, some, List, [], ◌∷◌}
use data_looker.Text.{Text, codes}
use data_looker.Text.Decimal.{to_text}
use data_looker.Json.{Value}
use data_looker.Error.{AppError, database}

pub record Failure : Type 0 where
  pub code : Option ℕ
  pub message : Text

abbrev pub failure_error : Failure → AppError
failure_error failure = database failure.message

unfoldable pub hidden : Failure → Bool
hidden failure = elim failure.code [ none ↦ false | some code ↦ code == 403 || code == 404 ]

abbrev pub unanswered : Text → Failure
unanswered error = record { code = none; message = error }

-- `said` is the message that the body of a refusal gives, if it gives one.
unfoldable pub refused : Option Text → ℕ → Text → Failure
refused said status body = record {
  code = some status;
  message = elim said [
    | some message ↦ message
    | none ↦ codes "BigQuery answered " ++ (to_text status ++ (codes ": " ++ body))
  ];
}

-- A field of a schema. A record's own fields follow it; any other has none.
mutual
  pub data Field : Type 0 where
    -- Its name, its type as BigQuery spells it, its mode.
    field_of : Text → Text → Option Text → Nested → Field

  pub data Nested : Type 0 where
    no_fields : Nested
    own_fields : FieldList → Nested

  pub data FieldList : Type 0 where
    last : FieldList
    next : Field → FieldList → FieldList

abbrev pub name_of : Field → Text
name_of (field_of name kind mode _) = name

abbrev pub kind_of : Field → Text
kind_of (field_of name kind mode _) = kind

abbrev pub mode_of : Field → Option Text
mode_of (field_of name kind mode _) = mode

-- A row's cells, each value under `v`.
abbrev pub Row : Type 0
Row = List Value

pub record Answer : Type 0 where
  -- `job_reference.job_id`
  pub job_id : Option Text
  pub schema : Option (List Field)
  pub rows : Option (List Row)
  pub page_token : Option Text
  pub total_rows : Option Text
  pub job_complete : Option Bool

pub record TableReference : Type 0 where
  pub project_id : Text
  pub dataset_id : Text
  pub table_id : Text

pub record Partitioning : Type 0 where
  pub field : Option Text

pub record Table : Type 0 where
  pub kind : Option Text
  pub schema : Option (List Field)
  pub time_partitioning : Option Partitioning
  pub range_partitioning : Option Partitioning

pub record Plan : Type 0 where
  pub statement_type : Option Text
  pub ddl_target_table : Option TableReference
  pub total_bytes_processed : Option Text
  pub referenced_tables : Option (List TableReference)

pub record Query : Type 0 where
  pub query : Text
  pub location : Text
  pub use_legacy_sql : Bool
  pub timeout_ms : Option ℕ
  pub max_results : Option ℕ
  pub parameter_mode : Option Text
  -- A `STRING` parameter's name and value.
  pub query_parameters : List (Text × Text)

unfoldable pub new_query : Text → Text → Query
new_query query location = record {
  query = query;
  location = location;
  use_legacy_sql = false;
  timeout_ms = none;
  max_results = none;
  parameter_mode = none;
  query_parameters = [];
}

unfoldable pub text_parameter : Query → Text → Text → Query
text_parameter q name value = record q {
  parameter_mode = some (codes "NAMED");
  query_parameters = q.query_parameters ++ (name, value) ∷ [];
}
