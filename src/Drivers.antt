-- ===== src/Drivers.antt =====
-- src-tauri/src/drivers/mod.rs: what the two drivers share, as far as the modelled code uses it.
use data_looker.Prelude.{ℕ, Bool, Option, List}
use data_looker.Text.{Text}
use data_looker.Error.{AppError, database, conflict, in_transaction}
use data_looker.Map.{Map}

pub data TransactionState : Type 0 where
  idle open_transaction failed : TransactionState

pub data Hazard : Type 0 where
  delete_without_where update_without_where drop_object truncate drop_column dynamic write : Hazard

pub record Risk : Type 0 where
  pub statement : Text
  pub hazard : Hazard
  pub targets : List Text

-- How a table preview is ordered.
pub record Sort : Type 0 where
  pub column : Text
  pub descending : Bool

pub record Preview : Type 0 where
  pub versioned : Bool
  pub schema : Text
  pub table : Text
  pub filter : Text
  pub sort : Option Sort
  pub limit : ℕ
  pub offset : ℕ
  -- Read the table as it was at this point, which only BigQuery keeps.
  pub as_of : Option Text

pub record RowUpdate : Type 0 where
  pub key : Map Text (Option Text)
  pub set : Map Text (Option Text)
  pub version : Text

pub record RowInsert : Type 0 where
  pub values : Map Text (Option Text)

pub record RowDelete : Type 0 where
  pub key : Map Text (Option Text)
  pub version : Text

pub record TableShape : Type 0 where
  pub types : Map Text Text
  pub primary_key : List Text

pub record NamedDefinition : Type 0 where
  pub name : Text
  pub definition : Text

-- An error of the database library: one that the server reported, with its code, or another.
pub data SqlError : Type 0 where
  reported : Option Text → Text → SqlError
  protocol : Text → SqlError

pub data DriverError : Type 0 where
  sql : SqlError → DriverError
  refused in_open_transaction broken : Text → DriverError

abbrev pub message_of : SqlError → Text
message_of (reported code message) = message
message_of (protocol message) = message

-- `From<sqlx::Error>` and `From<DriverError>` for `AppError`.
unfoldable pub app_error : DriverError → AppError
app_error (sql e) = database (message_of e)
app_error (refused message) = conflict message
app_error (in_open_transaction message) = in_transaction message
app_error (broken message) = database message
