-- ===== src/Dispatch.antt =====
-- `Session` of src-tauri/src/drivers/session.rs: each operation of a session, sent to its driver or
-- refused. What the drivers do to a server is a record of operations.
mod Tests
use data_looker.Prelude.{
  ℕ, ◌≡◌, Bool, true, false, Option, none, some, List, [], ◌∷◌, ◌++◌, if◌then◌else◌,
}
use data_looker.Text.{Text, codes, text_eq}
use data_looker.Map.{is_some}
use data_looker.Error.{AppError, unsupported, Result, ok, err}
use data_looker.Drivers.{Preview, Risk, TransactionState, idle}
use data_looker.Sessions.{Session, postgres_session, bigquery_session}
use data_looker.Bigquery.Risks.{Planned}
use data_looker.Bigquery.Query.{QueryResult}
use data_looker.Bigquery.Preview.{TablePage}

-- What both drivers do, each on its own session; what only one does is named after it.
pub record Backends : Type 1 where
  pub Server : Type 0
  pub SchemaTree : Type 0
  pub Index : Type 0
  pub Column : Type 0
  pub TableDefinition : Type 0
  pub QueryPlan : Type 0
  pub TableShape : Type 0
  pub Edits : Type 0
  pub Plan : Type 0
  pub Estimate : Type 0
  pub test : Session → Server → Result (Unit {0}) AppError × Server
  pub execute : Session → Text → ℕ → Server → Result QueryResult AppError × Server
  pub schema_tree : Session → Server → Result SchemaTree AppError × Server
  pub columns : Session → Text → Text → Server → Result (List Column) AppError × Server
  pub preview : Session → Preview → Server → Result TablePage AppError × Server
  pub postgres_transaction_state : Session → Server → TransactionState
  pub postgres_execute_reading : Session → Text → ℕ → Server → Result QueryResult AppError × Server
  pub postgres_risks : Text → Bool → List Risk
  pub postgres_explain_statement : Text → Bool → Text
  pub postgres_explain : Session → Text → Server → Result QueryPlan AppError × Server
  pub postgres_routine_definition :
      Session → Text → Text → Text → Server → Result (Option Text) AppError × Server
  pub postgres_indexes : Session → Text → Text → Server → Result (List Index) AppError × Server
  pub postgres_definition :
      Session → Text → Text → Server → Result (Option TableDefinition) AppError × Server
  pub postgres_shape : Session → Text → Text → Server → Result TableShape AppError × Server
  pub postgres_plan_edits : Session → Text → Text → Edits → Server → Result Plan AppError × Server
  pub postgres_apply_plan : Session → Plan → Server → Result ℕ AppError × Server
  pub bigquery_plan : Session → Text → Server → Result Planned AppError × Server
  pub bigquery_estimate : Session → Text → Server → Result Estimate AppError × Server
  pub bigquery_risks : Session → Text → Bool → Server → Result (List Risk) AppError × Server
  pub bigquery_routine_definition :
      Session → Text → Text → Server → Result (Option Text) AppError × Server
  pub bigquery_described :
      Session → Text → Text → Text → Server → Result (Option (List Column)) AppError × Server
  pub bigquery_preview_cost : Session → Preview → Server → Result ℕ AppError × Server

abbrev pub not_yet : Text → AppError
not_yet what = unsupported (codes "BigQuery cannot " ++ (what ++ codes " yet."))

abbrev pub read_only : Text → AppError
read_only what = unsupported (codes "A BigQuery table cannot " ++ (what ++ codes "."))

-- The arm of a session.
abbrev pub match_session {ℓ} : {A : Type ℓ} → Session → A → A → A
match_session (postgres_session _ _ _ _ _ _) on_postgres on_bigquery = on_postgres
match_session (bigquery_session _ _) on_postgres on_bigquery = on_bigquery

module _ (d : Backends) where
  open d use {Server}

  abbrev pub Outcome : Type 0 → Type 0
  Outcome A = Result A AppError × Server

  unfoldable pub transaction_state : Session → Server → TransactionState
  transaction_state session s = match_session session (d.postgres_transaction_state session s) idle

  abbrev not_select : Text → AppError
  not_select kind = unsupported (
      codes "An agent may only read here, and BigQuery calls this a "
      ++ (kind ++ codes " statement."))

  -- What follows the dry run.
  abbrev pub once_planned : Session → Text → ℕ → Outcome Planned → Outcome QueryResult
  once_planned session sql row_limit (err e, s) = (err e, s)
  once_planned session sql row_limit (ok planned, s) =
      if text_eq planned.kind (codes "SELECT")
      then d.execute session sql row_limit s
      else (err (not_select planned.kind), s)

  unfoldable pub execute_reading : Session → Text → ℕ → Server → Outcome QueryResult
  execute_reading session sql row_limit s =
      match_session session (d.postgres_execute_reading session sql row_limit s)
        (once_planned session sql row_limit (d.bigquery_plan session sql s))

  unfoldable pub estimate : Session → Text → Server → Outcome d.Estimate
  estimate session sql s =
      match_session session
        (
          err (
              unsupported
                (codes "A PostgreSQL statement has no scan to estimate; explain it instead.")),
          s,
        )
        (d.bigquery_estimate session sql s)

  unfoldable pub session_risks : Session → Text → Bool → Server → Outcome (List Risk)
  session_risks session sql production s =
      match_session session (ok (d.postgres_risks sql production), s)
        (d.bigquery_risks session sql production s)

  unfoldable pub explain_statement : Session → Text → Bool → Result Text AppError
  explain_statement session sql analyze =
      match_session session (ok (d.postgres_explain_statement sql analyze))
        (err (not_yet (codes "explain a query")))

  unfoldable pub explain : Session → Text → Server → Outcome d.QueryPlan
  explain session statement s =
      match_session session (d.postgres_explain session statement s)
        (err (not_yet (codes "explain a query")), s)

  unfoldable pub routine_definition : Session → Text → Text → Text → Server → Outcome (Option Text)
  routine_definition session schema name arguments s =
      match_session session (d.postgres_routine_definition session schema name arguments s)
        (d.bigquery_routine_definition session schema name s)

  unfoldable pub indexes : Session → Text → Text → Server → Outcome (List d.Index)
  indexes session schema table s =
      match_session session (d.postgres_indexes session schema table s) (ok [], s)

  unfoldable pub described :
      Session → Text → Text → Text → Server → Outcome (Option (List d.Column))
  described session project dataset table s =
      match_session session
        (
          err (unsupported (codes "A PostgreSQL connection is completed by its language server.")),
          s,
        )
        (d.bigquery_described session project dataset table s)

  unfoldable pub definition : Session → Text → Text → Server → Outcome (Option d.TableDefinition)
  definition session schema table s =
      match_session session (d.postgres_definition session schema table s)
        (err (not_yet (codes "say how a table was made")), s)

  unfoldable pub preview : Session → Preview → Server → Outcome TablePage
  preview session request s =
      match_session session
        (if is_some request.as_of
          then (err (unsupported (codes "PostgreSQL keeps no past state of a table to read.")), s)
          else d.preview session request s)
        (d.preview session request s)

  unfoldable pub preview_cost : Session → Preview → Server → Outcome ℕ
  preview_cost session request s =
      match_session session
        (err (unsupported (codes "A PostgreSQL query is not billed by the bytes it reads.")), s)
        (d.bigquery_preview_cost session request s)

  unfoldable pub shape : Session → Text → Text → Server → Outcome d.TableShape
  shape session schema table s =
      match_session session (d.postgres_shape session schema table s)
        (err (read_only (codes "be edited")), s)

  unfoldable pub plan_edits : Session → Text → Text → d.Edits → Server → Outcome d.Plan
  plan_edits session schema table edits s =
      match_session session (d.postgres_plan_edits session schema table edits s)
        (err (read_only (codes "be edited")), s)

  unfoldable pub apply_plan : Session → d.Plan → Server → Outcome ℕ
  apply_plan session plan s =
      match_session session (d.postgres_apply_plan session plan s)
        (err (read_only (codes "be edited")), s)
