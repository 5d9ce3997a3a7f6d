-- ===== src/Bigquery/Preview.antt =====
-- src-tauri/src/drivers/bigquery/preview.rs: a page of a table, listed where that can be, since a
-- listing is not billed, and queried where it cannot.
mod Listed
mod Tests
use data_looker.Prelude.{
  ℕ, suc, ◌+◌, ◌%◌, ◌^◌, Bool, true, false, not, ◌&&◌, ◌||◌, Option, none, some, List, [], ◌∷◌,
  ◌++◌, map, ltb, if◌then◌else◌, length, take, is_empty,
}
use data_looker.Text.{Text, codes, text_eq, trim}
use data_looker.Text.Decimal.{to_text, parse_usize}
use data_looker.Map.{is_some}
use data_looker.Error.{AppError, cancelled, unsupported, Result, ok, err}
use data_looker.Drivers.{Preview, Sort}
use data_looker.Bigquery.Api.{Failure, failure_error, Field, Row, Table}
use data_looker.Bigquery.Quote.{quote}
use data_looker.Bigquery.Value.{Readers}
use data_looker.Bigquery.Query.{
  Client, Outcome, QueryResult, QueryColumn, column_of, cells, or_nothing, over, execute,
}

pub record TablePage : Type 0 where
  pub result : QueryResult
  pub versions : List Text

abbrev pub unversioned : QueryResult → TablePage
unversioned result = record { result = result; versions = [] }

-- What a call that is raced against the cancellation comes to.
pub data Reply (A : Type 0) : Type 0 where
  got : Result A Failure → Reply A
  cut : Reply A

pub record Listing : Type 0 where
  pub rows : Option (List Row)
  pub total_rows : Option Text

-- The calls `table` and `list` of the API; the second takes the first row and the most rows.
pub record Tables (Server : Type 0) : Type 0 where
  pub table : Text → Text → Text → Server → Reply Table × Server
  pub list : Text → Text → Text → ℕ → ℕ → Server → Reply Listing × Server

abbrev pub is_kind : Text → Option Text → Bool
is_kind name none = false
is_kind name (some kind) = text_eq kind name

abbrev pub kind_or : Option Text → Text
kind_or none = codes "relation of no stated type"
kind_or (some kind) = kind

unfoldable pub kept_past : Reply Table → Result (Unit {0}) AppError
kept_past cut = err cancelled
kept_past (got (err failure)) = err (failure_error failure)
kept_past (got (ok table)) =
    if is_kind (codes "TABLE") table.kind
    then ok tt
    else err (
        unsupported (
          codes "Only a table can be read as it was, and BigQuery calls this a "
          ++ (kind_or table.kind ++ codes ".")))

-- A point's date and time in UTC, to the microsecond, is its text.
unfoldable pub timestamp : Text → Text
timestamp at = codes "TIMESTAMP '" ++ (at ++ codes "+00'")

abbrev pub as_of_clause : Option Text → Text
unfolding timestamp
as_of_clause none = []
as_of_clause (some at) = codes " FOR SYSTEM_TIME AS OF " ++ timestamp at

abbrev pub where_clause : Text → Text
where_clause filter =
    let trimmed = trim filter in if is_empty trimmed then [] else codes " WHERE " ++ trimmed

abbrev pub order_clause : Option Sort → Text
unfolding quote
order_clause none = []
order_clause (some sort) =
    codes " ORDER BY t."
    ++ (quote sort.column ++ (codes " " ++ (if sort.descending then codes "DESC" else codes "ASC")))

unfoldable pub preview_sql : Text → Preview → Text
unfolding quote as_of_clause order_clause to_text
preview_sql project_id preview =
    codes "SELECT * FROM "
    ++ (quote project_id
        ++ (codes "."
            ++ (quote preview.schema
                ++ (codes "."
                    ++ (quote preview.table
                        ++ (codes " AS t"
                            ++ (as_of_clause preview.as_of
                                ++ (where_clause preview.filter
                                    ++ (order_clause preview.sort
                                        ++ (codes " LIMIT "
                                            ++ (to_text preview.limit
                                                ++ (codes " OFFSET "
                                                    ++ to_text preview.offset))))))))))))

unfoldable pub total_of : Option Text → Option ℕ
unfolding parse_usize
total_of none = none
total_of (some text) = parse_usize text

-- The rows of a page that was listed, and whether there are more.
unfoldable pub listed_result : Readers → Preview → ℕ → List Field → Listing → QueryResult
unfolding total_of
listed_result readers request elapsed fields listing =
    let rows = or_nothing listing.rows in
    let total = total_of listing.total_rows in
    record {
      columns = map column_of fields;
      rows = map (λ row. cells readers row fields) (take request.limit rows);
      truncated = ltb request.limit (length rows) || over (request.offset + request.limit) total;
      elapsed_ms = elapsed % 2 ^ 32;
    }

abbrev pub is_plain : Preview → Bool
is_plain request =
    is_empty (trim request.filter) && not (is_some request.sort) && not (is_some request.as_of)

module _ (client : Client) (tables : Tables client.Server) (project_id location : Text) where
  open client use {Server}
  open tables use {table, list}

  abbrev listed_reply :
      Readers
      → Preview
      → ℕ
      → List Field
      → Reply Listing × Server
      → Result (Option QueryResult) AppError × Server
  unfolding listed_result
  listed_reply readers request elapsed fields (cut, s) = (err cancelled, s)
  listed_reply readers request elapsed fields (got (err failure), s) =
      (err (failure_error failure), s)
  listed_reply readers request elapsed fields (got (ok listing), s) =
      (ok (some (listed_result readers request elapsed fields listing)), s)

  abbrev listed_table :
      Readers → Preview → ℕ → Reply Table × Server → Result (Option QueryResult) AppError × Server
  unfolding listed_reply
  listed_table readers request elapsed (cut, s) = (err cancelled, s)
  listed_table readers request elapsed (got (err failure), s) = (err (failure_error failure), s)
  listed_table readers request elapsed (got (ok found), s) =
      if is_kind (codes "TABLE") found.kind
      then listed_reply readers request elapsed (or_nothing found.schema)
          (list project_id request.schema request.table request.offset (suc request.limit) s)
      else (ok none, s)

  -- Nothing when the relation cannot be listed.
  unfoldable pub list_page :
      Readers → Preview → ℕ → Server → Result (Option QueryResult) AppError × Server
  unfolding listed_table
  list_page readers request elapsed s =
      listed_table readers request elapsed (table project_id request.schema request.table s)

  abbrev paged : Outcome client QueryResult → Outcome client TablePage
  paged none = none
  paged (some (err e, s)) = some (err e, s)
  paged (some (ok result, s)) = some (ok (unversioned result), s)

  -- One row past the page says that there is another.
  unfoldable pub query_page : ℕ → Readers → Preview → ℕ → Server → Outcome client TablePage
  unfolding execute preview_sql
  query_page fuel readers request elapsed s = paged (
      execute client project_id location fuel readers
        (preview_sql project_id (record request { limit = suc request.limit })) request.limit
        elapsed s)

  unfoldable pub or_query :
      ℕ
      → Readers
      → Preview
      → ℕ
      → Result (Option QueryResult) AppError × Server
      → Outcome client TablePage
  unfolding query_page
  or_query fuel readers request elapsed (err e, s) = some (err e, s)
  or_query fuel readers request elapsed (ok (some result), s) = some (ok (unversioned result), s)
  or_query fuel readers request elapsed (ok none, s) = query_page fuel readers request elapsed s

  unfoldable pub page : ℕ → Readers → Preview → ℕ → Server → Outcome client TablePage
  unfolding or_query list_page
  page fuel readers request elapsed s =
      if is_plain request
      then or_query fuel readers request elapsed (list_page readers request elapsed s)
      else query_page fuel readers request elapsed s

  abbrev past_page : ℕ → Readers → Preview → ℕ → Reply Table × Server → Outcome client TablePage
  unfolding page kept_past
  past_page fuel readers request elapsed (reply, s) = elim (kept_past reply) [
    | err e ↦ some (err e, s)
    | ok u ↦ page fuel readers request elapsed s
  ]

  abbrev pub at_point : ℕ → Readers → Preview → ℕ → Server → Option Text → Outcome client TablePage
  unfolding page past_page
  at_point fuel readers request elapsed s none = page fuel readers request elapsed s
  at_point fuel readers request elapsed s (some at) =
      past_page fuel readers request elapsed (table project_id request.schema request.table s)

  unfoldable pub preview : ℕ → Readers → Preview → ℕ → Server → Outcome client TablePage
  unfolding at_point
  preview fuel readers request elapsed s = at_point fuel readers request elapsed s request.as_of
