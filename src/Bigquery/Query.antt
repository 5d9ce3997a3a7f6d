-- ===== src/Bigquery/Query.antt =====
-- src-tauri/src/drivers/bigquery/query.rs: running a statement, page by page. The API is a parameter,
-- as is whether the reader cancels while a call waits; fuel counts the turns of a loop.
mod Pages
mod Tests
use data_looker.Prelude.{
  ℕ, zero, suc, ◌+◌, ◌-◌, ◌%◌, ◌^◌, min, Bool, true, false, ◌||◌, Option, none, some, List, [], ◌∷◌,
  ◌++◌, map, ltb, if◌then◌else◌, length, take, get_elem?,
}
use data_looker.Text.{Text, codes, text_eq, to_lower}
use data_looker.Text.Decimal.{parse_usize}
use data_looker.Map.{is_some}
use data_looker.Json.{Value, Fields}
use data_looker.Error.{AppError, cancelled, database, Result, ok, err}
use data_looker.Bigquery.Api.{Failure, failure_error, Field, name_of, Row, Answer, Query, new_query}
use data_looker.Bigquery.Value.{type_name, holds_instants, Readers, decode}

abbrev pub hold_ms : ℕ
hold_ms = 10_000

abbrev pub page_rows : ℕ
page_rows = 10_000

abbrev pub i32_max : ℕ
i32_max = 2 ^ 31 - 1

pub record Page : Type 0 where
  pub fields : List Field
  pub rows : List Row
  pub job : Option Text
  pub next : Option Text
  pub total : Option ℕ

abbrev pub or_nothing {ℓ} : {A : Type ℓ} → Option (List A) → List A
or_nothing none = []
or_nothing (some xs) = xs

abbrev pub or_a_page : Option ℕ → ℕ
or_a_page none = page_rows
or_a_page (some n) = n

abbrev pub or_false : Option Bool → Bool
or_false none = false
or_false (some b) = b

-- `parse::<u64>`, where there is a text.
unfoldable pub count : Option Text → Option ℕ
unfolding parse_usize
count none = none
count (some total) = parse_usize total

unfoldable pub page_of : Answer → Option Text → Page
unfolding count
page_of answer job = record {
  fields = or_nothing answer.schema;
  rows = or_nothing answer.rows;
  job = job;
  next = answer.page_token;
  total = count answer.total_rows;
}

unfoldable pub request : Text → Text → ℕ → Query
unfolding new_query
request sql location wanted = record (new_query sql location) {
  timeout_ms = some hold_ms;
  max_results = some wanted;
}

abbrev pub entry_v : Fields → Option Value
entry_v Fields.end = none
entry_v (Fields.field key value rest) =
    let there = entry_v rest in if text_eq key (codes "v") then some value else there

-- `cell.get("v")`
abbrev pub get_v : Value → Option Value
get_v (Value.object entries) = entry_v entries
get_v _ = none

abbrev pub and_get_v : Option Value → Option Value
and_get_v none = none
and_get_v (some cell) = get_v cell

-- The cells of the fields from the one at `at` on.
unfoldable pub cells_from : Readers → Row → ℕ → List Field → List Value
unfolding decode
cells_from readers row at [] = []
cells_from readers row at (field ∷ fields) =
    decode readers (and_get_v (get_elem? row at)) field ∷ cells_from readers row (suc at) fields

abbrev pub cells : Readers → Row → List Field → List Value
cells readers row fields = cells_from readers row 0 fields

pub data Called : Type 0 where
  replied : Result Answer Failure → Called
  -- The cancellation came first.
  stopped : Called

pub record Client : Type 1 where
  pub Server : Type 0
  pub query : Text → Query → Server → Called × Server
  -- The project, the job, the location, `maxResults`, `timeoutMs` and a page's token.
  pub query_results : Text → Text → Text → ℕ → ℕ → Option Text → Server → Called × Server
  pub cancel : Text → Text → Text → Server → Server

pub record QueryColumn : Type 0 where
  pub name : Text
  pub type_name : Text
  pub instant : Bool

pub record QueryResult : Type 0 where
  pub columns : List QueryColumn
  pub rows : List (List Value)
  pub truncated : Bool
  pub elapsed_ms : ℕ

abbrev pub column_of : Field → QueryColumn
unfolding type_name holds_instants
column_of field = record {
  name = name_of field;
  type_name = type_name field;
  instant = holds_instants field;
}

-- What a call of the API comes to, unless its fuel runs out.
abbrev pub Outcome : Client → Type 0 → Type 0
Outcome client A = Option (Result A AppError × client.Server)

module _ (client : Client) (project_id location : Text) where
  open client use {Server, query_results, cancel}

  abbrev asked : Text → Called × Server → Result (Page × Bool) AppError × Server
  asked job (replied (ok answer), s) =
      (ok (page_of answer (some job), or_false answer.job_complete), s)
  asked job (replied (err failure), s) = (err (failure_error failure), s)
  asked job (stopped, s) = (err cancelled, cancel project_id job location s)

  unfoldable pub ask : Text → ℕ → Option Text → Server → Result (Page × Bool) AppError × Server
  unfolding page_of
  ask job wanted token s = asked job (query_results project_id job location wanted hold_ms token s)

  abbrev unnamed_job : AppError
  unnamed_job = database (codes "BigQuery started a job it did not name")

  abbrev polled :
      (Page → Bool → Server → Outcome client Page)
      → Result (Page × Bool) AppError × Server
      → Outcome client Page
  polled again (ok (page, complete), s) = again page complete s
  polled again (err e, s) = some (err e, s)

  -- `while !complete`
  unfoldable pub poll : ℕ → Option Text → ℕ → Page → Bool → Server → Outcome client Page
  unfolding ask
  poll zero job wanted page complete s = none
  poll (suc n) job wanted page true s = some (ok page, s)
  poll (suc n) none wanted page false s = some (err unnamed_job, s)
  poll (suc n) (some j) wanted page false s = polled (poll n (some j) wanted) (ask j wanted none s)

  -- A page that was asked for, its rows behind those that there are.
  abbrev turned :
      {A : Type 0}
      → (List Row → List A)
      → (List A → Option Text → Option Text → Server → Outcome client (List A × Option Text))
      → List A
      → Result (Page × Bool) AppError × Server
      → Outcome client (List A × Option Text)
  turned read again rows (ok (page, _), s) = again (rows ++ read page.rows) page.next page.job s
  turned read again rows (err e, s) = some (err e, s)

  -- `more`, where there is a token and a job.
  unfoldable pub more :
      {A : Type 0}
      → (List Row → List A)
      → (List A → Option Text → Option Text → Server → Outcome client (List A × Option Text))
      → List A
      → Option Text
      → Option Text
      → Server
      → Outcome client (List A × Option Text)
  unfolding ask
  more read again rows (some token) (some job) s =
      turned read again rows (ask job page_rows (some token) s)
  more read again rows none job s = some (ok (rows, none), s)
  more read again rows (some token) none s = some (ok (rows, some token), s)

  -- The loop of `execute`.
  unfoldable pub gather :
      ℕ
      → ℕ
      → List Row
      → Option Text
      → Option Text
      → Server
      → Outcome client (List Row × Option Text)
  unfolding more
  gather zero limit rows next job s = none
  gather (suc n) limit rows next job s =
      if ltb limit (length rows)
      then some (ok (rows, next), s)
      else more (λ new. new) (gather n limit) rows next job s

  -- The loop of `collect`.
  unfoldable pub gather_all :
      {A : Type 0}
      → ℕ
      → (List Row → List A)
      → List A
      → Option Text
      → Option Text
      → Server
      → Outcome client (List A × Option Text)
  unfolding more
  gather_all zero read rows next job s = none
  gather_all (suc n) read rows next job s = more read (gather_all n read) rows next job s

abbrev pub over : ℕ → Option ℕ → Bool
over limit none = false
over limit (some total) = ltb limit total

abbrev pub result_of :
    Readers → ℕ → ℕ → List Field → Option ℕ → List Row → Option Text → QueryResult
result_of readers limit elapsed fields total rows next = record {
  columns = map column_of fields;
  rows = map (λ row. cells readers row fields) (take limit rows);
  truncated = ltb limit (length rows) || is_some next || over limit total;
  elapsed_ms = elapsed;
}

-- One more than the limit, in an `i32`.
abbrev pub wanted_rows : ℕ → ℕ
wanted_rows limit = min (suc (min limit i32_max)) i32_max

module _ (client : Client) (project_id : Text) where
  open client use {Server, query}

  abbrev started : ℕ → Text → Option ℕ → Called × Server → Outcome client Page
  unfolding poll
  started fuel location max_results (replied (ok answer), s) =
      let wanted = or_a_page max_results in
      poll client project_id location fuel answer.job_id wanted (page_of answer answer.job_id)
        (or_false answer.job_complete) s
  started fuel location max_results (replied (err failure), s) =
      some (err (failure_error failure), s)
  started fuel location max_results (stopped, s) = some (err cancelled, s)

  unfoldable pub start : ℕ → Query → Server → Outcome client Page
  unfolding started
  start fuel q s = started fuel q.location q.max_results (query project_id q s)

  abbrev finished :
      Readers
      → ℕ
      → ℕ
      → List Field
      → Option ℕ
      → Outcome client (List Row × Option Text)
      → Outcome client QueryResult
  finished readers limit elapsed fields total none = none
  finished readers limit elapsed fields total (some (err e, s)) = some (err e, s)
  finished readers limit elapsed fields total (some (ok (rows, next), s)) =
      some (ok (result_of readers limit elapsed fields total rows next), s)

  abbrev executed : Text → ℕ → Readers → ℕ → ℕ → Outcome client Page → Outcome client QueryResult
  unfolding gather
  executed location fuel readers limit elapsed none = none
  executed location fuel readers limit elapsed (some (err e, s)) = some (err e, s)
  executed location fuel readers limit elapsed (some (ok page, s)) =
      finished readers limit elapsed page.fields page.total
        (gather client project_id location fuel limit page.rows page.next page.job s)

  -- `elapsed` is the time since the statement was asked for, in milliseconds.
  unfoldable pub execute : Text → ℕ → Readers → Text → ℕ → ℕ → Server → Outcome client QueryResult
  unfolding start request executed
  execute location fuel readers sql limit elapsed s =
      executed location fuel readers limit (elapsed % 2 ^ 32)
        (start fuel (request sql location (wanted_rows limit)) s)

  abbrev listed :
      Outcome client (List (List Value) × Option Text) → Outcome client (List (List Value))
  listed none = none
  listed (some (err e, s)) = some (err e, s)
  listed (some (ok (rows, _), s)) = some (ok rows, s)

  abbrev collected : Text → ℕ → Readers → Outcome client Page → Outcome client (List (List Value))
  unfolding gather_all
  collected location fuel readers none = none
  collected location fuel readers (some (err e, s)) = some (err e, s)
  collected location fuel readers (some (ok page, s)) =
      let read = map (λ row. cells readers row page.fields) in
      listed (gather_all client project_id location fuel read (read page.rows) page.next page.job s)

  unfoldable pub collect : ℕ → Readers → Query → Server → Outcome client (List (List Value))
  unfolding start collected
  collect fuel readers q s =
      collected q.location fuel readers
        (start fuel (record q { timeout_ms = some hold_ms; max_results = some page_rows }) s)
