-- ===== src/Bigquery/Query/Tests.antt =====
-- A job that answers at its second asking, in two pages.
use data_looker.Prelude.{ℕ, ◌≡◌, refl, true, false, none, some, List, [], ◌∷◌, map, arith}
use data_looker.Text.{Text, codes}
use data_looker.Json.{Value, Fields}
use data_looker.Error.{ok}
use data_looker.Bigquery.Api.{Field, field_of, no_fields, Row, Answer, Query}
use data_looker.Bigquery.Value.{Readers}
use data_looker.Bigquery.Query.{
  Called, replied, stopped, Client, request, cells, column_of, count, wanted_rows, execute,
}
use data_looker.Bigquery.Query.Pages.{Job, execute-Job}

-- Each call is answered with the next of the script.
abbrev answered_next : List Called → Called × List Called
answered_next [] = (stopped, [])
answered_next (c ∷ cs) = (c, cs)

abbrev scripted : Client
scripted = record {
  Server = List Called;
  query = λ project q s. answered_next s;
  query_results = λ project job location wanted hold token s. answered_next s;
  cancel = λ project job location s. [];
}

abbrev no_readers : Readers
no_readers = record { instant = λ n. none; json = λ t. none; float = λ t. none }

abbrev row : Text → Row
row t = Value.object (Fields.field (codes "v") (Value.string t) Fields.end) ∷ []

abbrev job_name : Text
job_name = codes "job_1"

abbrev number_field : List Field
number_field = field_of (codes "n") (codes "INTEGER") none no_fields ∷ []

abbrev running : Answer
running = record {
  job_id = some job_name;
  schema = none;
  rows = none;
  page_token = none;
  total_rows = none;
  job_complete = some false;
}

abbrev first_page : Answer
first_page = record {
  job_id = some job_name;
  schema = some number_field;
  rows = some (row (codes "1") ∷ []);
  page_token = some (codes "t");
  total_rows = some (codes "3");
  job_complete = some true;
}

abbrev second_page : Answer
second_page = record {
  job_id = some job_name;
  schema = none;
  rows = some (row (codes "2") ∷ row (codes "3") ∷ []);
  page_token = none;
  total_rows = some (codes "3");
  job_complete = some true;
}

abbrev script : List Called
script = replied (ok running) ∷ replied (ok first_page) ∷ replied (ok second_page) ∷ []

abbrev p : Text
p = codes "p"

abbrev us : Text
us = codes "US"

abbrev sql : Text
sql = codes "SELECT n"

abbrev the_job : (wanted : ℕ) (q : Query) → Job scripted p us job_name wanted q script
the_job wanted q = record {
  first = running;
  begun = replied (ok first_page) ∷ replied (ok second_page) ∷ [];
  asked = refl;
  named = refl;
  turns = 1;
  last = first_page;
  ended = replied (ok second_page) ∷ [];
  runs = (refl, first_page, replied (ok second_page) ∷ [], refl, (refl, refl, refl));
  pages = (row (codes "2") ∷ row (codes "3") ∷ []) ∷ [];
  holds = (second_page, [], refl, refl, tt);
}

execute-Job_example :
    (after : List Called) × (execute scripted p us 3 no_readers sql 2 7 script
      ≡ some (
        ok (record {
          columns = map column_of number_field;
          rows =
              map
                (λ row. cells no_readers row number_field)
                (row (codes "1") ∷ row (codes "2") ∷ []);
          truncated = true;
          elapsed_ms = 7;
        }),
        after,
      ))
execute-Job_example =
    execute-Job scripted p us job_name no_readers sql 2 7 3 script
      (the_job (wanted_rows 2) (request sql us (wanted_rows 2))) (omega arith, omega arith)
      (unfold count in refl)
