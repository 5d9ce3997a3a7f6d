-- ===== src/Bigquery/Preview/Tests.antt =====
-- A page of a table of three rows.
use data_looker.Prelude.{◌≡◌, refl, true, none, some, List, [], ◌∷◌, map}
use data_looker.Text.{Text, codes, trim}
use data_looker.Error.{ok}
use data_looker.Drivers.{Preview}
use data_looker.Json.{Value, Fields}
use data_looker.Bigquery.Api.{field_of, no_fields, Field, Row, Table}
use data_looker.Bigquery.Value.{Readers}
use data_looker.Bigquery.Query.{Client, stopped, column_of, cells}
use data_looker.Bigquery.Preview.{Tables, Listing, got, total_of, preview, preview_sql}
use data_looker.Bigquery.Preview.Listed.{preview-listed}

-- A server that answers no query.
abbrev silent : Client
silent = record {
  Server = Unit;
  query = λ project q s. (stopped, s);
  query_results = λ project job location wanted hold token s. (stopped, s);
  cancel = λ project job location s. s;
}

abbrev row : Text → Row
row t = Value.object (Fields.field (codes "v") (Value.string t) Fields.end) ∷ []

abbrev rows : List Row
rows = row (codes "1") ∷ row (codes "2") ∷ row (codes "3") ∷ []

abbrev fields : List Field
fields = field_of (codes "n") (codes "INTEGER") none no_fields ∷ []

abbrev numbers : Table
numbers = record {
  kind = some (codes "TABLE");
  schema = some fields;
  time_partitioning = none;
  range_partitioning = none;
}

abbrev listing : Listing
listing = record {
  rows = some (row (codes "2") ∷ row (codes "3") ∷ []);
  total_rows = some (codes "3");
}

abbrev tables : Tables Unit
tables = record {
  table = λ project schema name s. (got (ok numbers), s);
  list = λ project schema name start most s. (got (ok listing), s);
}

abbrev no_readers : Readers
no_readers = record { instant = λ n. none; json = λ t. none; float = λ t. none }

abbrev second : Preview
second = record {
  versioned = true;
  schema = codes "d";
  table = codes "numbers";
  filter = codes " ";
  sort = none;
  limit = 1;
  offset = 1;
  as_of = none;
}

preview-listed_example :
    preview silent tables (codes "p") (codes "US") 1 no_readers second 7 tt
    ≡ some (
      ok (record {
        result = record {
          columns = map column_of fields;
          rows = map (λ row. cells no_readers row fields) (row (codes "2") ∷ []);
          truncated = true;
          elapsed_ms = 7;
        };
        versions = [];
      }),
      tt,
    )
unfolding trim total_of
preview-listed_example =
    preview-listed silent tables (codes "p") (codes "US") no_readers 1 7 second numbers listing 2
      rows tt tt tt refl refl refl refl (refl, refl)

past :
    preview_sql
      (codes "p")
      (record second { as_of = some (codes "2025-01-02 03:04:05.000000"); limit = 10 })
    ≡ codes
        "SELECT * FROM `p`.`d`.`numbers` AS t FOR SYSTEM_TIME AS OF TIMESTAMP '2025-01-02 03:04:05.000000+00' LIMIT 10 OFFSET 1"
unfolding preview_sql trim
past = refl
