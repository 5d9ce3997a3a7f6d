-- ===== src/Bigquery/Value/Tests.antt =====
-- Values of BigQuery's.
use data_looker.Prelude.{◌≡◌, ◌≢◌, refl, true, Option, none, some, [], arith}
use data_looker.Text.{Text, codes}
use data_looker.Text.Signed.{ℤ, pos, negsuc}
use data_looker.Json.{Value, Values, Fields}
use data_looker.Bigquery.Api.{field_of, no_fields, own_fields, last, next}
use data_looker.Bigquery.Value.{Readers, timestamp, decode}
use data_looker.Bigquery.Value.Exact.{timestamp-notation}

-- A reader that only tells the sign of an instant.
abbrev by_sign : ℤ → Option Text
by_sign (pos n) = some (codes "after")
by_sign (negsuc n) = some (codes "before")

abbrev readers : Readers
readers = record { instant = by_sign; json = λ t. none; float = λ t. none }

-- `{ "f": [ { "v": "5" }, { "v": "true" } ] }` of a record of two fields.
abbrev cell : Text → Value
cell t = Value.object (Fields.field (codes "v") (Value.string t) Fields.end)

a_record :
    decode readers
      (some (
        Value.object (
          Fields.field
            (codes "f")
            (Value.array
              (Values.cons (cell (codes "5")) (Values.cons (cell (codes "true")) Values.nil)))
            Fields.end)))
      (field_of (codes "r") (codes "RECORD") none (
        own_fields (
          next
            (field_of (codes "n") (codes "INTEGER") none no_fields)
            (next (field_of (codes "b") (codes "BOOLEAN") none no_fields) last))))
    ≡ Value.object (
        Fields.field
          (codes "b")
          (Value.bool true)
          (Fields.field (codes "n") (Value.number (codes "5")) Fields.end))
unfolding decode
a_record = refl

timestamp-notation_example : timestamp readers (codes "-1.5E-5") ≡ some (codes "before")
timestamp-notation_example =
    timestamp-notation readers true b'1' [] (codes "5") (some (true, codes "5"))
      ((omega arith, omega arith), tt) ((omega arith, omega arith), tt)
      (((omega arith, omega arith), tt), some_digit, omega arith) (omega arith) (omega arith)
      (omega arith) (omega arith)
  where
    some_digit : codes "5" ≢ []
    some_digit e = cc
