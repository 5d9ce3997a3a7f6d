-- ===== src/Postgres/Edit/Tests.antt =====
-- A save of a concrete table.
use data_looker.Prelude.{◌≡◌, ◌≢◌, List, none, some, [], ◌∷◌, arith}
use data_looker.Text.{Text, codes}
use data_looker.Map.{get}
use data_looker.Error.{ok}
use data_looker.Drivers.{RowUpdate, RowInsert, RowDelete, TableShape}
use data_looker.Postgres.Edit.{
  Statement, cast, Edits, sorted, insert_pair, delete, update, plan, rendered,
}
use data_looker.Postgres.Edit.Renders.{HasPlainTypes}
use data_looker.Postgres.Edit.Plain.{is_plain}
use data_looker.Postgres.Edit.Rendered.{
  rendered-delete, rendered-update, delete_script, update_script,
}
use data_looker.Postgres.Edit.Plans.{AllNamed, statements_of, plan_iff}

abbrev shape : TableShape
shape = record {
  types = (codes "id", codes "bigint") ∷ (codes "note", codes "text") ∷ [];
  primary_key = codes "id" ∷ [];
}

abbrev schema : Text
schema = codes "public"

abbrev table : Text
table = codes "orders$1"

abbrev a_delete : RowDelete
a_delete = record { key = (codes "id", some (codes "7")) ∷ []; version = codes "901" }

abbrev an_update : RowUpdate
an_update = record {
  key = (codes "id", some (codes "8")) ∷ [];
  set = (codes "note", some (codes "$1 '; drop")) ∷ [];
  version = codes "902";
}

abbrev an_insert : RowInsert
an_insert = record { values = (codes "note", none) ∷ (codes "id", some (codes "9")) ∷ [] }

abbrev edits : Edits
edits = record { inserts = an_insert ∷ []; updates = an_update ∷ []; deletes = a_delete ∷ [] }

plain_types : HasPlainTypes shape
unfolding cast get is_plain
plain_types column = ground arith

plan_iff_example :
    ((statements : List Statement)
      → plan shape schema table edits ≡ ok statements
      → (shape.primary_key ≢ [])
        × AllNamed shape schema table edits
        × (statements ≡ statements_of shape schema table edits))
    × (shape.primary_key ≢ []
        → AllNamed shape schema table edits
        → plan shape schema table edits ≡ ok (statements_of shape schema table edits))
plan_iff_example = plan_iff shape schema table edits

rendered-delete_example :
    rendered (delete shape schema table a_delete) ≡ some (delete_script shape schema table a_delete)
unfolding sorted insert_pair
rendered-delete_example = rendered-delete shape schema table plain_types a_delete (omega arith)

rendered-update_example :
    rendered (update shape schema table an_update)
    ≡ some (update_script shape schema table an_update)
unfolding sorted insert_pair
rendered-update_example = rendered-update shape schema table plain_types an_update (omega arith)
