-- ===== src/Bigquery/Schema/Tests.antt =====
-- A tree of two datasets, and what completion is told of a table.
use data_looker.Prelude.{◌≡◌, refl, none, some, List, [], ◌∷◌, map, arith}
use data_looker.Text.{Text, codes}
use data_looker.Bigquery.Api.{field_of, no_fields, own_fields, last, next}
use data_looker.Bigquery.Schema.{assemble, unquoted, spelled}
use data_looker.Bigquery.Schema.Tree.{entries, Alternates}
use data_looker.Bigquery.Schema.Assembled.{CatalogTable, row_of, AreEntriesOf, assemble-entries}
use data_looker.Bigquery.Schema.Literals.{
  double_quote, backslash, says_nothing, plain, escape, literal, unquoted-Says,
}

abbrev a_row : Text → Text → CatalogTable
a_row dataset table = record {
  dataset = dataset;
  name = table;
  table_type = codes "VIEW";
  description = none;
}

abbrev a_catalog : List CatalogTable
a_catalog =
    a_row (codes "shop") (codes "orders")
    ∷ a_row (codes "shop") (codes "recent")
    ∷ a_row (codes "web") (codes "hits")
    ∷ []

assemble-entries_example :
    AreEntriesOf a_catalog (entries (assemble (map row_of a_catalog)))
    × Alternates (assemble (map row_of a_catalog))
assemble-entries_example = assemble-entries a_catalog

-- `\"a\\`
unquoted-Says_example : unquoted (literal (92 ∷ 34 ∷ b'a' ∷ 92 ∷ 92 ∷ [])) ≡ 34 ∷ b'a' ∷ 92 ∷ []
unquoted-Says_example = unquoted-Says (92 ∷ 34 ∷ b'a' ∷ 92 ∷ 92 ∷ []) (34 ∷ b'a' ∷ 92 ∷ []) (
    escape 34 34 (b'a' ∷ 92 ∷ 92 ∷ []) (b'a' ∷ 92 ∷ []) (double_quote 34 34 refl refl) (
      plain b'a' (92 ∷ 92 ∷ []) (92 ∷ []) (omega arith)
        (escape 92 92 [] [] (backslash 92 92 refl refl) says_nothing)))

spelled_struct :
    spelled (
      field_of
        (codes "r")
        (codes "RECORD")
        (some (codes "REPEATED"))
        (own_fields (next (field_of (codes "at") (codes "TIMESTAMP") none no_fields) last)))
    ≡ codes "ARRAY<STRUCT<`at` TIMESTAMP>>"
unfolding spelled
spelled_struct = refl
