-- ===== src/Bigquery/Schema/Assembled.antt =====
-- The tree holds the catalog's tables, in its order.
use mathlib.Core.Bool.{true≢false}
use data_looker.Prelude.{
  arith, ◌≡◌, ◌≢◌, subst, refl, sym, ◌∙◌, false, Option, none, some, List, [], ◌∷◌, map, filter_map,
  Bool-cases, inl, inr,
}
use data_looker.Json.{Value}
use data_looker.Text.{Text, codes, text_eq, text_eq_iff}
use data_looker.Bigquery.Schema.{
  TableKind, view, materialized_view, foreign_table, table_kind, kind_of, unquoted, not_empty,
  unquoted_option, text_of, Cells, table_of, assemble,
}
use data_looker.Bigquery.Schema.Tree.{Entry, entries, Alternates, assemble-rows}

-- A table as the catalog knows it: its dataset, its name, its kind as BigQuery calls it, and the
-- literal of its description, if it has one.
pub record CatalogTable : Type 0 where
  pub dataset : Text
  pub name : Text
  pub table_type : Text
  pub description : Option Text

abbrev pub or_null : Option Text → Value
or_null none = Value.null
or_null (some t) = Value.string t

-- The row of the catalog's query, in the order of its columns.
abbrev pub row_of : CatalogTable → Cells
row_of t =
    Value.string t.dataset
    ∷ Value.string t.name
    ∷ Value.string t.table_type
    ∷ or_null t.description
    ∷ []

-- What BigQuery calls each kind; a table is called by other names than these.
pub data IsCalled : Text → TableKind → Type 0 where
  a_view : (t : Text) → t ≡ codes "VIEW" → IsCalled t view
  a_materialized_view : (t : Text) → t ≡ codes "MATERIALIZED VIEW" → IsCalled t materialized_view
  an_external : (t : Text) → t ≡ codes "EXTERNAL" → IsCalled t foreign_table
  a_table :
      (t : Text)
      → t ≢ codes "VIEW"
      → t ≢ codes "MATERIALIZED VIEW"
      → t ≢ codes "EXTERNAL"
      → IsCalled t table_kind

-- No description, or an empty one, is no comment.
pub data IsComment : Option Text → Option Text → Type 0 where
  not_described : IsComment none none
  described_empty : (l : Text) → unquoted l ≡ [] → IsComment (some l) none
  described_as : (l s : Text) → unquoted l ≡ s → s ≢ [] → IsComment (some l) (some s)

-- An entry of the tree is of a table of the catalog.
pub record IsEntryOf (t : CatalogTable) (e : Entry) : Type 0 where
  pub under : e.0 ≡ t.dataset
  pub called : e.1.name ≡ t.name
  pub of_kind : IsCalled t.table_type e.1.kind
  pub commented : IsComment t.description e.1.comment

-- Entries of the tables, one of each and no other, in their order.
abbrev pub AreEntriesOf : List CatalogTable → List Entry → Type 0
AreEntriesOf [] [] = Unit
AreEntriesOf [] (e ∷ es) = ⊥
AreEntriesOf (t ∷ ts) [] = ⊥
AreEntriesOf (t ∷ ts) (e ∷ es) = IsEntryOf t e × AreEntriesOf ts es

not-eq : (s t : Text) → text_eq s t ≡ false → s ≢ t
not-eq s t h e = true≢false (sym ((text_eq_iff s t).1 e) ∙ h)

kind_of-IsCalled : (t : Text) → IsCalled t (kind_of (some t))
unfolding kind_of
kind_of-IsCalled t = elim (Bool-cases (text_eq t (codes "VIEW"))) [
  | inl e ↦ rw e (a_view t ((text_eq_iff t (codes "VIEW")).0 e))
  | inr v ↦ elim (Bool-cases (text_eq t (codes "MATERIALIZED VIEW"))) [
    | inl e ↦ rw (v, e) (a_materialized_view t ((text_eq_iff t (codes "MATERIALIZED VIEW")).0 e))
    | inr m ↦ elim (Bool-cases (text_eq t (codes "EXTERNAL"))) [
      | inl e ↦ rw (v, m, e) (an_external t ((text_eq_iff t (codes "EXTERNAL")).0 e))
      | inr x ↦
          rw (v, m, x)
            (a_table t (not-eq t (codes "VIEW") v) (not-eq t (codes "MATERIALIZED VIEW") m)
              (not-eq t (codes "EXTERNAL") x))
    ]
  ]
]

not_empty-IsComment :
    (d : Option Text) → IsComment d (not_empty (unquoted_option (text_of (some (or_null d)))))
unfolding unquoted_option
not_empty-IsComment none = not_described
not_empty-IsComment (some l) = of_text (unquoted l) refl
  where
    of_text : (s : Text) → unquoted l ≡ s → IsComment (some l) (not_empty (some s))
    of_text [] e = described_empty l e
    of_text (c ∷ s) e = described_as l (c ∷ s) e (λ h. cc)

entry_of : CatalogTable → Entry
entry_of t = (
  t.dataset,
  record {
    name = t.name;
    kind = kind_of (some t.table_type);
    comment = not_empty (unquoted_option (text_of (some (or_null t.description))));
  },
)

entry_of-IsEntryOf : (t : CatalogTable) → IsEntryOf t (entry_of t)
unfolding entry_of
entry_of-IsEntryOf t = record {
  under = refl;
  called = refl;
  of_kind = kind_of-IsCalled t.table_type;
  commented = not_empty-IsComment t.description;
}

table_of-row_of : (t : CatalogTable) → table_of (row_of t) ≡ some (entry_of t)
unfolding table_of entry_of
table_of-row_of t = refl

rows-next :
    (t : CatalogTable) (ts : List CatalogTable)
    → filter_map table_of (map row_of (t ∷ ts)) ≡ entry_of t ∷ filter_map table_of (map row_of ts)
rows-next t ts = ground (arith, table_of-row_of t)

rows-AreEntriesOf : (ts : List CatalogTable) → AreEntriesOf ts (filter_map table_of (map row_of ts))
rows-AreEntriesOf [] = tt
rows-AreEntriesOf (t ∷ ts) =
    subst (λ es. AreEntriesOf (t ∷ ts) es) (sym (rows-next t ts))
      (entry_of-IsEntryOf t, rows-AreEntriesOf ts)

-- The tree holds every table of the catalog's rows, in the order of the rows and under the dataset
-- of its row, with its name, its kind and the description of its row, if that is not empty, and no
-- other table; and rows of one dataset that follow each other share a schema.
pub assemble-entries :
    (ts : List CatalogTable)
    → AreEntriesOf ts (entries (assemble (map row_of ts))) × Alternates (assemble (map row_of ts))
assemble-entries ts =
    let (same, apart) = assemble-rows (map row_of ts) in
    (subst (λ es. AreEntriesOf ts es) (sym same) (rows-AreEntriesOf ts), apart)
