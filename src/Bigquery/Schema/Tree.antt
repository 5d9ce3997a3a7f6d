-- ===== src/Bigquery/Schema/Tree.antt =====
-- The tree holds what is read of the rows, in their order.
use data_looker.Prelude.{
  ◌≡◌, refl, sym, ap, ◌∙◌, false, Option, none, some, List, [], ◌∷◌, ◌++◌, map, filter_map,
  append-nil, append_assoc, map-append, Bool-cases, inl, inr,
}
use data_looker.Text.{Text, text_eq, text_eq_iff}
use data_looker.Bigquery.Schema.{
  Table, Schema, Cells, table_of, push_table, push_row, assemble_from, assemble,
}

abbrev pub Entry : Type 0
Entry = Text × Table

abbrev pub entries_of : Schema → List Entry
entries_of s = map (λ (t : Table). (s.name, t)) s.tables

abbrev pub entries : List Schema → List Entry
entries [] = []
entries (s ∷ ss) = entries_of s ++ entries ss

-- No dataset's schema stands right behind itself.
abbrev pub Alternates : List Schema → Type 0
Alternates [] = Unit
Alternates (s ∷ []) = Unit
Alternates (s ∷ t ∷ ss) = (text_eq s.name t.name ≡ false) × Alternates (t ∷ ss)

push_table-entries :
    (ss : List Schema) (dataset : Text) (table : Table)
    → entries (push_table ss dataset table) ≡ entries ss ++ (dataset, table) ∷ []
unfolding push_table
push_table-entries [] dataset table = refl
push_table-entries (s ∷ []) dataset table = elim (Bool-cases (text_eq s.name dataset)) [
  | inl e ↦
      rw
        (
          e,
          append-nil (entries_of (record s { tables = s.tables ++ table ∷ [] })),
          append-nil (entries_of s),
          map-append {B = Entry} (λ (t : Table). (s.name, t)) s.tables (table ∷ []),
        )
        (ap (λ d. entries_of s ++ (d, table) ∷ []) ((text_eq_iff s.name dataset).0 e))
  | inr e ↦ rw (e, append-nil (entries_of s)) refl
]
push_table-entries (s ∷ t ∷ ss) dataset table =
    ap (λ l. entries_of s ++ l) (push_table-entries (t ∷ ss) dataset table)
    ∙ sym (append_assoc (entries_of s) (entries (t ∷ ss)) ((dataset, table) ∷ []))

push_row-entries :
    (ss : List Schema) (o : Option Entry) (rest : List Entry)
    → entries (push_row ss o) ++ rest
      ≡ entries ss ++ (elim o as (λ x. List Entry) [ none ↦ rest | some y ↦ y ∷ rest ])
unfolding push_row
push_row-entries ss none rest = refl
push_row-entries ss (some (dataset, table)) rest =
    ap (λ l. l ++ rest) (push_table-entries ss dataset table)
    ∙ append_assoc (entries ss) ((dataset, table) ∷ []) rest

assemble_from-entries :
    (ss : List Schema) (rows : List Cells)
    → entries (assemble_from ss rows) ≡ entries ss ++ filter_map table_of rows
unfolding assemble_from
assemble_from-entries ss [] = sym (append-nil (entries ss))
assemble_from-entries ss (row ∷ rows) =
    assemble_from-entries (push_row ss (table_of row)) rows
    ∙ push_row-entries ss (table_of row) (filter_map table_of rows)

push_table-Alternates :
    (ss : List Schema) (dataset : Text) (table : Table)
    → Alternates ss
    → Alternates (push_table ss dataset table)
unfolding push_table
push_table-Alternates [] dataset table a = tt
push_table-Alternates (s ∷ []) dataset table a = elim (Bool-cases (text_eq s.name dataset)) [
  | inl e ↦ rw e tt
  | inr e ↦ rw e (e, tt)
]
push_table-Alternates (s ∷ t ∷ []) dataset table (h, a) =
    elim (Bool-cases (text_eq t.name dataset)) [ inl e ↦ rw e (h, tt) | inr e ↦ rw e (h, (e, tt)) ]
push_table-Alternates (s ∷ t ∷ u ∷ us) dataset table (h, a) =
    (h, push_table-Alternates (t ∷ u ∷ us) dataset table a)

push_row-Alternates :
    (ss : List Schema) (o : Option Entry) → Alternates ss → Alternates (push_row ss o)
unfolding push_row
push_row-Alternates ss none a = a
push_row-Alternates ss (some (dataset, table)) a = push_table-Alternates ss dataset table a

assemble_from-Alternates :
    (ss : List Schema) (rows : List Cells) → Alternates ss → Alternates (assemble_from ss rows)
unfolding assemble_from
assemble_from-Alternates ss [] a = a
assemble_from-Alternates ss (row ∷ rows) a =
    assemble_from-Alternates (push_row ss (table_of row)) rows
      (push_row-Alternates ss (table_of row) a)

-- The tree holds what is read of each row, in their order.
pub assemble-rows :
    (rows : List Cells)
    → (entries (assemble rows) ≡ filter_map table_of rows) × Alternates (assemble rows)
unfolding assemble
assemble-rows rows = (assemble_from-entries [] rows, assemble_from-Alternates [] rows tt)
