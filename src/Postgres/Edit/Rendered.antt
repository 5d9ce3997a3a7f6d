-- ===== src/Postgres/Edit/Rendered.antt =====
-- The statements as the history keeps them: `rendered` puts every value where its placeholder is,
-- and never panics on a statement that the planner made.
use data_looker.Prelude.{
  ℕ, suc, ◌+◌, ◌≤◌, ◌≡◌, refl, ap, subst, false, Option, some, List, [], ◌∷◌, ◌++◌, map, arith,
  if◌then◌else◌, length, get_elem?, length-append, append_assoc, append-nil, is_empty, Bool-cases,
  inl, inr,
}
use data_looker.Text.{Text, codes, join}
use data_looker.Text.Decimal.{usize_max}
use data_looker.Drivers.{TableShape, RowInsert, RowUpdate, RowDelete}
use data_looker.Postgres.Quote.{quote, literal}
use data_looker.Postgres.Edit.{
  Pairs, sorted, numbered, pushed, target, bare, assignment, comparison, version_match, insert,
  delete, update, render, rendered,
}
use data_looker.Postgres.Edit.Renders.{
  Renders, Renders-plain, Renders-append, Renders-join, Renders-placeholder, rendered-whole,
  AllRender, AllRender-append, AllRender-numbered, HasPlainTypes, filled, get_elem?-append,
}
use data_looker.Postgres.Edit.Plain.{
  is_plain, is_plain-append, is_plain-quote, is_plain-target, is_plain-comparison,
  is_plain-assignment,
}

abbrev version_filled : Text → Text
version_filled version = codes "xmin = " ++ (literal (some version) ++ codes "::xid")

Renders-version :
    (values : List (Option Text)) (n : ℕ) (version : Text)
    → suc n ≤ usize_max
    → get_elem? values n ≡ some (some version)
    → Renders values (version_match (suc n)) (version_filled version)
Renders-version values n version h g =
    Renders-append values (codes "xmin = ") _ (codes "xmin = ") _
      (Renders-plain values (codes "xmin = ") (unfold is_plain in refl))
      (Renders-placeholder values n (some version) (codes "xid") h g (unfold is_plain in refl))

length-pushed : (ps : Pairs) → length (pushed ps) ≡ length ps
length-pushed [] = refl
length-pushed ((column, v) ∷ ps) = ap suc (length-pushed ps)

get_elem?-version :
    (before : List (Option Text)) (ps : Pairs) (v : Option Text)
    → get_elem? (before ++ (pushed ps ++ v ∷ [])) (length before + length ps) ≡ some v
get_elem?-version before ps v =
    subst (λ k. get_elem? (before ++ (pushed ps ++ v ∷ [])) k ≡ some v)
      (omega (arith, length-append before (pushed ps), length-pushed ps))
      (subst (λ vs. get_elem? vs (length (before ++ pushed ps)) ≡ some v)
        (append_assoc before (pushed ps) (v ∷ [])) (get_elem?-append (before ++ pushed ps) [] v))

abbrev matched : TableShape → Pairs → Text → List Text
matched shape key version = filled shape comparison key ++ version_filled version ∷ []

-- The conditions that name a row, whatever is pushed before them.
AllRender-matches :
    (shape : TableShape)
    → HasPlainTypes shape
    → (key : Pairs) (version : Text) (before : List (Option Text)) (n k : ℕ) → n ≡ length before
    → k ≡ suc (length before + length key)
    → k ≤ usize_max
    → AllRender
        (before ++ (pushed key ++ some version ∷ []))
        (numbered shape comparison key n ++ version_match k ∷ [])
        (matched shape key version)
AllRender-matches shape types key version before n k e f h =
    let values = before ++ (pushed key ++ some version ∷ []) in
    rw (e, f)
      (AllRender-append values _ _ _ _
        (AllRender-numbered shape comparison types is_plain-comparison key before
          (some version ∷ []) (omega arith))
        (unfold AllRender in
          (
            Renders-version values (length before + length key) version (omega arith)
                (get_elem?-version before key (some version)),
            refl,
          )))

-- The statements as they could be run by hand, every value a literal with the cast behind it.
abbrev pub delete_script : TableShape → Text → Text → RowDelete → Text
delete_script shape schema table row =
    codes "DELETE FROM "
    ++ (target schema table
        ++ (codes " WHERE " ++ join (codes " AND ") (matched shape (sorted row.key) row.version)))

abbrev pub update_script : TableShape → Text → Text → RowUpdate → Text
update_script shape schema table row =
    codes "UPDATE "
    ++ (target schema table
        ++ (codes " SET "
            ++ (join (codes ", ") (filled shape assignment (sorted row.set))
                ++ (codes " WHERE "
                    ++ join (codes " AND ") (matched shape (sorted row.key) row.version)))))

-- An addition of columns, with what is written for each of their values.
abbrev pub insert_of : Text → Text → Pairs → List Text → Text
insert_of schema table columns items =
    codes "INSERT INTO "
    ++ (target schema table
        ++ (codes " ("
            ++ (join (codes ", ") (map (λ p. quote p.0) columns)
                ++ (codes ") VALUES (" ++ (join (codes ", ") items ++ codes ")")))))

abbrev pub insert_script : TableShape → Text → Text → RowInsert → Text
insert_script shape schema table row =
    let columns = sorted row.values in
    if is_empty columns
    then codes "INSERT INTO " ++ (target schema table ++ codes " DEFAULT VALUES")
    else insert_of schema table columns (filled shape bare columns)

AllRender-names :
    (values : List (Option Text)) (ps : Pairs)
    → AllRender values (map (λ p. quote p.0) ps) (map (λ p. quote p.0) ps)
unfolding AllRender
AllRender-names values [] = refl
AllRender-names values (p ∷ ps) =
    (Renders-plain values (quote p.0) (is_plain-quote p.0), AllRender-names values ps)

rendered-insert_of :
    (shape : TableShape) (schema table : Text)
    → HasPlainTypes shape
    → (columns : Pairs) → length columns ≤ usize_max
    → render
        (pushed columns)
        false
        0
        (insert_of schema table columns (numbered shape bare columns 0))
      ≡ some (insert_of schema table columns (filled shape bare columns))
rendered-insert_of shape schema table types columns h =
    let values = pushed columns in
    rendered-whole values _ (insert_of schema table columns (filled shape bare columns)) (
      Renders-append values _ _ _ _
        (Renders-plain values (codes "INSERT INTO ") (unfold is_plain in refl))
        (Renders-append values _ _ _ _
          (Renders-plain values (target schema table) (is_plain-target schema table))
          (Renders-append values _ _ _ _
            (Renders-plain values (codes " (") (unfold is_plain in refl))
            (Renders-append values _ _ _ _
              (Renders-join values (codes ", ") _ _ (unfold is_plain in refl)
                (AllRender-names values columns))
              (Renders-append values _ _ _ _
                (Renders-plain values (codes ") VALUES (") (unfold is_plain in refl))
                (Renders-append values _ _ _ _
                  (Renders-join values (codes ", ") _ _ (unfold is_plain in refl) (
                    subst
                      (λ vs.
                        AllRender vs (numbered shape bare columns 0) (filled shape bare columns))
                      (append-nil values)
                      (AllRender-numbered shape bare types (λ column. unfold is_plain in refl)
                        columns [] [] (omega arith))))
                  (Renders-plain values (codes ")") (unfold is_plain in refl))))))))

module _ (shape : TableShape) (schema table : Text) (types : HasPlainTypes shape) where
  -- The history shows a deletion with every value in the place of its placeholder, cast as it was,
  -- and nothing else changed; rendering it does not panic. The catalog's types hold no `$` outside
  -- quotes, and there are no more values than `usize` counts.
  pub rendered-delete :
      (row : RowDelete)
      → length (sorted row.key) + 1 ≤ usize_max
      → rendered (delete shape schema table row) ≡ some (delete_script shape schema table row)
  unfolding rendered delete
  rendered-delete row h =
      let key = sorted row.key in
      let values = pushed key ++ some row.version ∷ [] in
      rendered-whole values _ (delete_script shape schema table row) (
        Renders-append values _ _ _ _
          (Renders-plain values (codes "DELETE FROM ") (unfold is_plain in refl))
          (Renders-append values _ _ _ _
            (Renders-plain values (target schema table) (is_plain-target schema table))
            (Renders-append values _ _ _ _
              (Renders-plain values (codes " WHERE ") (unfold is_plain in refl))
              (Renders-join values (codes " AND ") _ _ (unfold is_plain in refl) (
                AllRender-matches shape types key row.version [] 0 (length key + 1) refl
                  (omega arith) (omega arith))))))

  -- The history shows an update with every value in the place of its placeholder, cast as it was: the
  -- new values, the key's and the version, which are numbered across the whole statement. Rendering
  -- it does not panic. The catalog's types hold no `$` outside quotes, and there are no more values
  -- than `usize` counts.
  pub rendered-update :
      (row : RowUpdate)
      → length (sorted row.set) + length (sorted row.key) + 1 ≤ usize_max
      → rendered (update shape schema table row) ≡ some (update_script shape schema table row)
  unfolding rendered update
  rendered-update row h =
      let set = sorted row.set in
      let key = sorted row.key in
      let values = pushed set ++ (pushed key ++ some row.version ∷ []) in
      rendered-whole values _ (update_script shape schema table row) (
        Renders-append values _ _ _ _
          (Renders-plain values (codes "UPDATE ") (unfold is_plain in refl))
          (Renders-append values _ _ _ _
            (Renders-plain values (target schema table) (is_plain-target schema table))
            (Renders-append values _ _ _ _
              (Renders-plain values (codes " SET ") (unfold is_plain in refl))
              (Renders-append values _ _ _ _
                (Renders-join values (codes ", ") _ _ (unfold is_plain in refl) (
                  AllRender-numbered shape assignment types is_plain-assignment set []
                    (pushed key ++ some row.version ∷ []) (omega arith)))
                (Renders-append values _ _ _ _
                  (Renders-plain values (codes " WHERE ") (unfold is_plain in refl))
                  (Renders-join values (codes " AND ") _ _ (unfold is_plain in refl) (
                    AllRender-matches shape types key row.version (pushed set) (length set) _
                      (omega (arith, length-pushed set)) (omega (arith, length-pushed set))
                      (omega arith))))))))

  -- The history shows an addition with every value in the place of its placeholder, cast as it was,
  -- also one that leaves every column to the table. Rendering it does not panic. The catalog's types
  -- hold no `$` outside quotes, and there are no more values than `usize` counts.
  pub rendered-insert :
      (row : RowInsert)
      → length (sorted row.values) ≤ usize_max
      → rendered (insert shape schema table row) ≡ some (insert_script shape schema table row)
  unfolding rendered insert
  rendered-insert row h = elim (Bool-cases (is_empty (sorted row.values))) [
    | inl e ↦ rw e (
        rendered-whole [] _
          (codes "INSERT INTO " ++ (target schema table ++ codes " DEFAULT VALUES"))
          (Renders-append [] _ _ _ _
            (Renders-plain [] (codes "INSERT INTO ") (unfold is_plain in refl))
            (Renders-plain [] (target schema table ++ codes " DEFAULT VALUES") (
              is_plain-append false (target schema table) (codes " DEFAULT VALUES")
                (is_plain-target schema table) (unfold is_plain in refl)))))
    | inr e ↦ rw e (rendered-insert_of shape schema table types (sorted row.values) h)
  ]
