-- ===== src/Postgres/Edit/Planned.antt =====
-- A plan holds edits only.
use data_looker.Prelude.{
  ◌≡◌, refl, sym, subst, All, All-append, List, [], ◌∷◌, ◌++◌, map, Bool, true, false,
  if◌then◌else◌, is_empty,
}
use data_looker.Text.{Text}
use data_looker.Error.{ok}
use data_looker.Drivers.{TableShape, RowInsert, RowDelete, RowUpdate}
use data_looker.Postgres.Edit.{Statement, Edits, sorted, insert, delete, update, plan}
use data_looker.Postgres.Edit.Plans.{plan_iff}
use data_looker.Postgres.Server.{IsEdit, inserts, updates, deletes}

module _ (shape : TableShape) (schema table : Text) where
  either-IsEdit : (b : Bool) (q r : Statement) → IsEdit q → IsEdit r → IsEdit (if b then q else r)
  either-IsEdit true q r h k = h
  either-IsEdit false q r h k = k

  insert-IsEdit : (row : RowInsert) → IsEdit (insert shape schema table row)
  unfolding insert
  insert-IsEdit row =
      either-IsEdit (is_empty (sorted row.values)) _ _ (inserts _ _ refl) (inserts _ _ refl)

  delete-IsEdit : (row : RowDelete) → IsEdit (delete shape schema table row)
  unfolding delete
  delete-IsEdit row = deletes (delete shape schema table row) _ refl

  update-IsEdit : (row : RowUpdate) → IsEdit (update shape schema table row)
  unfolding update
  update-IsEdit row = updates (update shape schema table row) _ refl

  map-IsEdit :
      {A : Type 0} (f : A → Statement) (xs : List A)
      → ((x : A) → IsEdit (f x))
      → All IsEdit (map f xs)
  map-IsEdit f [] h = tt
  map-IsEdit f (x ∷ xs) h = (h x, map-IsEdit f xs h)

  -- Every statement of a plan inserts, updates or deletes, and does nothing else.
  pub plan-IsEdit :
      (edits : Edits) (statements : List Statement)
      → plan shape schema table edits ≡ ok statements
      → All IsEdit statements
  plan-IsEdit edits statements h =
      let (key, named, same) = (plan_iff shape schema table edits).0 statements h in
      subst (λ ss. All IsEdit ss) (sym same)
        (All-append IsEdit (map (delete shape schema table) edits.deletes)
          (map (update shape schema table) edits.updates
            ++ map (insert shape schema table) edits.inserts)
          (map-IsEdit (delete shape schema table) edits.deletes delete-IsEdit)
          (All-append IsEdit (map (update shape schema table) edits.updates)
            (map (insert shape schema table) edits.inserts)
            (map-IsEdit (update shape schema table) edits.updates update-IsEdit)
            (map-IsEdit (insert shape schema table) edits.inserts insert-IsEdit)))
