-- ===== src/Db/History/Log.antt =====
-- The history is, for each connection, the newest of what was run on it.
use data_looker.Prelude.{
  ℕ, zero, suc, ◌≤◌, ◌<◌, max, ◌≡◌, refl, ◌∙◌, Bool, false, not, ◌&&◌, List, [], ◌∷◌, select, take,
  arith, Bool-cases, inl, inr, All,
}
use data_looker.Text.{Text, text_eq, text_eq_iff}
use data_looker.Db.{Meta, HistoryRow}
use data_looker.Db.History.{
  next_id, of_connection, insert_newest, newest_first, newest, has_id, prune,
}

-- Ids go down, as rows are added in front.
abbrev Below : ℕ → List HistoryRow → Type 0
Below n rows = All (λ (r : HistoryRow). r.id < n) rows

abbrev pub Descends : List HistoryRow → Type 0
Descends [] = Unit
Descends (r ∷ rs) = Below r.id rs × Descends rs

Below-le : (n m : ℕ) (rows : List HistoryRow) → n ≤ m → Below n rows → Below m rows
Below-le n m [] h b = tt
Below-le n m (r ∷ rs) h (p, b) = (omega arith, Below-le n m rs h b)

pub next_id-Below : (rows : List HistoryRow) → Below (next_id rows) rows
unfolding next_id
next_id-Below [] = tt
next_id-Below (r ∷ rs) = (
  omega arith,
  Below-le (next_id rs) (max (suc r.id) (next_id rs)) rs (omega arith) (next_id-Below rs),
)

module _ (p : HistoryRow → Bool) where
  select-Below : (n : ℕ) (rows : List HistoryRow) → Below n rows → Below n (select p rows)
  select-Below n [] b = tt
  select-Below n (r ∷ rs) (h, b) = elim (Bool-cases (p r)) [
    | inl e ↦ rw e (h, select-Below n rs b)
    | inr e ↦ rw e (select-Below n rs b)
  ]

  select-Descends : (rows : List HistoryRow) → Descends rows → Descends (select p rows)
  select-Descends [] d = tt
  select-Descends (r ∷ rs) (b, d) = elim (Bool-cases (p r)) [
    | inl e ↦ rw e (select-Below r.id rs b, select-Descends rs d)
    | inr e ↦ rw e (select-Descends rs d)
  ]

newest_first-Descends : (rows : List HistoryRow) → Descends rows → newest_first rows ≡ rows
unfolding newest_first
newest_first-Descends [] d = refl
newest_first-Descends (r ∷ rs) (b, d) = rw (newest_first-Descends rs d) (in_front rs b)
  where
    in_front : (rs : List HistoryRow) → Below r.id rs → insert_newest r rs ≡ r ∷ rs
    in_front [] b = unfold insert_newest in refl
    in_front (s ∷ ss) (h, b) = unfold insert_newest in ground arith

-- Being among the first is not changed by a row above them all.
select-above :
    (x : HistoryRow) (kept rows : List HistoryRow)
    → Below x.id rows
    → select (λ (r : HistoryRow). has_id r.id (x ∷ kept)) rows
      ≡ select (λ (r : HistoryRow). has_id r.id kept) rows
select-above x kept [] b = refl
select-above x kept (r ∷ rs) (h, b) = ground (arith, select-above x kept rs b)

select-none : (rows : List HistoryRow) → select (λ (r : HistoryRow). has_id r.id []) rows ≡ []
select-none [] = refl
select-none (r ∷ rs) = select-none rs

select-take :
    (n : ℕ) (rows : List HistoryRow)
    → Descends rows
    → select (λ (r : HistoryRow). has_id r.id (take n rows)) rows ≡ take n rows
select-take zero rows d = select-none rows
select-take (suc n) [] d = refl
select-take (suc n) (x ∷ xs) (b, d) =
    ground (arith, select-above x (take n xs) xs b, select-take n xs d)

select-both :
    (id : Text) (q : HistoryRow → Bool) (rows : List HistoryRow)
    → select (of_connection id) (select (λ row. not (of_connection id row && not (q row))) rows)
      ≡ select q (select (of_connection id) rows)
select-both id q [] = refl
select-both id q (r ∷ rs) = ground (arith, select-both id q rs)

select-other :
    (id other : Text) (q : HistoryRow → Bool) (rows : List HistoryRow)
    → text_eq id other ≡ false
    → select (of_connection other) (select (λ row. not (of_connection id row && not (q row))) rows)
      ≡ select (of_connection other) rows
select-other id other q [] h = refl
select-other id other q (r ∷ rs) h = ground (
  arith,
  select-other id other q rs h,
  text_eq_iff r.connection_id id,
  text_eq_iff r.connection_id other,
  text_eq_iff id other,
)

-- The rows of a connection, which are in order.
abbrev pub rows_of : Text → Meta → List HistoryRow
rows_of id m = select (of_connection id) m.query_history

pub newest-take :
    (limit : ℕ) (id : Text) (rows : List HistoryRow)
    → Descends rows
    → newest limit id rows ≡ take limit (select (of_connection id) rows)
unfolding newest
newest-take limit id rows d =
    rw
      (newest_first-Descends (select (of_connection id) rows)
        (select-Descends (of_connection id) rows d))
      refl

pub prune-own :
    (id : Text) (limit : ℕ) (rows : List HistoryRow)
    → Descends rows
    → select (of_connection id) (prune id limit rows) ≡ take limit (select (of_connection id) rows)
unfolding prune
prune-own id limit rows d =
    select-both id (λ row. has_id row.id (newest limit id rows)) rows
    ∙ rw (newest-take limit id rows d) (
        select-take limit (select (of_connection id) rows)
          (select-Descends (of_connection id) rows d))

pub prune-other :
    (id other : Text) (limit : ℕ) (rows : List HistoryRow)
    → text_eq id other ≡ false
    → select (of_connection other) (prune id limit rows) ≡ select (of_connection other) rows
unfolding prune
prune-other id other limit rows h =
    select-other id other (λ row. has_id row.id (newest limit id rows)) rows h

pub prune-Descends :
    (id : Text) (limit : ℕ) (rows : List HistoryRow)
    → Descends rows
    → Descends (prune id limit rows)
unfolding prune
prune-Descends id limit rows d =
    select-Descends
      (λ row. not (of_connection id row && not (has_id row.id (newest limit id rows)))) rows d
