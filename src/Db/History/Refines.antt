-- ===== src/Db/History/Refines.antt =====
-- The table refines a log that forgets its ids: for each connection, the newest of what happened.
use data_looker.Prelude.{
  ℕ, zero, suc, ◌≡◌, refl, sym, ap, ◌∙◌, Bool, true, false, Option, none, some, List, [], ◌∷◌,
  if◌then◌else◌, select, map, take, any, arith, Bool-cases, Option-cases, inl, inr, ◌⊎◌, subst,
}
use data_looker.Text.{Text, text_eq, text_eq_iff, text_eq_refl}
use data_looker.Error.{AppError}
use data_looker.Db.{Meta, HistoryRow, Source, reader, agent, handoff, is_stored}
use data_looker.Db.History.{
  keep, written, read_source, QueryRun, HistoryEntry, row_to_entry, next_id, of_connection, newest,
  prune, history_row, record_row, list,
}
use data_looker.Db.History.Log.{
  Descends, rows_of, next_id-Below, newest-take, prune-own, prune-other, prune-Descends,
}

-- A run to record: what the transaction meets, and when it ran.
pub record Attempt : Type 0 where
  pub refused : Option AppError
  pub ran_at : Text
  pub run : QueryRun

abbrev pub Said : Type 0
Said = Text × QueryRun

-- What an entry says, its connection given back.
unfoldable pub said : Text → HistoryEntry → Said
said id e = (
  e.ran_at,
  record {
    connection_id = id;
    sql = e.sql;
    duration_ms = e.duration_ms;
    row_count = e.row_count;
    error = e.error;
    source = e.source;
  },
)

abbrev pub own : Text → Said → Bool
own id s = text_eq s.1.connection_id id

-- The runs recorded one after the other, and those that happened, newest first, behind `past`.
module _ (foreign : AppError) where
  unfoldable pub records : Meta → List Attempt → Meta
  unfolding record_row
  records m [] = m
  records m (a ∷ more) = records (record_row a.refused foreign a.ran_at m a.run).1 more

unfoldable pub happened : List Text → List Attempt → List Said → List Said
happened stored [] past = past
happened stored (a ∷ more) past = elim a.refused [
  | some e ↦ happened stored more past
  | none ↦
      let rest = happened stored more in
      if any (text_eq a.run.connection_id) stored
      then rest ((a.ran_at, a.run) ∷ past)
      else rest past
]

abbrev said_row : Text → HistoryRow → Said
said_row id row = said id (row_to_entry row)

abbrev Shows : Meta → List Said → Type 0
Shows m past =
    Descends m.query_history
    × ((id : Text) → map (said_row id) (rows_of id m) ≡ take keep (select (own id) past))

map-map :
    {A B C : Type 0} (f : B → C) (g : A → B) (xs : List A)
    → map f (map g xs) ≡ map (λ x. f (g x)) xs
map-map f g [] = refl
map-map f g (x ∷ xs) = ap (λ l. f (g x) ∷ l) (map-map f g xs)

map-take : {A B : Type 0} (f : A → B) (n : ℕ) (xs : List A) → map f (take n xs) ≡ take n (map f xs)
map-take f zero xs = refl
map-take f (suc n) [] = refl
map-take f (suc n) (x ∷ xs) = ap (λ l. f x ∷ l) (map-take f n xs)

take-take : {A : Type 0} (n : ℕ) (xs : List A) → take n (take n xs) ≡ take n xs
take-take zero xs = refl
take-take (suc n) [] = refl
take-take (suc n) (x ∷ xs) = ap (λ l. x ∷ l) (take-take n xs)

take-suc : {A : Type 0} (n : ℕ) (xs : List A) → take n (take (suc n) xs) ≡ take n xs
take-suc zero xs = refl
take-suc (suc n) [] = refl
take-suc (suc n) (x ∷ xs) = ap (λ l. x ∷ l) (take-suc n xs)

-- A log that is bounded at each step is the bounded log.
take-cons : {A : Type 0} (n : ℕ) (x : A) (xs : List A) → take n (x ∷ take n xs) ≡ take n (x ∷ xs)
take-cons zero x xs = refl
take-cons (suc n) x xs = ap (λ l. x ∷ l) (take-suc n xs)

pub read_source-written : (s : Source) → read_source (written s) ≡ s
unfolding read_source written
read_source-written reader = refl
read_source-written agent = refl
read_source-written handoff = refl

said_row-history_row :
    (n : ℕ) (ran_at : Text) (run : QueryRun)
    → said_row run.connection_id (history_row n ran_at run) ≡ (ran_at, run)
unfolding said row_to_entry
said_row-history_row n ran_at run = rw (read_source-written run.source) refl

-- The tables once a run is in.
abbrev added : Meta → Text → QueryRun → Meta
added m ran_at run = record m {
  query_history =
      prune run.connection_id keep
        (history_row (next_id m.query_history) ran_at run ∷ m.query_history);
}

record_row-cases :
    (foreign : AppError) (a : Attempt) (m : Meta)
    → ((record_row a.refused foreign a.ran_at m a.run).1 ≡ m
        × ((more : List Attempt) (past : List Said)
            → happened m.connections (a ∷ more) past ≡ happened m.connections more past))
      ⊎ (((record_row a.refused foreign a.ran_at m a.run).1 ≡ added m a.ran_at a.run)
          × ((more : List Attempt) (past : List Said)
              → happened m.connections (a ∷ more) past
                ≡ happened m.connections more ((a.ran_at, a.run) ∷ past)))
unfolding record_row happened
record_row-cases foreign a m = elim (Option-cases a.refused) [
  | inl e ↦ elim (Bool-cases (is_stored m a.run.connection_id)) [
    | inl h ↦ inr (ground arith, λ more past. ground arith)
    | inr h ↦ inl (ground arith, λ more past. ground arith)
  ]
  | inr (x, e) ↦ inl (ground arith, λ more past. ground arith)
]

select-cons :
    {A : Type 0} (p : A → Bool) (x : A) (xs : List A)
    → p x ≡ true
    → select p (x ∷ xs) ≡ x ∷ select p xs
select-cons p x xs h = rw h refl

select-skip :
    {A : Type 0} (p : A → Bool) (x : A) (xs : List A)
    → p x ≡ false
    → select p (x ∷ xs) ≡ select p xs
select-skip p x xs h = rw h refl

-- What the connection of the run shows after it.
added-own :
    (m : Meta) (ran_at : Text) (run : QueryRun) (past : List Said)
    → Shows m past
    → map (said_row run.connection_id) (rows_of run.connection_id (added m ran_at run))
      ≡ take keep (select (own run.connection_id) ((ran_at, run) ∷ past))
added-own m ran_at run past (d, shows) =
    let id = run.connection_id in
    let row = history_row (next_id m.query_history) ran_at run in
    ap (map (said_row id))
      (prune-own id keep (row ∷ m.query_history) (next_id-Below m.query_history, d))
    ∙ map-take (said_row id) keep (select (of_connection id) (row ∷ m.query_history))
    ∙ ap (λ l. take keep (map (said_row id) l))
        (select-cons (of_connection id) row m.query_history (text_eq_refl id))
    ∙ ap (λ s. take keep (s ∷ map (said_row id) (rows_of id m)))
        (said_row-history_row (next_id m.query_history) ran_at run)
    ∙ ap (λ l. take keep ((ran_at, run) ∷ l)) (shows id)
    ∙ take-cons keep (ran_at, run) (select (own id) past)
    ∙ ap (take keep) (sym (select-cons (own id) (ran_at, run) past (text_eq_refl id)))

added-other :
    (m : Meta) (ran_at : Text) (run : QueryRun) (past : List Said) (id : Text)
    → text_eq run.connection_id id ≡ false
    → Shows m past
    → map (said_row id) (rows_of id (added m ran_at run))
      ≡ take keep (select (own id) ((ran_at, run) ∷ past))
added-other m ran_at run past id apart (d, shows) =
    let row = history_row (next_id m.query_history) ran_at run in
    ap (map (said_row id)) (
      prune-other run.connection_id id keep (row ∷ m.query_history) apart
      ∙ select-skip (of_connection id) row m.query_history apart)
    ∙ shows id
    ∙ ap (take keep) (sym (select-skip (own id) (ran_at, run) past apart))

added-Shows :
    (m : Meta) (ran_at : Text) (run : QueryRun) (past : List Said)
    → Shows m past
    → Shows (added m ran_at run) ((ran_at, run) ∷ past)
added-Shows m ran_at run past (d, shows) = (
  prune-Descends run.connection_id keep
      (history_row (next_id m.query_history) ran_at run ∷ m.query_history)
      (next_id-Below m.query_history, d),
  λ id. elim (Bool-cases (text_eq run.connection_id id)) [
    | inl e ↦
        subst
          (λ c.
            map (said_row c) (rows_of c (added m ran_at run))
            ≡ take keep (select (own c) ((ran_at, run) ∷ past)))
          ((text_eq_iff run.connection_id id).0 e) (added-own m ran_at run past (d, shows))
    | inr e ↦ added-other m ran_at run past id e (d, shows)
  ],
)

records-Shows :
    (foreign : AppError) (attempts : List Attempt) (m : Meta) (past : List Said)
    → Shows m past
    → Shows (records foreign m attempts) (happened m.connections attempts past)
unfolding records
records-Shows foreign [] m past s = unfold happened in s
records-Shows foreign (a ∷ more) m past s = elim (record_row-cases foreign a m) [
  | inl (e, f) ↦ moved m past e (f more past) (records-Shows foreign more m past s)
  | inr (e, f) ↦ moved (added m a.ran_at a.run) ((a.ran_at, a.run) ∷ past) e (f more past) (
      records-Shows foreign more (added m a.ran_at a.run) ((a.ran_at, a.run) ∷ past)
        (added-Shows m a.ran_at a.run past s))
]
  where
    moved :
        (n : Meta) (now : List Said)
        → (record_row a.refused foreign a.ran_at m a.run).1 ≡ n
        → happened m.connections (a ∷ more) past ≡ happened m.connections more now
        → Shows (records foreign n more) (happened m.connections more now)
        → Shows
            (records foreign (record_row a.refused foreign a.ran_at m a.run).1 more)
            (happened m.connections (a ∷ more) past)
    moved n now e f shows =
        subst (λ k. Shows (records foreign k more) (happened m.connections (a ∷ more) past)) (sym e)
          (subst (Shows (records foreign n more)) (sym f) shows)

-- After any runs, recorded one after the other from an empty history, some of them perhaps refused,
-- a connection's history lists the newest of its own that were not, newest first, as many as are
-- asked for and 1,000 at most; every other run of it is forgotten, and none of another's is listed.
pub records-list :
    (foreign : AppError) (attempts : List Attempt) (m : Meta) (id : Text) (limit : ℕ)
    → m.query_history ≡ []
    → map (said id) (list (records foreign m attempts) id limit)
      ≡ take limit (take keep (select (own id) (happened m.connections attempts [])))
unfolding list
records-list foreign attempts m id limit e =
    let after = records foreign m attempts in
    let (d, shows) = records-Shows foreign attempts m [] (rw e (tt, λ j. refl)) in
    map-map (said id) row_to_entry (newest limit id after.query_history)
    ∙ ap (map (said_row id)) (newest-take limit id after.query_history d)
    ∙ map-take (said_row id) limit (rows_of id after)
    ∙ ap (take limit) (shows id)
