-- ===== src/Registries.antt =====
-- What is running, by name: `QueryRegistry` of src-tauri/src/app/query.rs and `ShellRegistry` of
-- src-tauri/src/shell/mod.rs.
mod Tests
use data_looker.Prelude.{
  ℕ, suc, ◌≡◌, ◌≢◌, Bool, true, false, not, Option, none, some, List, [], ◌∷◌, ◌++◌, map,
  if◌then◌else◌, refl, arith, Option-cases, Bool-cases, inl, inr, ◌⊎◌, sym, ap, ◌∙◌,
}
use data_looker.Text.{Text, codes, text_eq, text_eq_iff, text_eq_refl}
use data_looker.Map.{
  Map, text_is_eq, get, insert, remove, is_some, insert-hit, get-insert, get-remove,
}
use data_looker.Error.{AppError, validation, Result, ok, err}

-- A running query's token, by what tells it from the others, and the tokens cancelled so far.
pub record Queries : Type 0 where
  pub running : Map Text ℕ
  pub next : ℕ
  pub cancelled : List ℕ

unfoldable pub register : Queries → Text → Result ℕ AppError × Queries
register q id =
    if is_some (get q.running id)
    then (err (validation (codes "query " ++ (id ++ codes " is already running"))), q)
    else (ok q.next, record q { running = insert q.running id q.next; next = suc q.next })

unfoldable pub cancel : Queries → Text → Queries
cancel q id = elim (get q.running id) [
  | none ↦ q
  | some token ↦ record q { cancelled = token ∷ q.cancelled }
]

-- Dropping a `Registration`.
unfoldable pub forget_query : Queries → Text → Queries
forget_query q id = record q { running = remove q.running id }

pub record ShellRun : Type 0 where
  pub id : Text
  pub connection_id : Text

abbrev pub Shells : Type 0
Shells = Map Text ShellRun

unfoldable pub is_running : Shells → Text → Bool
is_running running id = is_some (get running id)

unfoldable pub insert_run : Shells → ShellRun → Bool × Shells
insert_run running run =
    if is_some (get running run.connection_id)
    then (false, running)
    else (true, insert running run.connection_id run)

unfoldable pub remove_run : Shells → Text → Text → Option ShellRun × Shells
remove_run running connection_id run_id = elim (get running connection_id) [
  | none ↦ (none, running)
  | some run ↦
      if text_eq run.id run_id then (some run, remove running connection_id) else (none, running)
]

unfoldable pub take_all : Shells → List ShellRun × Shells
take_all running = (map (λ (e : Text × ShellRun). e.1) running, [])

-- A query is registered only if none runs under its id, and then cancelling that id cancels the
-- token it was given; a query refused leaves the one that runs under the id its own token.
pub register-cancel :
    (q : Queries) (id : Text)
    → ((register q id).0 ≡ ok q.next
        × (get q.running id ≡ none)
        × ((cancel (register q id).1 id).cancelled ≡ q.next ∷ q.cancelled))
      ⊎ ((token : ℕ) × (get q.running id ≡ some token)
          × ((register q id).1 ≡ q)
          × ((cancel (register q id).1 id).cancelled ≡ token ∷ q.cancelled))
unfolding register cancel
register-cancel q id = elim (Option-cases (get q.running id)) [
  | inl e ↦ inl (ground (arith, insert-hit q.running id q.next))
  | inr (token, e) ↦ inr (token, e, ground arith, ground arith)
]

-- A command that ends takes away its own run only: one that was started for the connection after it
-- stays, and so do the runs of the other connections.
pub remove_run-successor :
    (running : Shells) (run : ShellRun) (old : Text)
    → text_eq run.id old ≡ false
    → (insert_run running run).0 ≡ true
    → remove_run (insert_run running run).1 run.connection_id old
      ≡ (none, (insert_run running run).1)
unfolding insert_run remove_run
remove_run-successor running run old h k = elim (Option-cases (get running run.connection_id)) [
  | inl e ↦ ground (arith, insert-hit running run.connection_id run)
  | inr (other, e) ↦ ground arith
]

insert_run-free :
    (running : Shells) (run : ShellRun)
    → (insert_run running run).0 ≡ true
    → (get running run.connection_id ≡ none)
      × (insert_run running run ≡ (true, insert running run.connection_id run))
unfolding insert_run
insert_run-free running run k = elim (Option-cases (get running run.connection_id)) [
  | inl e ↦ (e, ground arith)
  | inr (other, e) ↦ ground arith
]

insert_run-taken :
    (running : Shells) (run : ShellRun)
    → get running run.connection_id ≡ some run
    → insert_run running run ≡ (false, running)
unfolding insert_run
insert_run-taken running run e = ground arith

remove_run-hit :
    (running : Shells) (run : ShellRun)
    → get running run.connection_id ≡ some run
    → remove_run running run.connection_id run.id ≡ (some run, remove running run.connection_id)
unfolding remove_run
remove_run-hit running run e = ground (arith, text_eq_refl run.id)

removed :
    (running : Shells) (run : ShellRun) (j : Text)
    → get running run.connection_id ≡ none
    → get (remove (insert running run.connection_id run) run.connection_id) j ≡ get running j
removed running run j free = ground (
  arith,
  get-remove (insert running run.connection_id run) run.connection_id j,
  get-insert running run.connection_id j run,
  text_eq_iff run.connection_id j,
)

-- A run that is registered can be removed by its own id, and that leaves what was running before;
-- a connection with a run registers no other.
pub insert_run-remove_run :
    (running : Shells) (run : ShellRun) (j : Text)
    → (insert_run running run).0 ≡ true
    → let there = (insert_run running run).1 in
      let (taken, left) = remove_run there run.connection_id run.id in
      (insert_run there run ≡ (false, there)) × (taken ≡ some run) × (get left j ≡ get running j)
insert_run-remove_run running run j k =
    let c = run.connection_id in
    let (free, e) = insert_run-free running run k in
    let there = insert running c run in
    let hit = insert-hit running c run in
    let q = remove_run-hit there run hit in
    rw e (insert_run-taken there run hit, rw q refl, rw q (removed running run j free))
