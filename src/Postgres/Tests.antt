-- ===== src/Postgres/Tests.antt =====
-- A server that keeps a number of rows, and the theorems on it.
use mathlib.Core.Bool.{true≢false}
use data_looker.Prelude.{
  ◌==◌, ℕ, suc, ◌+◌, ◌≡◌, ◌⊎◌, refl, Bool, true, false, Option, none, some, [], ◌∷◌, ◌++◌, inl,
  arith, if◌then◌else◌,
}
use data_looker.Text.{Text, codes, text_eq}
use data_looker.Json.{null}
use data_looker.Error.{Result, ok, err}
use data_looker.Drivers.{TableShape, RowDelete, RowUpdate, idle, DriverError, SqlError, reported}
use data_looker.Postgres.Quote.{quote, literal}
use data_looker.Postgres.Quote.RoundTrip.{
  read_identifier, read_literal, read_identifier-quote, read_literal-literal,
}
use data_looker.Map.{get, text_is_eq}
use data_looker.Postgres.Edit.{
  Statement, Edits, delete, update, plan, plan_deletes, plan_updates, names_one_row, whole_key,
}
use data_looker.Postgres.Server.{Server, Transactional}
use data_looker.Postgres.Transaction.{
  state_of, state, run_statements, finish_save, begin_save, apply, not_one_row,
}
use data_looker.Postgres.Transaction.Atomic.{apply-atomic, CommitFailed}
use data_looker.Postgres.Session.{Outcome, Slot, run_on, keeps}
use data_looker.Postgres.Session.Settled.{IsSettled, run_on-IsSettled}
use data_looker.Postgres.Explain.{statement, run, opening, closing, savepoint, back_to_savepoint}
use data_looker.Postgres.Explain.Kept.{RollsBack, NotSent, run-kept}
use data_looker.Postgres.Ddl.{Relation}

-- What is kept, what the transaction in progress would add, and whether there is one.
abbrev Conn : Type 0
Conn = ℕ × ℕ × Bool

abbrev begun : Conn → Conn
begun (k, p, i) = (k, 0, true)

-- It finds every row that is updated stale.
abbrev is_update : Text → Bool
is_update [] = false
is_update (c ∷ s) = c == b'U'

abbrev executed : Statement → Conn → Result ℕ SqlError × Conn
executed q (k, p, true) = if is_update q.sql then (ok 0, (k, p, true)) else (ok 1, (k, suc p, true))
executed q (k, p, false) = (ok 1, (suc k, p, false))

abbrev committed : Conn → Conn
committed (k, p, i) = (k + p, 0, false)

abbrev rolled_back : Conn → Conn
rolled_back (k, p, true) = (k, 0, false)
rolled_back (k, p, false) = (k, p, false)

abbrev a_server : Server
a_server = record {
  Conn = Conn;
  Kept = ℕ;
  kept = λ c. c.0;
  inside = λ c. c.2;
  asks = λ c. (ok c.2, c);
  begin = λ c. (ok tt, begun c);
  execute = executed;
  commit = λ c. (ok tt, committed c);
  dropped = rolled_back;
  command = λ text c. (ok tt, c);
  scalar = λ text c. (ok null, c);
}

its_laws : Transactional a_server
its_laws = record {
  kept-asks = λ c. refl;
  kept-begin = λ (k, p, i). refl;
  inside-begin = λ (k, p, i) h. refl;
  kept-execute = λ q c e h. kept_lem q c h;
  inside-execute = λ q c e h. inside_lem q c h;
  kept-dropped = dropped_lem;
}
  where
    kept_lem : (q : Statement) (c : Conn) → c.2 ≡ true → (executed q c).1.0 ≡ c.0
    kept_lem q (k, p, true) h = ground arith
    kept_lem q (k, p, false) h = ground arith

    inside_lem : (q : Statement) (c : Conn) → c.2 ≡ true → (executed q c).1.2 ≡ true
    inside_lem q (k, p, true) h = ground arith
    inside_lem q (k, p, false) h = ground arith

    dropped_lem : (c : Conn) → c.2 ≡ true → (rolled_back c).0 ≡ c.0
    dropped_lem (k, p, true) h = refl
    dropped_lem (k, p, false) h = ground arith

abbrev shape : TableShape
shape = record { types = []; primary_key = codes "id" ∷ [] }

abbrev a_delete : RowDelete
a_delete = record { key = (codes "id", some (codes "7")) ∷ []; version = codes "901" }

abbrev an_update : RowUpdate
an_update = record { key = (codes "id", none) ∷ []; set = []; version = codes "902" }

abbrev deleted : Statement
deleted = delete shape (codes "s") (codes "t") a_delete

abbrev updated : Statement
updated = update shape (codes "s") (codes "t") an_update

abbrev edits : Edits
edits = record { inserts = []; updates = an_update ∷ []; deletes = a_delete ∷ [] }

abbrev at_rest : Conn
at_rest = (5, 0, false)

is_planned : plan shape (codes "s") (codes "t") edits ≡ ok (deleted ∷ updated ∷ [])
unfolding plan plan_deletes plan_updates names_one_row whole_key get
is_planned = refl

apply-atomic_example :
    ((apply a_server (deleted ∷ updated ∷ []) at_rest).1.0 ≡ 5)
    ⊎ CommitFailed a_server its_laws (apply a_server (deleted ∷ updated ∷ []) at_rest).1
unfolding apply state state_of begin_save run_statements finish_save delete update
apply-atomic_example =
    apply-atomic a_server its_laws shape (codes "s") (codes "t") edits (deleted ∷ updated ∷ [])
      at_rest (not_one_row 0) is_planned refl

-- Work that begins a transaction, and is then refused by the server.
abbrev begins_and_fails : Conn → Outcome ℕ × Conn
begins_and_fails c = (some (err (DriverError.sql (reported none (codes "syntax error")))), begun c)

abbrev new_slot : Slot Conn
new_slot = record { held = none; transaction = idle }

run_on-IsSettled_example :
    IsSettled a_server
      (run_on a_server true false (ok at_rest) (λ c. false) begins_and_fails new_slot).1
run_on-IsSettled_example =
    run_on-IsSettled a_server false (ok at_rest) (λ c. false) begins_and_fails new_slot
      (inl (refl, refl))

-- A server that keeps how much was done, and how much had been when a savepoint was set, if one is;
-- a transaction is open, and an explanation does something.
abbrev commanded : Text → ℕ × Option ℕ → Result (Unit {0}) SqlError × (ℕ × Option ℕ)
commanded text (done, saved) =
    if text_eq text back_to_savepoint
    then (ok tt, (elim saved as (λ x. ℕ) [ none ↦ done | some d ↦ d ], none))
    else if text_eq text savepoint
    then (ok tt, (done, some done))
    else (ok tt, (0, none))

abbrev explain_server : Server
explain_server = record {
  Conn = ℕ × Option ℕ;
  Kept = ℕ;
  kept = λ c. c.0;
  inside = λ c. true;
  asks = λ c. (ok true, c);
  begin = λ c. (ok tt, c);
  execute = λ q (done, saved). (ok 1, (suc done, saved));
  commit = λ c. (ok tt, c);
  dropped = λ c. c;
  command = commanded;
  scalar = λ text (done, saved). (ok null, (suc done, saved));
}

abbrev restored : Bool → ℕ × Option ℕ → Option ℕ
restored true c = c.1
restored false c = none

it_rolls_back : RollsBack explain_server
it_rolls_back = record {
  Own = ℕ;
  own = λ c. c.0;
  restores = restored;
  own-asks = λ c i h. refl;
  inside-asks = λ c i h. cc;
  restores-opening = λ c i h f. opened c i h;
  restores-scalar = λ t (d, s) i o e h. explained d s i o h;
  own-closing = λ c i o h f. closed c i o h;
}
  where
    opened :
        (c : ℕ × Option ℕ) (i : Bool)
        → true ≡ i
        → restored i (commanded (opening explain_server i) c).1 ≡ some c.0
    opened (d, s) true h = refl
    opened (d, s) false h = absurd (true≢false h)

    explained :
        (d : ℕ) (s : Option ℕ) (i : Bool) (o : ℕ)
        → restored i (d, s) ≡ some o
        → restored i (suc d, s) ≡ some o
    explained d s true o h = h
    explained d s false o h = h

    closed :
        (c : ℕ × Option ℕ) (i : Bool) (o : ℕ)
        → restored i c ≡ some o
        → (commanded (closing explain_server i) c).1.0 ≡ o
    closed (d, none) true o h = ground arith
    closed (d, some s) true o h = ground arith
    closed (d, s) false o h = ground arith

run-kept_example :
    NotSent explain_server it_rolls_back (4, none)
    ⊎ ((run explain_server (statement (codes "DELETE FROM t") true) (4, none)).1.0 ≡ 4)
    ⊎ (keeps (some (run explain_server (statement (codes "DELETE FROM t") true) (4, none)).0)
        ≡ false)
unfolding it_rolls_back
run-kept_example = run-kept explain_server it_rolls_back (codes "DELETE FROM t") true (4, none)

abbrev odd_name : Text
odd_name = codes "a\"b"

read_identifier-quote_example :
    read_identifier (quote odd_name ++ codes ".c") ≡ some (odd_name, codes ".c")
read_identifier-quote_example = read_identifier-quote odd_name (codes ".c") (λ e. ground arith)

read_literal-literal_example :
    read_literal (literal (some (codes "it's \\")) ++ codes ";") ≡ some (codes "it's \\", codes ";")
read_literal-literal_example =
    read_literal-literal (codes "it's \\") (codes ";") (λ e. ground arith)

abbrev a_view : Relation
a_view = record { relkind = b'm'; persistence = b'p'; populated = false; partition_of = none }
