-- ===== src/Postgres/Server.antt =====
-- A connection to a PostgreSQL server, as `sqlx` gives it: an interface that transaction.rs, edit.rs
-- and explain.rs are written against. Nothing of the server or of `sqlx` is modelled but what is
-- documented of transactions, which the laws say.
use data_looker.Prelude.{ℕ, ◌≡◌, Bool, true, ◌++◌}
use data_looker.Text.{Text, codes}
use data_looker.Error.{Result, ok}
use data_looker.Json.{Value}
use data_looker.Drivers.{SqlError}
use data_looker.Postgres.Edit.{Statement}

-- What a call answers, and the connection after it.
abbrev pub Call : Type 0 → Type 0 → Type 0
Call Conn A = Conn → Result A SqlError × Conn

pub record Server : Type 1 where
  pub Conn : Type 0
  pub Kept : Type 0
  -- What the database has kept: what a transaction in progress has done is not in it.
  pub kept : Conn → Kept
  pub inside : Conn → Bool
  -- `SELECT now() <> statement_timestamp()`
  pub asks : Call Conn Bool
  pub begin : Call Conn (Unit {0})
  -- How many rows a statement with its values affected.
  pub execute : Statement → Call Conn ℕ
  pub commit : Call Conn (Unit {0})
  -- What dropping a transaction that was not committed does.
  pub dropped : Conn → Conn
  -- A text of commands with no answer to read, and a query for one value.
  pub command : Text → Call Conn (Unit {0})
  pub scalar : Text → Call Conn Value

-- An `INSERT`, an `UPDATE` or a `DELETE`, by what it begins with. `sqlx` prepares what `execute` is
-- given, and PostgreSQL prepares one statement only, so nothing else runs with it.
pub data IsEdit : Statement → Type 0 where
  inserts : (q : Statement) (rest : Text) → q.sql ≡ codes "INSERT INTO " ++ rest → IsEdit q
  updates : (q : Statement) (rest : Text) → q.sql ≡ codes "UPDATE " ++ rest → IsEdit q
  deletes : (q : Statement) (rest : Text) → q.sql ≡ codes "DELETE FROM " ++ rest → IsEdit q

-- What PostgreSQL and `sqlx` document of transactions: an edit inside one leaves it open, though it
-- may fail, and what is kept as it was.
pub record Transactional (s : Server) : Type 0 where
  pub kept-asks : (c : s.Conn) → s.kept (s.asks c).1 ≡ s.kept c
  pub kept-begin : (c : s.Conn) → s.kept (s.begin c).1 ≡ s.kept c
  pub inside-begin : (c : s.Conn) → (s.begin c).0 ≡ ok tt → s.inside (s.begin c).1 ≡ true
  pub kept-execute :
      (q : Statement) (c : s.Conn)
      → IsEdit q
      → s.inside c ≡ true
      → s.kept (s.execute q c).1 ≡ s.kept c
  pub inside-execute :
      (q : Statement) (c : s.Conn)
      → IsEdit q
      → s.inside c ≡ true
      → s.inside (s.execute q c).1 ≡ true
  pub kept-dropped : (c : s.Conn) → s.inside c ≡ true → s.kept (s.dropped c) ≡ s.kept c
