-- ===== src/Postgres/Explain/Kept.antt =====
-- What an `EXPLAIN` does is thrown away.
use data_looker.Prelude.{
  if◌then◌else◌, ◌≡◌, ◌⊎◌, inl, inr, refl, ◌∙◌, ◌++◌, drop, Bool, true, false, Option, some, arith,
}
use data_looker.Text.{Text, codes}
use data_looker.Error.{ok, err, Result-cases}
use data_looker.Drivers.{SqlError}
use data_looker.Postgres.Server.{Server}
use data_looker.Postgres.Session.{keeps}
use data_looker.Postgres.Explain.{statement, opening, closing, ended, query, begin_query, run}

-- An `EXPLAIN` with options.
abbrev pub IsExplain : Text → Type 0
IsExplain text = (rest : Text) × (text ≡ codes "EXPLAIN (" ++ rest)

-- The commands that PostgreSQL documents: inside of a transaction those of a savepoint, outside of
-- any those of a transaction that may only read.
abbrev pub set_out : Bool → Text
set_out inside =
    if inside
    then codes "SAVEPOINT datalooker_explain; SET LOCAL transaction_read_only = on"
    else codes "BEGIN READ ONLY"

abbrev pub set_back : Bool → Text
set_back inside =
    if inside
    then codes "ROLLBACK TO SAVEPOINT datalooker_explain; RELEASE SAVEPOINT datalooker_explain"
    else codes "ROLLBACK"

-- What PostgreSQL documents of rolling back. `own` is what the reader's transaction has done.
-- `restores` is what an ending would bring that back to: `ROLLBACK`, of a transaction that was
-- begun outside of any, and going back to the savepoint, of one that was set inside of one; there is
-- none where no such opening was carried out.
pub record RollsBack (s : Server) : Type 1 where
  pub Own : Type 0
  pub own : s.Conn → Own
  pub restores : Bool → s.Conn → Option Own
  pub own-asks : (c : s.Conn) (i : Bool) → (s.asks c).0 ≡ ok i → own (s.asks c).1 ≡ own c
  pub inside-asks : (c : s.Conn) (i : Bool) → (s.asks c).0 ≡ ok i → s.inside (s.asks c).1 ≡ i
  pub restores-opening :
      (c : s.Conn) (i : Bool)
      → s.inside c ≡ i
      → (s.command (set_out i) c).0 ≡ ok tt
      → restores i (s.command (set_out i) c).1 ≡ some (own c)
  -- An `EXPLAIN`, which is prepared and so runs alone, ends no transaction and no savepoint.
  pub restores-scalar :
      (t : Text) (c : s.Conn) (i : Bool) (o : Own)
      → IsExplain t
      → restores i c ≡ some o
      → restores i (s.scalar t c).1 ≡ some o
  pub own-closing :
      (c : s.Conn) (i : Bool) (o : Own)
      → restores i c ≡ some o
      → (s.command (set_back i) c).0 ≡ ok tt
      → own (s.command (set_back i) c).1 ≡ o

module _ (server : Server) (laws : RollsBack server) where
  open server use {Conn, asks, command, scalar}

  query-kept :
      (i : Bool) (text : Text) (c : Conn) (o : laws.Own)
      → IsExplain text
      → laws.restores i c ≡ some o
      → (laws.own (query server i text c).1 ≡ o) ⊎ (keeps (some (query server i text c).0) ≡ false)
  unfolding query ended keeps
  query-kept i text c o explains h =
      let held = laws.restores-scalar text c i o explains h in
      elim (Result-cases (command (closing server i) (scalar text c).1).0) [
        | inl (u, e) ↦ inl (laws.own-closing (scalar text c).1 i o held e)
        | inr (x, e) ↦ elim (Result-cases (scalar text c).0) [
          | inl (v, f) ↦ inr (rw f (rw e refl))
          | inr (y, f) ↦ inr (rw f (rw e refl))
        ]
      ]

  -- Nothing was asked of the server but where it stands and an opening, and one of these failed.
  abbrev pub NotSent : Conn → Type 0
  NotSent c =
      (e : SqlError) × (((asks c).0 ≡ err e)
        ⊎ ((i : Bool) × ((asks c).0 ≡ ok i) × ((command (opening server i) (asks c).1).0 ≡ err e)))

  run-query :
      (text : Text) (c : Conn) (i : Bool)
      → (asks c).0 ≡ ok i
      → (command (opening server i) (asks c).1).0 ≡ ok tt
      → run server text c ≡ query server i text (command (opening server i) (asks c).1).1
  unfolding run begin_query
  run-query text c i e f = ground arith

  run-own :
      (text : Text) (c : Conn)
      → IsExplain text
      → NotSent c
        ⊎ (laws.own (run server text c).1 ≡ laws.own c)
        ⊎ (keeps (some (run server text c).0) ≡ false)
  run-own text c explains = elim (Result-cases (asks c).0) [
    | inl (i, e) ↦ elim (Result-cases (command (opening server i) (asks c).1).0) [
      | inl (u, f) ↦
          let opened = (command (opening server i) (asks c).1).1 in
          let held = laws.restores-opening (asks c).1 i (laws.inside-asks c i e) f in
          elim (query-kept i text opened (laws.own (asks c).1) explains held) [
            | inl same ↦ inr (inl (rw (run-query text c i e f) (same ∙ laws.own-asks c i e)))
            | inr gone ↦ inr (inr (rw (run-query text c i e f) gone))
          ]
      | inr (x, f) ↦ inl (x, inr (i, e, f))
    ]
    | inr (x, e) ↦ inl (x, inl e)
  ]

  -- Whether a transaction is open or not, whether the statement is carried out or only planned, and
  -- whatever fails, after its `EXPLAIN` the reader's own transaction has done what it had done
  -- before, or the answer is an error for which the session drops the connection, or nothing was
  -- sent but the question where the connection stands and an opening, one of which failed. The
  -- server rolls back what it is told to, of an opening that was carried out.
  pub run-kept :
      (text : Text) (analyze : Bool) (c : Conn)
      → NotSent c
        ⊎ (laws.own (run server (statement text analyze) c).1 ≡ laws.own c)
        ⊎ (keeps (some (run server (statement text analyze) c).0) ≡ false)
  unfolding statement
  run-kept text analyze c =
      run-own (statement text analyze) c (drop 9 (statement text analyze), explained analyze)
    where
      explained : (a : Bool) → statement text a ≡ codes "EXPLAIN (" ++ drop 9 (statement text a)
      explained true = refl
      explained false = refl
