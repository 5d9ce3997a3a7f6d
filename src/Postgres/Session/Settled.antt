-- ===== src/Postgres/Session/Settled.antt =====
-- What the reader is told of their transaction is true of the connection that is held.
use data_looker.Prelude.{
  ◌≡◌, ◌⊎◌, inl, inr, refl, Bool, true, false, Option, none, some, if◌then◌else◌, arith,
}
use data_looker.Error.{AppError, Result, ok, err, Result-cases}
use data_looker.Drivers.{TransactionState, idle, SqlError}
use data_looker.Postgres.Server.{Server}
use data_looker.Postgres.Transaction.{state}
use data_looker.Postgres.Session.{Outcome, keeps, Slot, stands, settle, with_conn, run_on}

module _ (server : Server) where
  open server use {Conn}

  -- What the slot says: no connection and no transaction, or a connection that was just asked and
  -- said where it stands.
  abbrev pub IsSettled : Slot Conn → Type 0
  IsSettled slot =
      ((slot.held ≡ none) × (slot.transaction ≡ idle))
      ⊎ ((c : Conn) × ((state server c).0 ≡ ok slot.transaction)
          × (slot.held ≡ some (state server c).1))

  stands-some :
      (t : Bool) (r : Result TransactionState SqlError) (s : TransactionState)
      → stands server t r ≡ some s
      → r ≡ ok s
  unfolding stands
  stands-some true r s h = ground arith
  stands-some false (err e) s h = ground arith
  stands-some false (ok x) s h = cc

  settle-IsSettled :
      (times_out : Conn → Bool) (held : Option Conn) (was : TransactionState)
      → IsSettled (settle server true times_out held was)
  unfolding settle
  settle-IsSettled times_out none was = inl (refl, refl)
  settle-IsSettled times_out (some c) was =
      of_answer (stands server (times_out c) (state server c).0) refl
    where
      of_answer :
          (o : Option TransactionState)
          → stands server (times_out c) (state server c).0 ≡ o
          → IsSettled (settle server true times_out (some c) was)
      of_answer none e = inl (ground arith, ground arith)
      of_answer (some s) e =
          inr (c, ground (arith, stands-some (times_out c) (state server c).0 s e), ground arith)

  run_on-cases :
      {T : Type 0} (connect : Result Conn AppError) (times_out : Conn → Bool)
      (work : Conn → Outcome T × Conn) (slot : Slot Conn)
      → ((c : Conn) × ((run_on server true false connect times_out work slot).1
            ≡ settle server true times_out
                (if keeps (work c).0 then some (work c).1 else none)
                slot.transaction))
        ⊎ ((x : AppError) × (run_on server true false connect times_out work slot
              ≡ (err x, record { held = none; transaction = slot.transaction }))
            × (slot.held ≡ none))
  unfolding run_on with_conn
  run_on-cases connect times_out work slot = of_held slot.held refl
    where
      of_held :
          (o : Option Conn)
          → slot.held ≡ o
          → ((c : Conn) × ((run_on server true false connect times_out work slot).1
                ≡ settle server true times_out
                    (if keeps (work c).0 then some (work c).1 else none)
                    slot.transaction))
            ⊎ ((x : AppError) × (run_on server true false connect times_out work slot
                  ≡ (err x, record { held = none; transaction = slot.transaction }))
                × (slot.held ≡ none))
      of_held (some c) e = inl (c, rw e refl)
      of_held none e = elim (Result-cases connect) [
        | inl (c, f) ↦ inl (c, rw e (rw f refl))
        | inr (x, f) ↦ inr (x, rw e (rw f refl), e)
      ]

  -- Whatever becomes of a piece of work on the reader's connection (cancelled while it waits or while
  -- it runs, no connection to be had, refused, reported by the server, broken, done), the slot after
  -- it says the truth if it did before: it holds no connection and says that no transaction is open,
  -- or it holds a connection that was asked last of all and says what that answered.
  pub run_on-IsSettled :
      {T : Type 0} (cancelled_first : Bool) (connect : Result Conn AppError)
      (times_out : Conn → Bool) (work : Conn → Outcome T × Conn) (slot : Slot Conn)
      → IsSettled slot
      → IsSettled (run_on server true cancelled_first connect times_out work slot).1
  unfolding run_on
  run_on-IsSettled true connect times_out work slot h = h
  run_on-IsSettled false connect times_out work slot h =
      elim (run_on-cases connect times_out work slot) [
        | inl (c, e) ↦ rw e (
            settle-IsSettled times_out (if keeps (work c).0 then some (work c).1 else none)
              slot.transaction)
        | inr (x, e, n) ↦ rw e (inl (refl, idle-of h n))
      ]
    where
      idle-of : IsSettled slot → slot.held ≡ none → slot.transaction ≡ idle
      idle-of (inl (a, b)) n = b
      idle-of (inr (c, a, b)) n = ground arith
