-- ===== src/Postgres/Transaction/Atomic.antt =====
-- A save happens whole or not at all.
use data_looker.Prelude.{
  All, ◌%◌, ◌^◌, ℕ, suc, ◌≡◌, ◌⊎◌, refl, sym, ap, ◌∙◌, true, List, [], ◌∷◌, arith, inl, inr,
}
use data_looker.Error.{Result, ok, err, Result-cases}
use data_looker.Drivers.{
  TableShape, DriverError, SqlError, sql, TransactionState, idle, open_transaction, failed,
}
use data_looker.Text.{Text}
use data_looker.Postgres.Edit.{Statement, Edits, plan}
use data_looker.Postgres.Edit.Planned.{plan-IsEdit}
use data_looker.Postgres.Server.{Server, IsEdit, Transactional}
use data_looker.Postgres.Transaction.{
  state, run_statements, finish_save, begin_save, apply, in_the_editor,
}

module _ (server : Server) where
  open server use {Conn}

  apply-cases :
      (plan : List Statement) (c : Conn)
      → (((state server c).0 ≡ ok idle)
          × (apply server plan c ≡ begin_save server plan (state server c).1))
        ⊎ ((e : DriverError) × (apply server plan c ≡ (err e, (state server c).1)))
  unfolding apply
  apply-cases plan c = of_state (state server c).0 refl
    where
      of_state :
          (r : Result TransactionState SqlError)
          → (state server c).0 ≡ r
          → (((state server c).0 ≡ ok idle)
              × (apply server plan c ≡ begin_save server plan (state server c).1))
            ⊎ ((e : DriverError) × (apply server plan c ≡ (err e, (state server c).1)))
      of_state (ok idle) p = inl (p, ground arith)
      of_state (ok open_transaction) p = inr (in_the_editor, ground arith)
      of_state (ok failed) p = inr (in_the_editor, ground arith)
      of_state (err x) p = inr (sql x, ground arith)

module _ (server : Server) (laws : Transactional server) where
  open server use {Conn, kept, inside, asks, begin, execute, commit, dropped}

  run-kept :
      (ss : List Statement) (n : ℕ) (c : Conn)
      → All IsEdit ss
      → inside c ≡ true
      → (kept (run_statements server ss n c).1 ≡ kept c)
        × (inside (run_statements server ss n c).1 ≡ true)
  unfolding run_statements
  run-kept [] n c e h = (refl, h)
  run-kept (s ∷ ss) n c (e, es) h = ground (
    arith,
    laws.kept-execute s c e h,
    laws.inside-execute s c e h,
    run-kept ss (suc n % 2 ^ 32) (execute s c).1 es,
  )

  -- `COMMIT` was sent and failed, and this is the connection after it.
  abbrev pub CommitFailed : Conn → Type 0
  CommitFailed c = (d : Conn) × (e : SqlError) × ((commit d).0 ≡ err e) × ((commit d).1 ≡ c)

  finish-kept :
      (r : Result ℕ DriverError) (c : Conn) (e : DriverError)
      → inside c ≡ true
      → (finish_save server (r, c)).0 ≡ err e
      → (kept (finish_save server (r, c)).1 ≡ kept c) ⊎ CommitFailed (finish_save server (r, c)).1
  unfolding finish_save
  finish-kept (err x) c e h k = inl (laws.kept-dropped c h)
  finish-kept (ok n) c e h k = elim (Result-cases (commit c).0) [
    | inl (u, p) ↦ ground arith
    | inr (x, p) ↦ inr (c, x, p, ground arith)
  ]

  begin-kept :
      (plan : List Statement) (c : Conn) (e : DriverError)
      → All IsEdit plan
      → (begin_save server plan c).0 ≡ err e
      → (kept (begin_save server plan c).1 ≡ kept c) ⊎ CommitFailed (begin_save server plan c).1
  unfolding begin_save
  begin-kept plan c e edits k = elim (Result-cases (begin c).0) [
    | inl (u, p) ↦
        let c' = (begin c).1 in
        let began = laws.inside-begin c p in
        let (same, within) = run-kept plan 0 c' edits began in
        let ran = run_statements server plan 0 c' in
        elim (finish-kept ran.0 ran.1 e within (ground arith)) [
          | inl q ↦ inl (ground (arith, laws.kept-begin c))
          | inr (d, x, f, g) ↦ inr (d, x, f, ground arith)
        ]
    | inr (x, p) ↦ inl (ground (arith, laws.kept-begin c))
  ]

  state-kept : (c : Conn) → kept (state server c).1 ≡ kept c
  unfolding state
  state-kept c = laws.kept-asks c

  apply-kept :
      (plan : List Statement) (c : Conn) (e : DriverError)
      → All IsEdit plan
      → (apply server plan c).0 ≡ err e
      → (kept (apply server plan c).1 ≡ kept c) ⊎ CommitFailed (apply server plan c).1
  apply-kept plan c e edits k = elim (apply-cases server plan c) [
    | inl (p, q) ↦
        let c' = (state server c).1 in
        elim (begin-kept plan c' e edits
          (ap (λ (r : Result ℕ DriverError × Conn). r.0) (sym q) ∙ k)) [
            | inl same ↦ inl (rw q (same ∙ state-kept c))
            | inr fails ↦ inr (rw q fails)
          ]
    | inr (x, q) ↦ inl (rw q (state-kept c))
  ]

  -- A save of planned edits that fails has kept nothing of what it did, unless it was `COMMIT` itself
  -- that failed: whatever the edits, the reason, and however many statements had run. The server
  -- keeps nothing of a transaction that is dropped, and an edit does not end the one that it is in.
  pub apply-atomic :
      (shape : TableShape) (schema table : Text) (edits : Edits) (statements : List Statement)
      (c : Conn) (e : DriverError)
      → plan shape schema table edits ≡ ok statements
      → (apply server statements c).0 ≡ err e
      → (kept (apply server statements c).1 ≡ kept c) ⊎ CommitFailed (apply server statements c).1
  apply-atomic shape schema table edits statements c e planned k =
      apply-kept statements c e (plan-IsEdit shape schema table edits statements planned) k

module _ (server : Server) where
  open server use {Conn, asks, begin, execute, commit}

  -- Each statement in turn affects one row.
  abbrev pub EachOneRow : List Statement → Conn → Type 0
  EachOneRow [] c = Unit
  EachOneRow (s ∷ ss) c = ((execute s c).0 ≡ ok 1) × EachOneRow ss (execute s c).1
