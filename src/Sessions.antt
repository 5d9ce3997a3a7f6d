-- ===== src/Sessions.antt =====
-- `SessionRegistry` of src-tauri/src/drivers/session.rs: the open session per connection and caller.
-- `get` is two critical sections with an opening between them; each is an operation here, so that
-- what other callers do in between is a list of operations. `sqlx` and the keychain are parameters.
mod Closing
mod Tests
use data_looker.Prelude.{
  ℕ, suc, ◌+◌, ◌≡◌, Bool, true, false, not, ◌&&◌, Option, none, some, List, [], ◌∷◌, ◌++◌, ◌==◌,
  if◌then◌else◌, ◌⊎◌, inl, inr, refl, arith, ◌↔◌,
}
use data_looker.Text.{Text, codes, text_eq, text_eq_iff}
use data_looker.Map.{Map, Eq, text_is_eq, get, insert, remove, retain, or_default}
use data_looker.Error.{AppError, not_found, secret, Result, ok, err, ok_or, ◌>>=◌}
use data_looker.Connections.{DriverConfig, postgres, bigquery}

pub data Whose : Type 0 where
  reader agent : Whose

abbrev pub whose_eq : Whose → Whose → Bool
whose_eq reader reader = true
whose_eq agent agent = true
whose_eq _ _ = false

pub whose_eq_iff : (a b : Whose) → (whose_eq a b ≡ true) ↔ (a ≡ b)
whose_eq_iff reader reader = ground arith
whose_eq_iff agent agent = ground arith
whose_eq_iff reader agent = ground arith
whose_eq_iff agent reader = ground arith

abbrev pub key_eq : Text × Whose → Text × Whose → Bool
key_eq (s, a) (t, b) = text_eq s t && whose_eq a b

pub key_eq_iff : (k l : Text × Whose) → (key_eq k l ≡ true) ↔ (k ≡ l)
key_eq_iff (s, a) (t, b) = ground (arith, text_eq_iff s t, whose_eq_iff a b)

instance abbrev pub key_is_eq : Eq (Text × Whose)
key_is_eq = record { beq = key_eq; beq_iff = key_eq_iff }

-- A session, by what it was opened with.
pub data Session : Type 0 where
  postgres_session : Text → ℕ → Text → Text → Text → Bool → Session
  bigquery_session : Text → Text → Session

pub record Registry : Type 0 where
  pub open_sessions : Map (Text × Whose) Session
  pub closed : Map Text ℕ

unfoldable pub closes : Registry → Text → ℕ
closes r id = or_default (get r.closed id)

module _ (find_by_id : Text → Result (Option DriverConfig) AppError)
    (secrets_get : Text → Result (Option Text) AppError) where
  unfoldable pub open_session : Text → Whose → Result Session AppError
  open_session id whose = find_by_id id >>= λ row. ok_or row (not_found id) >>= λ config.
      elim config [
        | postgres host port database username ↦
            (secrets_get id >>= λ kept.
            ok_or kept (secret (codes "no password stored for " ++ id)) >>= λ password.
            ok (postgres_session host port database username password (whose_eq whose agent)))
        | bigquery project_id location ↦ ok (bigquery_session project_id location)
      ]

-- The first critical section of `get`: the session that is open, or how often the connection has
-- been closed.
unfoldable pub look : Registry → Text → Whose → Session ⊎ ℕ
unfolding closes
look r id whose = elim (get r.open_sessions (id, whose)) [
  | some s ↦ inl s
  | none ↦ inr (closes r id)
]

-- The second: none is `continue`, which looks again.
unfoldable pub land : Registry → Text → Whose → ℕ → Session → Option Session × Registry
unfolding closes
land r id whose seen s =
    if closes r id == seen
    then (elim (get r.open_sessions (id, whose)) [
      | some first ↦ (some first, r)
      | none ↦ (some s, record r { open_sessions = insert r.open_sessions (id, whose) s })
    ])
    else (none, r)

unfoldable pub peek : Registry → Text → Whose → Option Session
peek r id whose = get r.open_sessions (id, whose)

unfoldable pub drop_one : Registry → Text → Whose → Registry
drop_one r id whose = record r { open_sessions = remove r.open_sessions (id, whose) }

unfoldable pub close : Registry → Text → Registry
unfolding closes
close r id = record {
  open_sessions = retain (λ (k : Text × Whose). not (text_eq k.0 id)) r.open_sessions;
  closed = insert r.closed id (suc (closes r id));
}

-- What a caller does to the registry in one critical section.
pub data Operation : Type 0 where
  lands : Text → Whose → ℕ → Session → Operation
  drops : Text → Whose → Operation
  closing : Text → Operation

unfoldable pub step : Registry → Operation → Registry
unfolding land drop_one close
step r (lands id whose seen s) = (land r id whose seen s).1
step r (drops id whose) = drop_one r id whose
step r (closing id) = close r id

unfoldable pub steps : Registry → List Operation → Registry
unfolding step
steps r [] = r
steps r (o ∷ os) = steps (step r o) os
