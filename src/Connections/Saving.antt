-- ===== src/Connections/Saving.antt =====
-- What a connection must give to be saved.
use data_looker.Prelude.{◌≡◌, ◌≢◌, ◌↔◌, true, false, Option, none, some, is_empty, arith, inl, inr}
use data_looker.Text.{Text, trim}
use data_looker.Error.{AppError, ok, err, Result-cases}
use data_looker.Map.{is_some}
use data_looker.Connections.{
  DriverConfig, postgres, bigquery, SaveConnectionInput, filled, validate_secret, validate_config,
  validate, Backend, save,
}

abbrev pub IsFilled : Text → Type 0
IsFilled text = is_empty (trim text) ≡ false

-- A password is given and not empty, or there is a connection that keeps the one it has.
abbrev pub IsSecret : Option Text → Option Text → Type 0
IsSecret (some secret) id = is_empty secret ≡ false
IsSecret none id = is_some id ≡ true

abbrev pub IsComplete : DriverConfig → Option Text → Option Text → Type 0
IsComplete (postgres host port database username) secret id =
    IsSecret secret id × IsFilled host × IsFilled database × IsFilled username × (port ≢ 0)
IsComplete (bigquery project_id location) secret id =
    (secret ≡ none) × IsFilled project_id × IsFilled location

validate_secret-ok_iff :
    (secret id : Option Text) → (validate_secret secret id ≡ ok tt) ↔ IsSecret secret id
unfolding validate_secret
validate_secret-ok_iff (some s) id = ground arith
validate_secret-ok_iff none none = ground arith
validate_secret-ok_iff none (some id) = ground arith

config-ok_iff :
    (config : DriverConfig) (secret id : Option Text)
    → (validate_config config secret id ≡ ok tt) ↔ IsComplete config secret id
unfolding validate_config filled
config-ok_iff (postgres host port database username) secret id =
    ground (arith, validate_secret-ok_iff secret id)
config-ok_iff (bigquery project_id location) none id = ground arith
config-ok_iff (bigquery project_id location) (some s) id = ground arith

-- A connection is accepted exactly when its label, and each field that its driver has, is more than
-- white space, its port is not 0, and its secret is what its driver takes: for PostgreSQL one that is
-- not empty, or none for a connection that is there already, and for BigQuery none.
pub validate-ok_iff :
    (input : SaveConnectionInput)
    → (validate input ≡ ok tt)
      ↔ (IsFilled input.label × IsComplete input.config input.secret input.id)
unfolding validate
validate-ok_iff input = ground (arith, config-ok_iff input.config input.secret input.id)

-- Saving what is not accepted changes neither the rows nor the keychain, and is an error.
pub save-refused :
    (backend : Backend) (input : SaveConnectionInput) (s : backend.Stores)
    → ((IsFilled input.label × IsComplete input.config input.secret input.id) → ⊥)
    → (e : AppError) × (save backend input s ≡ (err e, s))
unfolding save
save-refused backend input s h = elim (Result-cases (validate input)) [
  | inl (u, e) ↦ absurd (h ((validate-ok_iff input).0 e))
  | inr (x, e) ↦ (x, ground arith)
]
