-- ===== src/Connections.antt =====
-- src-tauri/src/app/connections.rs: the order of the connections, what a connection must give, and
-- saving and deleting one. The rows (`connection::` and a transaction of the pool) and the keychain
-- are parameters.
mod Order
mod Saving
mod Tests
use data_looker.Prelude.{
  ℕ, suc, ◌≡◌, Bool, true, false, not, ◌&&◌, Option, none, some, List, [], ◌∷◌, ◌++◌, ◌==◌,
  if◌then◌else◌, any, is_empty,
}
use data_looker.Text.{Text, codes, text_eq, trim}
use data_looker.Map.{is_some}
use data_looker.Error.{AppError, validation, not_found, Result, ok, err, ◌>>=◌, ◌>>◌}

pub data DriverConfig : Type 0 where
  -- host, port, database, username
  postgres : Text → ℕ → Text → Text → DriverConfig
  -- project and location
  bigquery : Text → Text → DriverConfig

pub record SaveConnectionInput : Type 0 where
  pub id : Option Text
  pub label : Text
  pub config : DriverConfig
  pub secret : Option Text
  pub command : Option Text
  pub command_while_selected : Bool
  pub time_zone : Option Text
  pub production : Bool

pub record ConnectionFields : Type 0 where
  pub label : Text
  pub config : DriverConfig
  pub command : Option Text
  pub command_while_selected : Bool
  pub time_zone : Option Text
  pub production : Bool

unfoldable pub contains : List Text → Text → Bool
contains [] id = false
contains (s ∷ ss) id = let rest = contains ss id in if text_eq s id then true else rest

-- The loop of `arranged` over the ids still to place, `order` being those placed.
unfoldable pub place : List Text → List Text → List Text → List Text
unfolding contains
place stored [] order = order
place stored (id ∷ ids) order =
    let pushed = place stored ids (order ++ id ∷ []) in
    let as_it_was = place stored ids order in
    if contains stored id && not (contains order id) then pushed else as_it_was

unfoldable pub arranged : List Text → List Text → List Text
unfolding place
arranged stored asked = place stored (asked ++ stored) []

unfoldable pub given : Option Text → Option Text
given none = none
given (some text) = let trimmed = trim text in if is_empty trimmed then none else some trimmed

unfoldable pub filled : List (Text × Text) → Result (Unit {0}) AppError
filled [] = ok tt
filled ((field, value) ∷ fields) =
    let rest = filled fields in
    if is_empty (trim value) then err (validation (field ++ codes " is required")) else rest

-- The test of the password of a PostgreSQL connection.
unfoldable pub validate_secret : Option Text → Option Text → Result (Unit {0}) AppError
validate_secret (some secret) id =
    if is_empty secret then err (validation (codes "password must not be empty")) else ok tt
validate_secret none none = err (validation (codes "password is required"))
validate_secret none (some id) = ok tt

unfoldable pub validate_config :
    DriverConfig → Option Text → Option Text → Result (Unit {0}) AppError
unfolding filled validate_secret
validate_config (postgres host port database username) secret id =
    validate_secret secret id
    >> filled
        ((codes "host", host) ∷ (codes "database", database) ∷ (codes "username", username) ∷ [])
    >> (if port == 0 then err (validation (codes "port is required")) else ok tt)
validate_config (bigquery project_id location) secret id =
    (if is_some secret
      then err (validation (codes "a BigQuery connection takes no secret"))
      else ok tt)
    >> filled ((codes "project", project_id) ∷ (codes "location", location) ∷ [])

unfoldable pub validate : SaveConnectionInput → Result (Unit {0}) AppError
unfolding validate_config
validate input =
    let rest = validate_config input.config input.secret input.id in
    if is_empty (trim input.label) then err (validation (codes "label is required")) else rest

-- The rows and the keychain, whose state is `Stores`.
pub record Backend : Type 1 where
  pub Stores : Type 0
  pub find_by_id : Text → Stores → Result (Option DriverConfig) AppError × Stores
  pub begin : Stores → Result (Unit {0}) AppError × Stores
  pub update : Text → ConnectionFields → Stores → Result Bool AppError × Stores
  pub insert : Text → ConnectionFields → Stores → Result (Unit {0}) AppError × Stores
  pub delete_row : Text → Stores → Result (Unit {0}) AppError × Stores
  pub commit : Stores → Result (Unit {0}) AppError × Stores
  -- Leaving a transaction that was not committed.
  pub dropped : Stores → Stores
  pub secrets_set : Text → Text → Stores → Result (Unit {0}) AppError × Stores
  pub secrets_delete : Text → Stores → Result (Unit {0}) AppError × Stores
  -- `uuid::Uuid::new_v4`
  pub new_id : Stores → Text

-- `?` on a call: an error is answered with the stores as the call left them.
infixl 5 ◌>>?◌
abbrev pub ◌>>?◌ :
    {S A B : Type 0}
    → (S → Result A AppError × S)
    → (A → S → Result B AppError × S)
    → S
    → Result B AppError × S
(m >>? f) s = let (r, s') = m s in elim r [ ok a ↦ f a s' | err e ↦ (err e, s') ]

-- A connection whose row is of BigQuery's.
abbrev pub is_bigquery : Option DriverConfig → Bool
is_bigquery (some (bigquery p l)) = true
is_bigquery _ = false

module _ (backend : Backend) where
  open backend use {
    Stores, find_by_id, begin, update, insert, delete_row, commit, dropped, secrets_set,
    secrets_delete, new_id,
  }

  -- The rest of a call that began a transaction: an early return drops it.
  unfoldable pub in_transaction :
      {A : Type 0} → (Stores → Result A AppError × Stores) → Stores → Result A AppError × Stores
  in_transaction work s =
      let (r, s') = work s in
      elim r [ err e ↦ (err e, dropped s') | ok a ↦ (commit >>? λ u s2. (ok a, s2)) s' ]

  unfoldable pub delete : Text → Stores → Result (Unit {0}) AppError × Stores
  unfolding in_transaction
  delete id = begin >>? λ u. in_transaction (delete_row id >>? λ v. secrets_delete id)

  -- A PostgreSQL connection that is saved without a password may not have been BigQuery's.
  unfoldable pub kept_password :
      DriverConfig → Option Text → Option Text → Stores → Result (Unit {0}) AppError × Stores
  kept_password (postgres h p d u) none (some id) = find_by_id id >>? λ was s.
      if is_bigquery was then (err (validation (codes "password is required")), s) else (ok tt, s)
  kept_password _ _ _ = λ s. (ok tt, s)

  unfoldable pub save_row : Option Text → ConnectionFields → Stores → Result Text AppError × Stores
  save_row (some id) fields s =
      (update id fields >>? λ found s'. if found then (ok id, s') else (err (not_found id), s')) s
  save_row none fields s = let id = new_id s in (insert id fields >>? λ u s'. (ok id, s')) s

  unfoldable pub save_secret : SaveConnectionInput → Text → Stores → Result Text AppError × Stores
  save_secret input id s = elim input.config [
    | bigquery p l ↦
        (if is_some input.id
          then (secrets_delete id >>? λ u s'. (ok id, s')) s
          else elim input.secret [
            | none ↦ (ok id, s)
            | some secret ↦ (secrets_set id secret >>? λ u s'. (ok id, s')) s
          ])
    | postgres h p d u ↦ elim input.secret [
      | none ↦ (ok id, s)
      | some secret ↦ (secrets_set id secret >>? λ u s'. (ok id, s')) s
    ]
  ]

  unfoldable pub fields_of : SaveConnectionInput → ConnectionFields
  unfolding given
  fields_of input = record {
    label = trim input.label;
    config = input.config;
    command = given input.command;
    command_while_selected = input.command_while_selected;
    time_zone = given input.time_zone;
    production = input.production;
  }

  unfoldable pub save : SaveConnectionInput → Stores → Result Text AppError × Stores
  unfolding validate fields_of kept_password save_row save_secret in_transaction
  save input s =
      let work = kept_password input.config input.secret input.id >>? λ u. begin >>? λ v.
      in_transaction (save_row input.id (fields_of input) >>? λ id. save_secret input id) in
      let saved = work s in elim (validate input) [ err e ↦ (err e, s) | ok u ↦ saved ]
