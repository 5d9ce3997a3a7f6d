-- ===== src/Secrets.antt =====
-- `Bundled` of src-tauri/src/secrets.rs: every secret in one item of the keychain, read once. The
-- keychain's items and `serde_json` are parameters.
mod Coherent
mod Stored
mod Tests
use data_looker.Prelude.{
  ◌≡◌, Bool, true, false, Option, none, some, List, [], ◌∷◌, ◌++◌, if◌then◌else◌,
}
use data_looker.Text.{Text, codes}
use data_looker.Map.{Map, text_is_eq, get, insert, remove, is_some}
use data_looker.Error.{AppError, secret, Result, ok, err}

abbrev pub bundle : Text
bundle = codes "secrets"

abbrev pub Secrets : Type 0
Secrets = Map Text Text

-- `trait Items` with `serde_json` on a map of secrets.
pub record Items : Type 1 where
  pub State : Type 0
  pub read_item : Text → State → Result (Option Text) AppError
  pub write_item : Text → Text → State → Result (Unit {0}) AppError × State
  pub remove_item : Text → State → Result (Unit {0}) AppError × State
  pub to_json : Secrets → Result Text Text
  pub from_json : Text → Result Secrets Text

pub record Bundled (State : Type 0) : Type 0 where
  pub items : State
  pub read : Option Secrets

module _ (keychain : Items) where
  open keychain use {State, read_item, write_item, remove_item, to_json, from_json}

  abbrev pub Answer : Type 0 → Type 0
  Answer A = Result A AppError × Bundled State

  unfoldable pub parsed : Option Text → Result Secrets AppError
  parsed none = ok []
  parsed (some json) = elim (from_json json) [
    | ok m ↦ ok m
    | err e ↦ err (secret (codes "the stored secrets cannot be read: " ++ e))
  ]

  -- What `with` gives to its `act`.
  unfoldable pub loaded : Bundled State → Answer Secrets
  unfolding parsed
  loaded b = elim b.read [
    | some m ↦ (ok m, b)
    | none ↦ elim (read_item bundle b.items) [
      | err e ↦ (err e, b)
      | ok json ↦ elim (parsed json) [
        | err e ↦ (err e, b)
        | ok m ↦ (ok m, record b { read = some m })
      ]
    ]
  ]

  -- `change`, which is given the changed secrets.
  unfoldable pub change : Secrets → Bundled State → Answer (Unit {0})
  change changed b = elim (to_json changed) [
    | err e ↦ (err (secret (codes "the secrets cannot be written: " ++ e)), b)
    | ok json ↦
        let (written, items') = write_item bundle json b.items in
        elim written [
          | err e ↦ (err e, record b { items = items' })
          | ok u ↦ (ok tt, record { items = items'; read = some changed })
        ]
  ]

  unfoldable pub move_in : Secrets → Text → Text → Bundled State → Answer (Option Text)
  unfolding change
  move_in m id text b =
      let (changed, b') = change (insert m id text) b in
      elim changed [
        | err e ↦ (err e, b')
        | ok u ↦ (ok (some text), record b' { items = (remove_item id b'.items).1 })
      ]

  unfoldable pub get_in : Secrets → Text → Bundled State → Answer (Option Text)
  unfolding move_in
  get_in m id b = elim (get m id) [
    | some text ↦ (ok (some text), b)
    | none ↦ elim (read_item id b.items) [
      | err e ↦ (err e, b)
      | ok none ↦ (ok none, b)
      | ok (some text) ↦ move_in m id text b
    ]
  ]

  unfoldable pub get_secret : Text → Bundled State → Answer (Option Text)
  unfolding loaded get_in
  get_secret id b = let (m, b') = loaded b in elim m [ err e ↦ (err e, b') | ok m ↦ get_in m id b' ]

  unfoldable pub set_secret : Text → Text → Bundled State → Answer (Unit {0})
  unfolding loaded change
  set_secret id text b =
      let (m, b') = loaded b in elim m [ err e ↦ (err e, b') | ok m ↦ change (insert m id text) b' ]

  unfoldable pub remove_own : Text → Bundled State → Answer (Unit {0})
  remove_own id b = let (r, items') = remove_item id b.items in (r, record b { items = items' })

  unfoldable pub delete_in : Secrets → Text → Bundled State → Answer (Unit {0})
  unfolding change remove_own
  delete_in m id b =
      let (changed, b') = change (remove m id) b in
      if is_some (get m id)
      then (elim changed [ err e ↦ (err e, b') | ok u ↦ remove_own id b' ])
      else remove_own id b

  unfoldable pub delete_secret : Text → Bundled State → Answer (Unit {0})
  unfolding loaded delete_in
  delete_secret id b =
      let (m, b') = loaded b in elim m [ err e ↦ (err e, b') | ok m ↦ delete_in m id b' ]
