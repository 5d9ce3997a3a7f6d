-- ===== src/Secrets/Stored.antt =====
-- What was stored is what is read.
use data_looker.Prelude.{◌≡◌, inl, inr, some, arith, subst}
use data_looker.Text.{Text}
use data_looker.Map.{text_is_eq, get, insert, insert-hit}
use data_looker.Error.{AppError, Result, ok, Result-cases}
use data_looker.Secrets.{
  bundle, Secrets, Items, Bundled, loaded, change, get_in, get_secret, set_secret,
}

module _ (keychain : Items) where
  open keychain use {State, write_item, to_json}

  change-ok :
      (m : Secrets) (b : Bundled State)
      → (change keychain m b).0 ≡ ok tt
      → (change keychain m b).1.read ≡ some m
  unfolding change
  change-ok m b h = elim (Result-cases (to_json m)) [
    | inl (j, e) ↦ elim (Result-cases (write_item bundle j b.items).0) [
      | inl (u, f) ↦ ground arith
      | inr (x, f) ↦ ground arith
    ]
    | inr (x, e) ↦ ground arith
  ]

  get_secret-read :
      (id text : Text) (m : Secrets) (b : Bundled State)
      → b.read ≡ some m
      → get m id ≡ some text
      → (get_secret keychain id b).0 ≡ ok (some text)
  unfolding get_secret get_in loaded
  get_secret-read id text m b e f = ground arith

  -- A secret that was stored is the one that is answered next.
  pub set_secret-get_secret :
      (id text : Text) (b : Bundled State)
      → (set_secret keychain id text b).0 ≡ ok tt
      → (get_secret keychain id (set_secret keychain id text b).1).0 ≡ ok (some text)
  unfolding set_secret
  set_secret-get_secret id text b h = elim (Result-cases (loaded keychain b).0) [
    | inl (m, e) ↦
        let b' = (loaded keychain b).1 in
        let q : (set_secret keychain id text b ≡ change keychain (insert m id text) b') =
          ground arith in
        rw q (
          get_secret-read id text (insert m id text) (change keychain (insert m id text) b').1
            (change-ok (insert m id text) b'
              (subst (λ (r : Result (Unit {0}) AppError × Bundled State). r.0 ≡ ok tt) q h))
            (insert-hit m id text))
    | inr (x, e) ↦ ground arith
  ]
