-- ===== src/Secrets/Tests.antt =====
-- A keychain of one secret, whose items are a map, and a JSON of one shape.
use data_looker.Prelude.{◌≡◌, refl, none, some, [], ◌∷◌, arith, ap, if◌then◌else◌}
use data_looker.Text.{Text, codes, text_eq, text_eq_iff}
use data_looker.Error.{Result, ok, err}
use data_looker.Map.{Map, get, insert, remove, insert-hit, get-remove, text_is_eq}
use data_looker.Secrets.{
  Items, Bundled, loaded, parsed, change, get_secret, set_secret, delete_secret,
}
use data_looker.Secrets.Coherent.{Keeps, IsCoherent, secrets-IsCoherent}
use data_looker.Secrets.Stored.{set_secret-get_secret}

-- `serde_json` for the one map that is written here.
abbrev one_secret : Map Text Text
one_secret = (codes "id", codes "hunter2") ∷ []

abbrev to_one : Map Text Text → Result Text Text
to_one ((k, v) ∷ []) =
    if text_eq k (codes "id")
    then (if text_eq v (codes "hunter2") then ok (codes "{}") else err [])
    else err []
to_one _ = err []

of_one :
    (m : Map Text Text) (j : Text)
    → to_one m ≡ ok j
    → (m' : Map Text Text) × (◌≡◌ {A = Result (Map Text Text) Text} (ok one_secret) (ok m'))
      × ((id : Text) → get m' id ≡ get m id)
of_one [] j h = ground arith
of_one ((k, v) ∷ p ∷ ps) j h = ground arith
of_one ((k, v) ∷ []) j h =
    let q : (one_secret ≡ (k, v) ∷ []) =
      ground (arith, text_eq_iff k (codes "id"), text_eq_iff v (codes "hunter2")) in
    (one_secret, refl, λ id. ap (λ m. get m id) q)

abbrev a_keychain : Items
a_keychain = record {
  State = Map Text Text;
  read_item = λ n s. ok (get s n);
  write_item = λ n t s. (ok tt, insert s n t);
  remove_item = λ n s. (ok tt, remove s n);
  to_json = to_one;
  from_json = λ j. ok one_secret;
}

it_keeps : Keeps a_keychain
it_keeps = record {
  contents = λ s n. get s n;
  read-contents = λ n s o h. ground arith;
  write-ok = λ n t s h. insert-hit s n t;
  write-err = λ n t s e m h. ground arith;
  remove-other = λ n m s h. ground (arith, get-remove s n m);
  from-to_json = of_one;
}

abbrev unread : Bundled (Map Text Text)
unread = record { items = []; read = none }

secrets-IsCoherent_example :
    IsCoherent a_keychain it_keeps (get_secret a_keychain (codes "id") unread).1
    × IsCoherent a_keychain it_keeps (set_secret a_keychain (codes "id") (codes "hunter2") unread).1
    × IsCoherent a_keychain it_keeps (delete_secret a_keychain (codes "id") unread).1
secrets-IsCoherent_example =
    secrets-IsCoherent a_keychain it_keeps (codes "id") (codes "hunter2") unread refl tt

set_secret-get_secret_example :
    (get_secret a_keychain
      (codes "id")
      (set_secret a_keychain (codes "id") (codes "hunter2") unread).1).0
    ≡ ok (some (codes "hunter2"))
unfolding set_secret loaded parsed change insert remove get
set_secret-get_secret_example =
    set_secret-get_secret a_keychain (codes "id") (codes "hunter2") unread refl
