-- ===== src/Connections/Tests.antt =====
-- Concrete connections.
use data_looker.Prelude.{ℕ, ◌≡◌, ◌↔◌, refl, true, false, none, some, List, [], ◌∷◌, Elem}
use data_looker.Text.{Text, codes}
use data_looker.Error.{ok}
use data_looker.Connections.{postgres, SaveConnectionInput, Backend, arranged, place, contains}
use data_looker.Connections.Order.{arranged-permutes, NoDup}

abbrev stored : List Text
stored = codes "a" ∷ codes "b" ∷ codes "c" ∷ []

abbrev asked : List Text
asked = codes "c" ∷ codes "x" ∷ codes "c" ∷ []

placed : arranged stored asked ≡ codes "c" ∷ codes "a" ∷ codes "b" ∷ []
unfolding arranged place contains
placed = refl

arranged-permutes_example :
    NoDup (arranged stored asked) × ((x : Text) → Elem x (arranged stored asked) ↔ Elem x stored)
arranged-permutes_example = arranged-permutes stored asked

abbrev input : SaveConnectionInput
input = record {
  id = none;
  label = codes "Local";
  config = postgres (codes "db") 0 (codes "app") (codes "me");
  secret = some (codes "hunter2");
  command = none;
  command_while_selected = false;
  time_zone = none;
  production = true;
}

-- A backend that counts the calls made of it.
abbrev counting : Backend
counting = record {
  Stores = ℕ;
  find_by_id = λ id s. (ok none, s);
  begin = λ s. (ok tt, s);
  update = λ id fields s. (ok true, s);
  insert = λ id fields s. (ok tt, s);
  delete_row = λ id s. (ok tt, s);
  commit = λ s. (ok tt, s);
  dropped = λ s. s;
  secrets_set = λ id secret s. (ok tt, s);
  secrets_delete = λ id s. (ok tt, s);
  new_id = λ s. codes "id";
}
