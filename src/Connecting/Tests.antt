-- ===== src/Connecting/Tests.antt =====
-- An edit that is refused half-way, and a connection that is deleted.
use data_looker.Prelude.{ℕ, ◌≡◌, ◌↔◌, ◌&&◌, Bool, true, false, none, some, [], ◌∷◌, arith}
use data_looker.Text.{codes, text_eq, text_eq_iff}
use data_looker.Map.{Eq, text_is_eq}
use data_looker.Error.{database, ok, err}
use data_looker.Connections.{Backend, SaveConnectionInput, bigquery}
use data_looker.Sessions.{Whose, bigquery_session}
use data_looker.Completion.{TablePath}
use data_looker.Connecting.{Standing}

abbrev same_path : TablePath → TablePath → Bool
same_path (a, b, c) (x, y, z) = text_eq a x && (text_eq b y && text_eq c z)

same_path_iff : (p q : TablePath) → (same_path p q ≡ true) ↔ (p ≡ q)
same_path_iff (a, b, c) (x, y, z) =
    ground (arith, text_eq_iff a x, text_eq_iff b y, text_eq_iff c z)

instance abbrev same_path_is_eq : Eq TablePath
same_path_is_eq = record { beq = same_path; beq_iff = same_path_iff }

-- Rows that take an update, and a keychain that takes nothing.
abbrev locked : Backend
locked = record {
  Stores = Unit;
  find_by_id = λ id s. (ok none, s);
  begin = λ s. (ok tt, s);
  update = λ id fields s. (ok true, s);
  insert = λ id fields s. (ok tt, s);
  delete_row = λ id s. (ok tt, s);
  commit = λ s. (ok tt, s);
  dropped = λ s. s;
  secrets_set = λ id secret s. (err (database (codes "locked")), s);
  secrets_delete = λ id s. (err (database (codes "locked")), s);
  new_id = λ s. codes "new";
}

abbrev renamed : SaveConnectionInput
renamed = record {
  id = some (codes "a");
  label = codes "A";
  config = bigquery (codes "p") (codes "US");
  secret = none;
  command = none;
  command_while_selected = false;
  time_zone = none;
  production = false;
}

abbrev standing : Standing ℕ
standing = record {
  sessions = record {
    open_sessions = ((codes "a", Whose.reader), bigquery_session (codes "p") (codes "US")) ∷ [];
    closed = [];
  };
  servers = record { running = []; stopped = [] };
  catalogs = record { tables = []; forgotten = [] };
  shells = (codes "a", record { id = codes "r"; connection_id = codes "a" }) ∷ [];
}
