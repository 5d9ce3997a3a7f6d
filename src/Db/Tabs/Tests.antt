-- ===== src/Db/Tabs/Tests.antt =====
-- A run of the tabs.
use data_looker.Prelude.{◌≡◌, refl, false, none, [], ◌∷◌, arith}
use data_looker.Text.{Text, codes, text_eq}
use data_looker.Error.{ok}
use data_looker.Db.{Meta}
use data_looker.Db.Tabs.{sql_tab, table_tab, SavedTabs, load, save_tabs}
use data_looker.Db.Tabs.Kept.{save_tabs-load}

abbrev two_tabs : SavedTabs
two_tabs = record {
  tabs =
      sql_tab (codes "first") (codes "SELECT 1") ∷ table_tab (codes "public") (codes "orders") ∷ [];
  active = 1;
}

abbrev fresh : Meta
fresh = record {
  connections = codes "a" ∷ codes "b" ∷ [];
  open_tabs = [];
  query_history = [];
  query_templates = [];
}

accepted : (save_tabs none fresh (codes "a") two_tabs).0 ≡ ok tt
unfolding save_tabs
accepted = refl

save_tabs-load_example :
    (load (save_tabs none fresh (codes "a") two_tabs).1 (codes "a") ≡ ok two_tabs)
    × ((other : Text)
        → text_eq (codes "a") other ≡ false
        → load (save_tabs none fresh (codes "a") two_tabs).1 other ≡ load fresh other)
save_tabs-load_example = save_tabs-load none fresh (codes "a") two_tabs (omega arith) accepted
