-- ===== src/Db/Tabs/Kept.antt =====
-- Tabs that were saved are the tabs that are opened again.
use data_looker.Prelude.{
  ℕ, suc, ◌+◌, ◌-◌, ◌^◌, ◌≤◌, ◌<◌, min, max, ◌≡◌, refl, sym, ◌∙◌, false, not, ◌&&◌, Option, none,
  some, List, [], ◌∷◌, ◌++◌, ◌==◌, ltb, leb, if◌then◌else◌, select, length, arith, append_assoc,
  append-nil, Bool-cases, inl, inr,
}
use data_looker.Text.{Text, text_eq, text_eq_iff, text_eq_refl}
use data_looker.Error.{AppError, Result, ok}
use data_looker.Db.{Meta, OpenTab}
use data_looker.Db.Tabs.{
  SavedTab, sql_tab, table_tab, SavedTabs, row_to_tab, insert_by_position, by_position,
  of_connection, load_rows, load, tab_row, tab_rows, replace, save_tabs,
}

row_to_tab-tab_row :
    (id : Text) (active position : ℕ) (tab : SavedTab)
    → row_to_tab (tab_row id active position tab) ≡ ok tab
unfolding row_to_tab
row_to_tab-tab_row id active position (sql_tab t s) = refl
row_to_tab-tab_row id active position (table_tab s t) = refl

position-tab_row :
    (id : Text) (active position : ℕ) (tab : SavedTab)
    → (tab_row id active position tab).position ≡ min position (2 ^ 63 - 1)
position-tab_row id active position (sql_tab t s) = refl
position-tab_row id active position (table_tab s t) = refl

active-tab_row :
    (id : Text) (active position : ℕ) (tab : SavedTab)
    → (tab_row id active position tab).active ≡ (ltb position (2 ^ 32) && position == active)
active-tab_row id active position (sql_tab t s) = refl
active-tab_row id active position (table_tab s t) = refl

connection-tab_row :
    (id : Text) (active position : ℕ) (tab : SavedTab)
    → (tab_row id active position tab).connection_id ≡ id
connection-tab_row id active position (sql_tab t s) = refl
connection-tab_row id active position (table_tab s t) = refl

by_position-tab_rows :
    (id : Text) (active position : ℕ) (tabs : List SavedTab)
    → by_position (tab_rows id active position tabs) ≡ tab_rows id active position tabs
unfolding by_position tab_rows
by_position-tab_rows id active position [] = refl
by_position-tab_rows id active position (tab ∷ tabs) =
    rw (by_position-tab_rows id active (suc position) tabs) (first tabs)
  where
    first :
        (ts : List SavedTab)
        → insert_by_position (tab_row id active position tab) (tab_rows id active (suc position) ts)
          ≡ tab_row id active position tab ∷ tab_rows id active (suc position) ts
    first [] = unfold insert_by_position in refl
    first (t ∷ ts) =
        unfold insert_by_position in
        ground (
          arith,
          position-tab_row id active position tab,
          position-tab_row id active (suc position) t,
        )

select-own :
    (id : Text) (active position : ℕ) (tabs : List SavedTab)
    → select (of_connection id) (tab_rows id active position tabs)
      ≡ tab_rows id active position tabs
unfolding tab_rows
select-own id active position [] = refl
select-own id active position (tab ∷ tabs) = ground (
  arith,
  select-own id active (suc position) tabs,
  connection-tab_row id active position tab,
  text_eq_refl id,
)

select-others :
    (id : Text) (rows own : List OpenTab)
    → select (of_connection id) (select (λ row. not (of_connection id row)) rows ++ own)
      ≡ select (of_connection id) own
select-others id [] own = refl
select-others id (r ∷ rs) own = elim (Bool-cases (of_connection id r)) [
  | inl e ↦ rw e (select-others id rs own)
  | inr e ↦ rw e (rw e (select-others id rs own))
]

-- What the loop answers: the last row that is the active one says where.
loaded_active : ℕ → ℕ → ℕ → ℕ → ℕ
loaded_active active was position n =
    if leb position active && (ltb active (position + n) && ltb active (2 ^ 32))
    then active
    else was

loaded :
    (t u : List SavedTab) (a b : ℕ)
    → t ≡ u
    → a ≡ b
    → ◌≡◌ {A = Result SavedTabs AppError}
        (ok (record { tabs = t; active = a }))
        (ok (record { tabs = u; active = b }))
loaded t u a b p q = rw (p, q) refl

loaded_active-step :
    (id : Text) (active position n was : ℕ) (tab : SavedTab)
    → loaded_active active
        (if (tab_row id active position tab).active
          then (if ltb position (2 ^ 32) then position else 0)
          else was)
        (suc position)
        n
      ≡ loaded_active active was position (suc n)
unfolding loaded_active
loaded_active-step id active position n was tab =
    ground (arith, active-tab_row id active position tab)

loaded_active-whole :
    (active n : ℕ) → n ≤ 2 ^ 32 → active < max n 1 → loaded_active active 0 0 n ≡ active
unfolding loaded_active
loaded_active-whole active n h k = ground arith

load_rows-tab_rows :
    (id : Text) (active position : ℕ) (tabs : List SavedTab) (saved : SavedTabs)
    → load_rows (tab_rows id active position tabs) position saved
      ≡ ok (record {
        tabs = saved.tabs ++ tabs;
        active = loaded_active active saved.active position (length tabs);
      })
unfolding load_rows tab_rows
load_rows-tab_rows id active position [] saved =
    loaded saved.tabs (saved.tabs ++ []) saved.active _ (sym (append-nil saved.tabs))
      (unfold loaded_active in ground arith)
load_rows-tab_rows id active position (tab ∷ tabs) saved =
    let row = tab_row id active position tab in
    let next : SavedTabs = record {
      tabs = saved.tabs ++ tab ∷ [];
      active = if row.active then (if ltb position (2 ^ 32) then position else 0) else saved.active;
    } in
    rw (row_to_tab-tab_row id active position tab) (
      load_rows-tab_rows id active (suc position) tabs next
      ∙ loaded (next.tabs ++ tabs) (saved.tabs ++ tab ∷ tabs)
          (loaded_active active next.active (suc position) (length tabs))
          (loaded_active active saved.active position (suc (length tabs)))
          (append_assoc saved.tabs (tab ∷ []) tabs)
          (loaded_active-step id active position (length tabs) saved.active tab))

-- The tables after a save that is accepted.
abbrev after : Meta → Text → SavedTabs → Meta
after m id saved = record m {
  open_tabs =
      select (λ row. not (of_connection id row)) m.open_tabs
      ++ tab_rows id saved.active 0 saved.tabs;
}

save_tabs-ok :
    (refused : Option AppError) (m : Meta) (id : Text) (saved : SavedTabs)
    → (save_tabs refused m id saved).0 ≡ ok tt
    → (saved.active < max (length saved.tabs) 1)
      × ((save_tabs refused m id saved).1 ≡ after m id saved)
unfolding save_tabs replace
save_tabs-ok (some e) m id saved k = ground arith
save_tabs-ok none m id saved k = ground arith

select-foreign :
    (id other : Text) (active position : ℕ) (tabs : List SavedTab)
    → text_eq id other ≡ false
    → select (of_connection other) (tab_rows id active position tabs) ≡ []
unfolding tab_rows
select-foreign id other active position [] h = refl
select-foreign id other active position (tab ∷ tabs) h = ground (
  arith,
  select-foreign id other active (suc position) tabs h,
  connection-tab_row id active position tab,
)

select-untouched :
    (id other : Text) (rows own : List OpenTab)
    → text_eq id other ≡ false
    → select (of_connection other) own ≡ []
    → select (of_connection other) (select (λ row. not (of_connection id row)) rows ++ own)
      ≡ select (of_connection other) rows
select-untouched id other [] own h e = e
select-untouched id other (r ∷ rs) own h e = ground (
  arith,
  select-untouched id other rs own h e,
  text_eq_iff r.connection_id id,
  text_eq_iff r.connection_id other,
  text_eq_iff id other,
)

select-after :
    (id other : Text) (m : Meta) (saved : SavedTabs)
    → text_eq id other ≡ false
    → select (of_connection other) (after m id saved).open_tabs
      ≡ select (of_connection other) m.open_tabs
select-after id other m saved h =
    select-untouched id other m.open_tabs (tab_rows id saved.active 0 saved.tabs) h
      (select-foreign id other saved.active 0 saved.tabs h)

load-after :
    (id : Text) (m : Meta) (saved : SavedTabs)
    → length saved.tabs ≤ 2 ^ 32
    → saved.active < max (length saved.tabs) 1
    → load (after m id saved) id ≡ ok saved
unfolding load
load-after id m saved h k =
    rw
      (
        select-others id m.open_tabs (tab_rows id saved.active 0 saved.tabs),
        select-own id saved.active 0 saved.tabs,
        by_position-tab_rows id saved.active 0 saved.tabs,
      )
      (load_rows-tab_rows id saved.active 0 saved.tabs (record { tabs = []; active = 0 })
        ∙ loaded saved.tabs saved.tabs (loaded_active saved.active 0 0 (length saved.tabs))
            saved.active refl (loaded_active-whole saved.active (length saved.tabs) h k))

-- Once tabs are saved, by a save that is accepted, opening the connection again finds them as they
-- were, the active one with them, if they are at most 2 ^ 32; and saving them leaves the tabs that
-- every other connection finds alone.
pub save_tabs-load :
    (refused : Option AppError) (m : Meta) (id : Text) (saved : SavedTabs)
    → length saved.tabs ≤ 2 ^ 32
    → (save_tabs refused m id saved).0 ≡ ok tt
    → (load (save_tabs refused m id saved).1 id ≡ ok saved)
      × ((other : Text)
          → text_eq id other ≡ false
          → load (save_tabs refused m id saved).1 other ≡ load m other)
save_tabs-load refused m id saved h k =
    let (here, e) = save_tabs-ok refused m id saved k in
    (
      rw e (load-after id m saved h here),
      λ other apart. rw e (unfold load in rw (select-after id other m saved apart) refl),
    )
