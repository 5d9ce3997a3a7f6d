-- ===== src/Db/Templates/Tests.antt =====
-- A run of the templates.
use data_looker.Prelude.{◌≡◌, refl, none, [], ◌∷◌, is_empty, true}
use data_looker.Text.{codes, trim}
use data_looker.Error.{AppError, validation, ok, err}
use data_looker.Db.{Meta}
use data_looker.Db.Templates.{SaveTemplateInput, template, save_template, list_templates}
use data_looker.Db.Templates.Named.{Saved, save_template-Saved}

abbrev none_yet : Meta
none_yet = record { connections = []; open_tabs = []; query_history = []; query_templates = [] }

abbrev orders : SaveTemplateInput
orders = record { id = none; name = codes "  Orders "; sql = codes "SELECT 1" }

abbrev again : SaveTemplateInput
again = record { id = none; name = codes "orders"; sql = codes "SELECT 2" }

abbrev with_orders : Meta
with_orders = record none_yet {
  query_templates = template (codes "a") (codes "Orders") (codes "SELECT 1") ∷ [];
}

saved_trimmed : save_template none (codes "a") orders none_yet ≡ (ok (codes "a"), with_orders)
unfolding save_template trim
saved_trimmed = refl

-- The same name in other letters is refused.
refused_again : (save_template none (codes "b") again with_orders).1 ≡ with_orders
unfolding save_template trim
refused_again = refl

listed : list_templates with_orders ≡ with_orders.query_templates
unfolding list_templates
listed = refl

save_template-Saved_example :
    Saved
      (codes "orders")
      (codes "SELECT 2")
      with_orders
      (save_template none (codes "b") again with_orders)
    × (is_empty (codes "orders") ≡ true
        → save_template none (codes "b") again with_orders
          ≡ (err (validation (codes "name is required")), with_orders))
    × (is_empty (codes "SELECT 2") ≡ true
        → (e : AppError) × (save_template none (codes "b") again with_orders
            ≡ (err e, with_orders)))
unfolding trim
save_template-Saved_example = save_template-Saved none (codes "b") again with_orders
