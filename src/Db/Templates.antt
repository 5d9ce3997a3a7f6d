-- ===== src/Db/Templates.antt =====
-- src-tauri/src/db/template.rs and src-tauri/src/app/templates.rs: the statements kept under a name.
mod Named
mod Tests
use mathlib.Core.Option
use data_looker.Prelude.{
  ℕ, ◌+◌, Bool, true, false, not, ◌&&◌, ◌||◌, Option, none, some, List, [], ◌∷◌, ◌++◌, ◌==◌, leb,
  ltb, if◌then◌else◌, select, any, map, is_empty,
}
use data_looker.Text.{Text, codes, text_eq, text_leb, trim}
use data_looker.Error.{AppError, validation, not_found, conflict, Result, ok, err, ◌>>=◌}
use data_looker.Db.{Meta, QueryTemplate}

pub record SaveTemplateInput : Type 0 where
  pub id : Option Text
  pub name : Text
  pub sql : Text

-- `COLLATE NOCASE`: the ASCII letters in either case are one.
unfoldable pub nocase : Text → Text
nocase [] = []
nocase (c ∷ s) = let rest = nocase s in if leb 65 c && leb c 90 then (c + 32) ∷ rest else c ∷ rest

unfoldable pub is_called : Text → QueryTemplate → Bool
unfolding nocase
is_called name t = text_eq (nocase name) (nocase t.name)

abbrev pub has_key : Text → QueryTemplate → Bool
has_key id t = text_eq id t.id

abbrev pub named_twice : Text → AppError
named_twice name = conflict (codes "a template is already called " ++ name)

-- `ORDER BY name, id`.
unfoldable pub comes_first : QueryTemplate → QueryTemplate → Bool
unfolding nocase
comes_first t u =
    not (text_leb (nocase u.name) (nocase t.name))
    || (text_eq (nocase t.name) (nocase u.name) && text_leb t.id u.id)

unfoldable pub insert_by_name : QueryTemplate → List QueryTemplate → List QueryTemplate
unfolding comes_first
insert_by_name t [] = t ∷ []
insert_by_name t (u ∷ us) =
    let rest = insert_by_name t us in if comes_first t u then t ∷ u ∷ us else u ∷ rest

unfoldable pub by_name : List QueryTemplate → List QueryTemplate
unfolding insert_by_name
by_name [] = []
by_name (t ∷ ts) = insert_by_name t (by_name ts)

unfoldable pub list_templates : Meta → List QueryTemplate
unfolding by_name
list_templates m = by_name m.query_templates

abbrev pub template : Text → Text → Text → QueryTemplate
template id name sql = record { id = id; name = name; sql = sql }

-- `refused` is the error that a statement meets, but for a row that is not unique.
unfoldable pub insert :
    Option AppError → Text → Text → Text → Meta → Result (Unit {0}) AppError × Meta
unfolding is_called
insert (some refused) id name sql m = (err refused, m)
insert none id name sql m =
    if any (λ t. has_key id t || is_called name t) m.query_templates
    then (err (named_twice name), m)
    else (ok tt, record m { query_templates = template id name sql ∷ m.query_templates })

abbrev pub rewritten : Text → Text → Text → QueryTemplate → QueryTemplate
rewritten id name sql t = if has_key id t then template t.id name sql else t

unfoldable pub update : Option AppError → Text → Text → Text → Meta → Result Bool AppError × Meta
unfolding is_called
update (some refused) id name sql m = (err refused, m)
update none id name sql m =
    if not (any (has_key id) m.query_templates)
    then (ok false, m)
    else (if any (λ t. not (has_key id t) && is_called name t) m.query_templates
        then (err (named_twice name), m)
        else (
          ok true,
          record m { query_templates = map (rewritten id name sql) m.query_templates },
        ))

unfoldable pub delete : Option AppError → Text → Meta → Result Bool AppError × Meta
delete (some refused) id m = (err refused, m)
delete none id m = (
  ok (any (has_key id) m.query_templates),
  record m { query_templates = select (λ t. not (has_key id t)) m.query_templates },
)

-- What the statement of `save_template` is answered with, as the code reads it.
abbrev pub updated : Text → Result Bool AppError × Meta → Result Text AppError × Meta
updated id (ok true, m) = (ok id, m)
updated id (ok false, m) = (err (not_found id), m)
updated id (err e, m) = (err e, m)

abbrev pub inserted : Text → Result (Unit {0}) AppError × Meta → Result Text AppError × Meta
inserted id (ok u, m) = (ok id, m)
inserted id (err e, m) = (err e, m)

abbrev pub deleted : Text → Result Bool AppError × Meta → Result (Unit {0}) AppError × Meta
deleted id (ok true, m) = (ok tt, m)
deleted id (ok false, m) = (err (not_found id), m)
deleted id (err e, m) = (err e, m)

abbrev pub store_template :
    Option AppError → Text → Option Text → Text → Text → Meta → Result Text AppError × Meta
store_template refused new_id (some id) name sql m = updated id (update refused id name sql m)
store_template refused new_id none name sql m = inserted new_id (insert refused new_id name sql m)

-- `new_id` is `uuid::Uuid::new_v4`'s.
unfoldable pub save_template :
    Option AppError → Text → SaveTemplateInput → Meta → Result Text AppError × Meta
unfolding insert update
save_template refused new_id input m =
    let name = trim input.name in
    if is_empty name
    then (err (validation (codes "name is required")), m)
    else (if is_empty (trim input.sql)
        then (err (validation (codes "SQL is required")), m)
        else store_template refused new_id input.id name input.sql m)

unfoldable pub delete_template : Option AppError → Text → Meta → Result (Unit {0}) AppError × Meta
unfolding delete
delete_template refused id m = deleted id (delete refused id m)
