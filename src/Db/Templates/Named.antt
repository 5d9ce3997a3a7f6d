-- ===== src/Db/Templates/Named.antt =====
-- What saving and deleting a template leave: one template under a name, and the others as they were.
use mathlib.Core.Bool.{true≢false}
use data_looker.Prelude.{
  ◌≡◌, refl, sym, ap, Bool, true, false, not, ◌&&◌, ◌||◌, Option, none, some, List, [], ◌∷◌,
  if◌then◌else◌, select, any, map, is_empty, arith, Bool-cases, inl, inr, ◌⊎◌,
}
use data_looker.Text.{Text, codes, text_eq, text_eq_iff, text_eq_refl, trim}
use data_looker.Error.{AppError, validation, not_found, Result, ok, err}
use data_looker.Db.{Meta, QueryTemplate}
use data_looker.Db.Templates.{
  SaveTemplateInput, nocase, is_called, has_key, named_twice, template, insert, rewritten, update,
  delete, updated, store_template, save_template, delete_template,
}

-- A row that has another's id, or its name in either case.
unfoldable pub takes : Text → Text → QueryTemplate → Bool
unfolding is_called
takes id name t = has_key id t || is_called name t

-- No two rows have an id or a name in common.
abbrev pub IsNamed : List QueryTemplate → Type 0
IsNamed [] = Unit
IsNamed (t ∷ ts) = (any (takes t.id t.name) ts ≡ false) × IsNamed ts

any-select :
    (p q : QueryTemplate → Bool) (ts : List QueryTemplate)
    → any p ts ≡ false
    → any p (select q ts) ≡ false
any-select p q [] h = refl
any-select p q (t ∷ ts) h = ground (arith, any-select p q ts)

select-IsNamed :
    (q : QueryTemplate → Bool) (ts : List QueryTemplate) → IsNamed ts → IsNamed (select q ts)
select-IsNamed q [] h = tt
select-IsNamed q (t ∷ ts) (h, hs) = elim (Bool-cases (q t)) [
  | inl e ↦ rw e (any-select (takes t.id t.name) q ts h, select-IsNamed q ts hs)
  | inr e ↦ rw e (select-IsNamed q ts hs)
]

abbrev clashes : Text → Text → QueryTemplate → Bool
clashes id name t = not (has_key id t) && is_called name t

module _ (id name sql : Text) where
  -- The rows behind the one that is rewritten.
  behind-rewritten :
      (key : Text) (ts : List QueryTemplate)
      → text_eq id key ≡ true
      → (other : Text) → any (takes key other) ts ≡ false
      → any (clashes id name) ts ≡ false
      → any (takes key name) (map (rewritten id name sql) ts) ≡ false
  unfolding takes is_called
  behind-rewritten key [] e other h c = refl
  behind-rewritten key (t ∷ ts) e other h c = ground (
    arith,
    behind-rewritten key ts e other,
    text_eq_iff id key,
    text_eq_iff id t.id,
    text_eq_iff key t.id,
  )

  -- The rows behind one that is not.
  behind-other :
      (u : QueryTemplate) (ts : List QueryTemplate)
      → is_called name u ≡ false
      → any (takes u.id u.name) ts ≡ false
      → any (takes u.id u.name) (map (rewritten id name sql) ts) ≡ false
  unfolding takes is_called
  behind-other u [] a h = refl
  behind-other u (t ∷ ts) a h = ground (
    arith,
    behind-other u ts a,
    text_eq_iff (nocase name) (nocase u.name),
    text_eq_iff (nocase u.name) (nocase name),
  )

  map-IsNamed :
      (ts : List QueryTemplate)
      → IsNamed ts
      → any (clashes id name) ts ≡ false
      → IsNamed (map (rewritten id name sql) ts)
  map-IsNamed [] hs c = tt
  map-IsNamed (t ∷ ts) (h, hs) c = elim (Bool-cases (has_key id t)) [
    | inl e ↦
        rw e (behind-rewritten t.id ts e t.name h (ground arith), map-IsNamed ts hs (ground arith))
    | inr e ↦ rw e (behind-other t ts (ground arith) h, map-IsNamed ts hs (ground arith))
  ]

insert-cases :
    (refused : Option AppError) (id name sql : Text) (m : Meta)
    → ((e : AppError) × (insert refused id name sql m ≡ (err e, m)))
      ⊎ ((insert refused id name sql m
            ≡ (ok tt, record m { query_templates = template id name sql ∷ m.query_templates }))
          × (any (takes id name) m.query_templates ≡ false))
unfolding insert takes
insert-cases (some e) id name sql m = inl (e, refl)
insert-cases none id name sql m = elim (Bool-cases (any (takes id name) m.query_templates)) [
  | inl e ↦ inl (named_twice name, rw (found e) refl)
  | inr e ↦ inr (rw (found e) refl, e)
]
  where
    found :
        {b : Bool}
        → any (takes id name) m.query_templates ≡ b
        → any (λ t. has_key id t || is_called name t) m.query_templates ≡ b
    found e = e

update-cases :
    (refused : Option AppError) (id name sql : Text) (m : Meta)
    → ((e : AppError) × (updated id (update refused id name sql m) ≡ (err e, m)))
      ⊎ ((update refused id name sql m ≡ (
        ok true,
        record m { query_templates = map (rewritten id name sql) m.query_templates },
      ))
          × (any (clashes id name) m.query_templates ≡ false)
          × (any (has_key id) m.query_templates ≡ true))
unfolding update
update-cases (some e) id name sql m = inl (e, refl)
update-cases none id name sql m = elim (Bool-cases (any (has_key id) m.query_templates)) [
  | inr e ↦ inl (not_found id, rw e refl)
  | inl e ↦ elim (Bool-cases (any (clashes id name) m.query_templates)) [
    | inl c ↦ inl (named_twice name, rw (e, c) refl)
    | inr c ↦ inr (rw (e, c) refl, c, e)
  ]
]

-- The template under an id.
unfoldable pub stored : Text → List QueryTemplate → Option QueryTemplate
stored id [] = none
stored id (t ∷ ts) = let rest = stored id ts in if has_key id t then some t else rest

stored-rewritten :
    (id name sql : Text) (ts : List QueryTemplate)
    → any (has_key id) ts ≡ true
    → stored id (map (rewritten id name sql) ts) ≡ some (template id name sql)
unfolding stored
stored-rewritten id name sql [] h = absurd (true≢false (sym h))
stored-rewritten id name sql (t ∷ ts) h = elim (Bool-cases (has_key id t)) [
  | inl e ↦ rw (e, e) (ap (λ k. some (template k name sql)) (sym ((text_eq_iff id t.id).0 e)))
  | inr e ↦ rw (e, e) (stored-rewritten id name sql ts (ground arith))
]

stored-others :
    (id name sql other : Text) (ts : List QueryTemplate)
    → text_eq other id ≡ false
    → stored other (map (rewritten id name sql) ts) ≡ stored other ts
unfolding stored
stored-others id name sql other [] h = refl
stored-others id name sql other (t ∷ ts) h = ground (
  arith,
  stored-others id name sql other ts h,
  text_eq_iff id t.id,
  text_eq_iff other t.id,
  text_eq_iff other id,
)

-- What a save is answered with and leaves.
abbrev pub Saved : Text → Text → Meta → Result Text AppError × Meta → Type 0
Saved name sql m answer =
    ((e : AppError) × (answer ≡ (err e, m)))
    ⊎ ((id : Text) × (answer.0 ≡ ok id)
        × (stored id answer.1.query_templates ≡ some (template id name sql))
        × ((other : Text)
            → text_eq other id ≡ false
            → stored other answer.1.query_templates ≡ stored other m.query_templates)
        × (IsNamed m.query_templates → IsNamed answer.1.query_templates))

store_template-Saved :
    (refused : Option AppError) (new_id : Text) (id : Option Text) (name sql : Text) (m : Meta)
    → Saved name sql m (store_template refused new_id id name sql m)
store_template-Saved refused new_id (some id) name sql m =
    elim (update-cases refused id name sql m) [
      | inl (e, h) ↦ inl (e, h)
      | inr (h, c, k) ↦ rw h (
          inr (
            id,
            refl,
            stored-rewritten id name sql m.query_templates k,
            (λ other apart. stored-others id name sql other m.query_templates apart),
            λ hs. map-IsNamed id name sql m.query_templates hs c,
          ))
    ]
store_template-Saved refused new_id none name sql m =
    elim (insert-cases refused new_id name sql m) [
      | inl (e, h) ↦ rw h (inl (e, refl))
      | inr (h, c) ↦ rw h (
          inr (
            new_id,
            refl,
            unfold stored in rw (text_eq_refl new_id) refl,
            (λ other apart. unfold stored in rw apart refl),
            λ hs. (c, hs),
          ))
    ]

-- Saving a template either is refused and leaves the templates as they were, or stores under the id
-- it answers the trimmed name and the statement as written, and leaves what is under every other id
-- alone; a name that is blank, or a statement, is refused; and templates of which no two had a name
-- in common, in either case of its letters, or an id stay so.
pub save_template-Saved :
    (refused : Option AppError) (new_id : Text) (input : SaveTemplateInput) (m : Meta)
    → Saved (trim input.name) input.sql m (save_template refused new_id input m)
      × (is_empty (trim input.name) ≡ true
          → save_template refused new_id input m ≡ (err (validation (codes "name is required")), m))
      × (is_empty (trim input.sql) ≡ true
          → (e : AppError) × (save_template refused new_id input m ≡ (err e, m)))
unfolding save_template
save_template-Saved refused new_id input m = elim (Bool-cases (is_empty (trim input.name))) [
  | inl n ↦ rw n (
    inl (validation (codes "name is required"), refl),
    (λ h. refl),
    λ h. (validation (codes "name is required"), refl),
  )
  | inr n ↦ elim (Bool-cases (is_empty (trim input.sql))) [
    | inl s ↦
        rw (n, s)
          (
            inl (validation (codes "SQL is required"), refl),
            (λ h. absurd (true≢false (sym h))),
            λ h. (validation (codes "SQL is required"), refl),
          )
    | inr s ↦
        rw (n, s)
          (
            store_template-Saved refused new_id input.id (trim input.name) input.sql m,
            (λ h. absurd (true≢false (sym h))),
            λ h. absurd (true≢false (sym h)),
          )
  ]
]

stored-gone :
    (id : Text) (ts : List QueryTemplate) → stored id (select (λ t. not (has_key id t)) ts) ≡ none
unfolding stored
stored-gone id [] = refl
stored-gone id (t ∷ ts) = ground (arith, stored-gone id ts)

stored-kept :
    (id other : Text) (ts : List QueryTemplate)
    → text_eq other id ≡ false
    → stored other (select (λ t. not (has_key id t)) ts) ≡ stored other ts
unfolding stored
stored-kept id other [] h = refl
stored-kept id other (t ∷ ts) h = ground (
  arith,
  stored-kept id other ts h,
  text_eq_iff id t.id,
  text_eq_iff other t.id,
  text_eq_iff other id,
)

-- Deleting a template, which is not found where there is none, takes that one and no other.
pub delete_template-stored :
    (id : Text) (m : Meta)
    → let after = delete_template none id m in
      (after.0 ≡ (if any (has_key id) m.query_templates then ok tt else err (not_found id)))
      × (stored id after.1.query_templates ≡ none)
      × ((other : Text)
          → text_eq other id ≡ false
          → stored other after.1.query_templates ≡ stored other m.query_templates)
      × (IsNamed m.query_templates → IsNamed after.1.query_templates)
unfolding delete_template delete
delete_template-stored id m = elim (Bool-cases (any (has_key id) m.query_templates)) [
  | inl e ↦ rw e (
    refl,
    stored-gone id m.query_templates,
    (λ other h. stored-kept id other m.query_templates h),
    λ hs. select-IsNamed (λ t. not (has_key id t)) m.query_templates hs,
  )
  | inr e ↦ rw e (
    refl,
    stored-gone id m.query_templates,
    (λ other h. stored-kept id other m.query_templates h),
    λ hs. select-IsNamed (λ t. not (has_key id t)) m.query_templates hs,
  )
]
