-- ===== src/Postgres/Edit/Plans.antt =====
-- Which saves are planned, and what the plan holds.
use mathlib.Core.Bool.{true≢false}
use data_looker.Prelude.{
  ◌≡◌, ◌≢◌, refl, sym, ◌∙◌, ◌&&◌, Bool, true, false, Option, none, some, Option-cases, inl, inr,
  Elem, All, length, List, [], ◌∷◌, ◌++◌, map, arith, if◌then◌else◌, all, is_empty,
}
use data_looker.Text.{Text, codes, join}
use data_looker.Map.{Map, text_is_eq, get, is_some}
use data_looker.Error.{Result, ok, err}
use data_looker.Drivers.{TableShape, RowDelete, RowUpdate, DriverError, refused}
use data_looker.Postgres.Edit.{
  Statement, Edits, insert, delete, update, whole_key, names_one_row, plan_deletes, plan_updates,
  plan,
}

abbrev pub no_key : Text → Text → DriverError
no_key schema table =
    refused (schema ++ (b'.' ∷ (table ++ codes " has no primary key, so a row cannot be named")))

abbrev pub unnamed : TableShape → DriverError
unnamed shape = refused (
    codes "a row is named by ("
    ++ (join (codes ", ") shape.primary_key ++ codes "), so nothing was saved"))

module _ (shape : TableShape) (schema table : Text) where
  plan_deletes-eq :
      (ds : List RowDelete)
      → plan_deletes shape schema table ds ≡ (
          if all (λ d. whole_key shape d.key) ds
          then ok (map (delete shape schema table) ds)
          else err (unnamed shape))
  unfolding plan_deletes names_one_row
  plan_deletes-eq [] = refl
  plan_deletes-eq (d ∷ ds) = ground (arith, plan_deletes-eq ds)

  plan_updates-eq :
      (us : List RowUpdate)
      → plan_updates shape schema table us ≡ (
          if all (λ u. whole_key shape u.key) us
          then ok (map (update shape schema table) us)
          else err (unnamed shape))
  unfolding plan_updates names_one_row
  plan_updates-eq [] = refl
  plan_updates-eq (u ∷ us) = ground (arith, plan_updates-eq us)

  -- The whole of a primary key is named: a value for each of its columns, and as many as those are.
  abbrev pub NamesWhole : Map Text (Option Text) → Type 0
  NamesWhole key =
      (length key ≡ length shape.primary_key)
      × ((column : Text)
          → Elem column shape.primary_key
          → (v : Option Text) × (get key column ≡ some v))

  has_each :
      (key : Map Text (Option Text)) (columns : List Text)
      → all (λ c. is_some (get key c)) columns ≡ true
      → (column : Text) → Elem column columns
      → (v : Option Text) × (get key column ≡ some v)
  has_each key [] h column m = absurd m
  has_each key (c ∷ cs) h column (inl e) = elim (Option-cases (get key column)) [
    | inl n ↦ absurd (missing n)
    | inr (v, q) ↦ (v, q)
  ]
    where
      missing : get key column ≡ none → ⊥
      missing n = true≢false (sym h ∙ rw (sym e) (rw n refl))
  has_each key (c ∷ cs) h column (inr m) = has_each key cs (rest h) column m
    where
      rest :
          all (λ c. is_some (get key c)) (c ∷ cs) ≡ true → all (λ c. is_some (get key c)) cs ≡ true
      rest h = ground arith

  all-some :
      (key : Map Text (Option Text)) (columns : List Text)
      → ((column : Text) → Elem column columns → (v : Option Text) × (get key column ≡ some v))
      → all (λ c. is_some (get key c)) columns ≡ true
  all-some key [] h = refl
  all-some key (c ∷ cs) h =
      let (v, q) = h c (inl refl) in rw q (all-some key cs (λ column m. h column (inr m)))

  whole_key-NamesWhole :
      (key : Map Text (Option Text)) → whole_key shape key ≡ true → NamesWhole key
  unfolding whole_key
  whole_key-NamesWhole key h =
      let e : length key ≡ length shape.primary_key = ground arith in
      let a : all (λ c. is_some (get key c)) shape.primary_key ≡ true = ground arith in
      (e, has_each key shape.primary_key a)

  NamesWhole-whole_key :
      (key : Map Text (Option Text)) → NamesWhole key → whole_key shape key ≡ true
  unfolding whole_key
  NamesWhole-whole_key key (e, h) =
      let a : all (λ c. is_some (get key c)) shape.primary_key ≡ true =
        all-some key shape.primary_key h in
      ground arith

  -- Every edit that names a row names it by the whole of the key.
  abbrev pub AllNamed : Edits → Type 0
  AllNamed edits =
      All (λ (d : RowDelete). NamesWhole d.key) edits.deletes
      × All (λ (u : RowUpdate). NamesWhole u.key) edits.updates

  all-All :
      {A : Type 0} (key : A → Map Text (Option Text)) (xs : List A)
      → all (λ x. whole_key shape (key x)) xs ≡ true
      → All (λ x. NamesWhole (key x)) xs
  all-All key [] h = tt
  all-All key (x ∷ xs) h =
      (whole_key-NamesWhole (key x) (ground arith), all-All key xs (ground arith))

  All-all :
      {A : Type 0} (key : A → Map Text (Option Text)) (xs : List A)
      → All (λ x. NamesWhole (key x)) xs
      → all (λ x. whole_key shape (key x)) xs ≡ true
  All-all key [] h = refl
  All-all key (x ∷ xs) (h, hs) =
      let here = NamesWhole-whole_key (key x) h in let there = All-all key xs hs in rw here there

  plan-tests :
      (edits : Edits)
      → plan shape schema table edits ≡ (
          if is_empty shape.primary_key
          then err (no_key schema table)
          else if all (λ d. whole_key shape d.key) edits.deletes
              && all (λ u. whole_key shape u.key) edits.updates
          then ok (
              map (delete shape schema table) edits.deletes
              ++ (map (update shape schema table) edits.updates
                  ++ map (insert shape schema table) edits.inserts))
          else err (unnamed shape))
  unfolding plan
  plan-tests edits = ground (arith, plan_deletes-eq edits.deletes, plan_updates-eq edits.updates)

  -- One statement for each edit and no other, deletions first and additions last.
  abbrev pub statements_of : Edits → List Statement
  statements_of edits =
      map (delete shape schema table) edits.deletes
      ++ (map (update shape schema table) edits.updates
          ++ map (insert shape schema table) edits.inserts)

  ok-ne-err :
      {A : Type 0} {a : A} {e : DriverError} → ◌≡◌ {A = Result A DriverError} (ok a) (err e) → ⊥
  ok-ne-err h = cc

  planned_of :
      (keyless d u : Bool) (ss statements : List Statement) (e f : DriverError)
      → (if keyless then err e else if d && u then ok ss else err f) ≡ ok statements
      → (keyless ≡ false) × (d ≡ true) × (u ≡ true) × (statements ≡ ss)
  planned_of true d u ss statements e f h = absurd (ok-ne-err (sym h))
  planned_of false false u ss statements e f h = absurd (ok-ne-err (sym h))
  planned_of false true false ss statements e f h = absurd (ok-ne-err (sym h))
  planned_of false true true ss statements e f h = (refl, refl, refl, cc)

  is_empty-nil : {A : Type 0} (xs : List A) → is_empty xs ≡ false → xs ≢ []
  is_empty-nil [] h e = true≢false h
  is_empty-nil (x ∷ xs) h e = cc

  nil-is_empty : {A : Type 0} (xs : List A) → xs ≢ [] → is_empty xs ≡ false
  nil-is_empty [] h = absurd (h refl)
  nil-is_empty (x ∷ xs) h = refl

  -- A save is planned exactly when the table has a primary key and every deletion and every update
  -- names as many columns as the key has, each of the key among them.
  -- The plan then holds a statement for
  -- each edit and no other, deletions first and additions last, each kind in its order.
  pub plan_iff :
      (edits : Edits)
      → ((statements : List Statement)
          → plan shape schema table edits ≡ ok statements
          → (shape.primary_key ≢ []) × AllNamed edits × (statements ≡ statements_of edits))
        × (shape.primary_key ≢ []
            → AllNamed edits
            → plan shape schema table edits ≡ ok (statements_of edits))
  plan_iff edits = (
    (λ statements h.
        let (k, d, u, q) =
          planned_of (is_empty shape.primary_key) (all (λ d. whole_key shape d.key) edits.deletes)
            (all (λ u. whole_key shape u.key) edits.updates) (statements_of edits) statements
            (no_key schema table) (unnamed shape) (sym (plan-tests edits) ∙ h) in
        (
          is_empty-nil shape.primary_key k,
          (all-All (λ d. d.key) edits.deletes d, all-All (λ u. u.key) edits.updates u),
          q,
        )),
    λ k (d, u).
        plan-tests edits
        ∙ rw
            (
              nil-is_empty shape.primary_key k,
              All-all (λ d. d.key) edits.deletes d,
              All-all (λ u. u.key) edits.updates u,
            )
            refl,
  )
