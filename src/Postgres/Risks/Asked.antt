-- ===== src/Postgres/Risks/Asked.antt =====
-- What a production connection asks about.
use data_looker.Prelude.{
  ◌≡◌, refl, sym, subst, ap, Bool, true, false, not, ◌&&◌, Option, none, some, List, [], ◌∷◌, map,
  arith, is_empty, filter_map, Bool-cases, Option-cases, inl, inr, Elem, Elem-append_left,
}
use data_looker.Text.{Text}
use data_looker.Postgres.Risks.{
  RangeVar, Named, AlterCommand, insert_statement, update_statement, delete_statement,
  merge_statement, create_table_as, select_statement, copy_statement, create_statement, alter_table,
  truncate_statement, drop_statement, drop_database, execute_statement, do_statement, other_node,
  Node, Found, hazard, reads, found, only_plans, prepared, as_risk, statement_risks,
}

Elem-map : {A B : Type 0} (f : A → B) (a : A) (xs : List A) → Elem a xs → Elem (f a) (map f xs)
Elem-map f a [] h = absurd h
Elem-map f a (x ∷ xs) (inl e) = inl (ap f e)
Elem-map f a (x ∷ xs) (inr h) = inr (Elem-map f a xs h)

filter_map-some :
    {A B : Type 0} (f : A → Option B) (x : A) (b : B) (xs : List A)
    → f x ≡ some b
    → filter_map f (x ∷ xs) ≡ b ∷ filter_map f xs
filter_map-some f x b xs e = ground arith

filter_map-none :
    {A B : Type 0} (f : A → Option B) (x : A) (xs : List A)
    → f x ≡ none
    → filter_map f (x ∷ xs) ≡ filter_map f xs
filter_map-none f x xs e = ground arith

Elem-filter_map :
    {A B : Type 0} (f : A → Option B) (a : A) (b : B) (xs : List A)
    → Elem a xs
    → f a ≡ some b
    → Elem b (filter_map f xs)
Elem-filter_map f a b [] h e = absurd h
Elem-filter_map f a b (x ∷ xs) (inl q) e =
    subst (λ l. Elem b l) (sym (filter_map-some f x b xs (subst (λ y. f y ≡ some b) q e)))
      (inl refl)
Elem-filter_map f a b (x ∷ xs) (inr h) e = elim (Option-cases (f x)) [
  | inl n ↦ subst (λ l. Elem b l) (sym (filter_map-none f x xs n)) (Elem-filter_map f a b xs h e)
  | inr (c, s) ↦
      subst (λ l. Elem b l) (sym (filter_map-some f x c xs s)) (inr (Elem-filter_map f a b xs h e))
]

-- A statement that writes into a table.
pub data Writes : Node → Type 0 where
  an_insert : (r : Option RangeVar) → Writes (insert_statement r)
  an_update : (r : Option RangeVar) (w : Bool) → Writes (update_statement r w)
  a_delete : (r : Option RangeVar) (w : Bool) → Writes (delete_statement r w)
  a_merge : (r : Option RangeVar) → Writes (merge_statement r)
  a_table_as : (into : Option (Option RangeVar)) → Writes (create_table_as into)
  a_select_into : (r : Option RangeVar) → Writes (select_statement (some r))

-- A statement that changes something, or may, by its kind: `other_node` is every kind that is not
-- named, a `CALL` among them.
pub data ChangesAlone : Node → Type 0 where
  writing : (node : Node) → Writes node → ChangesAlone node
  a_copy_from : (r : Option RangeVar) → ChangesAlone (copy_statement r true)
  a_create : (r : Option RangeVar) → ChangesAlone (create_statement r)
  an_alter : (r : Option RangeVar) (cs : List AlterCommand) → ChangesAlone (alter_table r cs)
  a_truncate : (names : List Named) → ChangesAlone (truncate_statement names)
  a_drop : (names : List Named) → ChangesAlone (drop_statement names)
  a_drop_database : (name : Text) → ChangesAlone (drop_database name)
  an_execute : ChangesAlone execute_statement
  a_do : ChangesAlone do_statement
  another : ChangesAlone other_node

-- By its kind, or by what stands within it, if that is carried out.
pub data Changes (nodes : Node → List Node) : Node → Type 0 where
  by_kind : (node : Node) → ChangesAlone node → Changes nodes node
  within :
      (node inner : Node)
      → Elem inner (nodes node)
      → Writes inner
      → only_plans node ≡ false
      → Changes nodes node

module _ (nodes : Node → List Node) where
  found-hazards :
      (production : Bool) (node : Node) (f : Found)
      → Elem f (filter_map hazard (nodes node))
      → Elem f (found nodes production node)
  unfolding found
  found-hazards production node f h =
      elim (Bool-cases
        (production && (is_empty (filter_map hazard (nodes node)) && not (reads nodes node)))) [
          | inl e ↦ rw e (Elem-append_left f _ _ h)
          | inr e ↦ rw e h
        ]

  -- Whatever the connection, a statement that is not only planned is asked about for each hazard in
  -- it, also one that stands inside another or is being prepared.
  pub statement_risks-hazard :
      (production : Bool) (text : Text) (node inner : Node) (f : Found)
      → only_plans node ≡ false
      → Elem inner (nodes (prepared node))
      → hazard inner ≡ some f
      → Elem (as_risk text f) (statement_risks nodes production text node)
  unfolding statement_risks
  statement_risks-hazard production text node inner f runs m e = rw runs (
      Elem-map (as_risk text) f _
        (found-hazards production (prepared node) f (Elem-filter_map hazard inner f _ m e)))
