-- ===== src/Completion/Forgetting.antt =====
-- What is learnt with a connection's old credentials is not kept.
use data_looker.Prelude.{
  ℕ, suc, ◌≤◌, ◌<◌, ◌≡◌, false, Option, List, [], ◌∷◌, Elem, inl, inr, arith, sym,
}
use data_looker.Text.{Text, text_eq_iff, text_eq_refl}
use data_looker.Map.{Eq, text_is_eq, get-insert}
use data_looker.Completion.{Catalog, TablePath, generation, learn, forget}

-- What a completion or a change of a connection does to the catalog.
pub data Operation (Columns : Type 0) : Type 0 where
  learning : Text → ℕ → TablePath → Option Columns → ℕ → Operation Columns
  forgetting : Text → Operation Columns

module _ {Columns : Type 0} ⦃e : Eq TablePath⦄ where
  unfoldable pub step : Catalog Columns → Operation Columns → Catalog Columns
  unfolding learn forget
  step c (learning id seen path columns now) = (learn c id seen path columns now).1
  step c (forgetting id) = forget c id

  unfoldable pub steps : Catalog Columns → List (Operation Columns) → Catalog Columns
  unfolding step
  steps c [] = c
  steps c (o ∷ os) = steps (step c o) os

  step-generation :
      (c : Catalog Columns) (o : Operation Columns) (j : Text)
      → generation c j ≤ generation (step c o) j
  unfolding step generation
  step-generation c (learning id seen path columns now) j = ground arith
  step-generation c (forgetting id) j =
      ground (arith, get-insert c.forgotten id j (suc (generation c id)), text_eq_iff id j)

  steps-generation :
      (c : Catalog Columns) (os : List (Operation Columns)) (j : Text)
      → generation c j ≤ generation (steps c os) j
  unfolding steps
  steps-generation c [] j = omega arith
  steps-generation c (o ∷ os) j =
      omega (arith, step-generation c o j, steps-generation (step c o) os j)

  forget-generation :
      (c : Catalog Columns) (j : Text) → generation (forget c j) j ≡ suc (generation c j)
  unfolding forget generation
  forget-generation c j =
      ground (arith, get-insert c.forgotten j j (suc (generation c j)), text_eq_refl j)

  steps-forgetting :
      (c : Catalog Columns) (os : List (Operation Columns)) (j : Text)
      → Elem (forgetting j) os
      → generation c j < generation (steps c os) j
  unfolding steps step
  steps-forgetting c [] j h = absurd h
  steps-forgetting c (o ∷ os) j (inl q) =
      rw (sym q) (omega (arith, forget-generation c j, steps-generation (forget c j) os j))
  steps-forgetting c (o ∷ os) j (inr h) =
      omega (arith, step-generation c o j, steps-forgetting (step c o) os j h)

  -- A completion read the generation of a connection and asked its database about a table; meanwhile
  -- the connection was forgotten, among whatever else was learnt and forgotten. Then the answer is
  -- not kept, and the completion is told so.
  pub learn-forgotten :
      (c : Catalog Columns) (os : List (Operation Columns)) (id : Text) (path : TablePath)
      (columns : Option Columns) (now : ℕ)
      → Elem (forgetting id) os
      → learn (steps c os) id (generation c id) path columns now ≡ (false, steps c os)
  unfolding learn
  learn-forgotten c os id path columns now h = ground (arith, steps-forgetting c os id h)
