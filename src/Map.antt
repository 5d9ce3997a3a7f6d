-- ===== src/Map.antt =====
-- `HashMap` as an association list over keys with a decidable equality, its laws in the form that
-- `simp` and `ground` use. No operation modelled here depends on the order of the entries.
use data_looker.Prelude.{
  ℕ, ◌≡◌, refl, ◌↔◌, Bool, true, false, Option, none, some, List, [], ◌∷◌, arith, if◌then◌else◌,
  Bool-cases, inl, inr,
}
use data_looker.Text.{Text, text_eq, text_eq_iff}

-- `Eq`: a test for equality that is right.
pub record Eq {ℓ} (A : Type ℓ) : Type ℓ where
  pub beq : A → A → Bool
  pub beq_iff : (a b : A) → (beq a b ≡ true) ↔ (a ≡ b)

instance abbrev pub text_is_eq : Eq Text
text_is_eq = record { beq = text_eq; beq_iff = text_eq_iff }

infix 50 ◌=?◌
abbrev pub ◌=?◌ {ℓ} : {A : Type ℓ} ⦃e : Eq A⦄ → A → A → Bool
◌=?◌ ⦃e⦄ = e.beq

abbrev pub Map {ℓ κ} : Type ℓ → Type κ → Type (ℓ ⊔ κ)
Map K V = List (K × V)

pub =?_refl {ℓ} : {K : Type ℓ} ⦃e : Eq K⦄ (k : K) → (k =? k) ≡ true
=?_refl ⦃e⦄ k = (e.beq_iff k k).1 refl

module _ {ℓ κ} {K : Type ℓ} {V : Type κ} ⦃e : Eq K⦄ where
  unfoldable pub get : Map K V → K → Option V
  get [] k = none
  get ((j, v) ∷ m) k = if j =? k then some v else get m k

  unfoldable pub remove : Map K V → K → Map K V
  remove [] k = []
  remove ((j, v) ∷ m) k = let rest = remove m k in if j =? k then rest else (j, v) ∷ rest

  unfoldable pub insert : Map K V → K → V → Map K V
  unfolding remove
  insert m k v = (k, v) ∷ remove m k

  -- `retain` by a test on the key.
  unfoldable pub retain : (K → Bool) → Map K V → Map K V
  retain p [] = []
  retain p ((j, v) ∷ m) = let rest = retain p m in if p j then (j, v) ∷ rest else rest

  pub get-remove : (m : Map K V) (k j : K) → get (remove m k) j ≡ (if k =? j then none else get m j)
  unfolding get remove
  get-remove [] k j = ground arith
  get-remove ((i, v) ∷ m) k j =
      ground (arith, get-remove m k j, e.beq_iff i k, e.beq_iff i j, e.beq_iff k j)

  pub get-insert :
      (m : Map K V) (k j : K) (v : V) → get (insert m k v) j ≡ (if k =? j then some v else get m j)
  unfolding get insert
  get-insert m k j v = ground (arith, get-remove m k j)

  pub get-retain :
      (p : K → Bool) (m : Map K V) (j : K) → get (retain p m) j ≡ (if p j then get m j else none)
  unfolding get retain
  get-retain p [] j = ground arith
  get-retain p ((i, v) ∷ m) j = elim (Bool-cases (i =? j)) [
    | inl hit ↦ rw ((e.beq_iff i j).0 hit) (ground (arith, get-retain p m j, =?_refl j))
    | inr miss ↦ ground (arith, get-retain p m j)
  ]

module _ {ℓ κ} {K : Type ℓ} {V : Type κ} ⦃e : Eq K⦄ where
  pub insert-hit : (m : Map K V) (k : K) (v : V) → get (insert m k v) k ≡ some v
  insert-hit m k v = ground (arith, get-insert m k k v, =?_refl k)

  pub insert-miss :
      (m : Map K V) (k j : K) (v : V) → (k =? j) ≡ false → get (insert m k v) j ≡ get m j
  insert-miss m k j v h = ground (arith, get-insert m k j v)

-- `contains_key`, and a count that `entry().or_default()` starts at 0.
abbrev pub is_some {ℓ} : {A : Type ℓ} → Option A → Bool
is_some none = false
is_some (some a) = true

abbrev pub or_default : Option ℕ → ℕ
or_default none = 0
or_default (some n) = n

pub ruleset map_laws = (get-remove, get-insert, get-retain)
