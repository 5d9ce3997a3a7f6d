-- ===== src/Bigquery/Estimate/Named.antt =====
-- A name is found exactly where it stands as a whole identifier.
use mathlib.Core.Bool.{true≢false}
use data_looker.Prelude.{
  ℕ, zero, suc, ◌-◌, ◌≡◌, ◌≢◌, refl, sym, ap, subst, ◌∙◌, ◌↔◌, ◌⊎◌, inl, inr, Bool, true, false,
  ◌||◌, Option, none, some, [], ◌∷◌, ◌++◌, length, take, take-length-append, All, arith, Bool-cases,
  Option-cases,
}
use data_looker.Text.{Text, to_lower, strip_prefix, strip_prefix-append}
use data_looker.Bigquery.Estimate.{lower, is_part, part, first_of, whole, skipped, matches, names}

-- The character before what follows a text.
abbrev pub last_or : Option ℕ → Text → Option ℕ
last_or before [] = before
last_or before (c ∷ s) = last_or (some c) s

-- The name stands in the text, its neighbours no part of an identifier.
abbrev pub StandsIn : Text → Option ℕ → Text → Type 0
StandsIn name before s =
    (a : Text) × (b : Text) × (s ≡ a ++ (name ++ b))
    × (part (last_or before a) ≡ false)
    × (part (first_of b) ≡ false)

abbrev pub IsWord : Text → Type 0
IsWord name = All (λ c. is_part c ≡ true) name

-- Inside a match, the characters that it is of are parts of an identifier.
abbrev pub Inside : ℕ → Option ℕ → Text → Type 0
Inside zero before s = Unit
Inside (suc k) before s = (part before ≡ true) × IsWord (take (suc k) s)

strip_prefix-some : (p s rest : Text) → strip_prefix p s ≡ some rest → s ≡ p ++ rest
unfolding strip_prefix
strip_prefix-some [] s rest h = ground (arith, h)
strip_prefix-some (c ∷ p) [] rest h = ground (arith, h)
strip_prefix-some (c ∷ p) (d ∷ s) rest h = ground (arith, h, strip_prefix-some p s rest)

Inside-next :
    (k c : ℕ) (before : Option ℕ) (s : Text) → Inside (suc k) before (c ∷ s) → Inside k (some c) s
Inside-next zero c before s i = tt
Inside-next (suc k) c before s (h, (p, w)) = (p, w)

Inside-tail :
    (tail rest : Text) (c : ℕ)
    → is_part c ≡ true
    → IsWord tail
    → Inside (length tail) (some c) (tail ++ rest)
Inside-tail [] rest c h w = tt
Inside-tail (t ∷ ts) rest c h w = (h, subst IsWord (sym (take-length-append (t ∷ ts) rest)) w)

or-true : (x y : Bool) → y ≡ true → (x || y) ≡ true
or-true x y h = ground (arith, h)

module _ (n : ℕ) (tail : Text) (word : IsWord (n ∷ tail)) where
  abbrev name : Text
  name = n ∷ tail

  -- What is left to skip behind a character, and the step itself.
  abbrev skips : ℕ → Text → ℕ
  skips c s = skipped name (strip_prefix name (c ∷ s))

  matches_step :
      (before : Option ℕ) (c : ℕ) (s : Text)
      → matches name zero before (c ∷ s)
        ≡ (whole before (strip_prefix name (c ∷ s)) || matches name (skips c s) (some c) s)
  unfolding matches
  matches_step before c s = refl

  matches_skip :
      (k : ℕ) (before : Option ℕ) (c : ℕ) (s : Text)
      → matches name (suc k) before (c ∷ s) ≡ matches name k (some c) s
  unfolding matches
  matches_skip k before c s = refl

  Inside-match :
      (c : ℕ) (s rest : Text) → c ∷ s ≡ name ++ rest → Inside (length name - 1) (some c) s
  Inside-match c s rest e =
      let k : length name - 1 ≡ length tail = omega arith in
      let h : c ≡ n = cc in
      let t : s ≡ tail ++ rest = cc in rw (k, h, t) (Inside-tail tail rest n word.0 word.1)

  Inside-after : (c : ℕ) (s : Text) → Inside (skips c s) (some c) s
  Inside-after c s = elim (Option-cases (strip_prefix name (c ∷ s))) [
    | inl e ↦ rw e tt
    | inr (rest, e) ↦ rw e (Inside-match c s rest (strip_prefix-some name (c ∷ s) rest e))
  ]

  whole-here :
      (before : Option ℕ) (b : Text)
      → part before ≡ false
      → part (first_of b) ≡ false
      → whole before (strip_prefix name (name ++ b)) ≡ true
  whole-here before b h g = rw (strip_prefix-append name b) (rw (h, g) refl)

  found :
      (k : ℕ) (before : Option ℕ) (a b : Text)
      → Inside k before (a ++ (name ++ b))
      → part (last_or before a) ≡ false
      → part (first_of b) ≡ false
      → matches name k before (a ++ (name ++ b)) ≡ true
  found (suc k) before [] b (i, _) h g = absurd (true≢false (sym i ∙ h))
  found zero before [] b i h g =
      matches_step before n (tail ++ b) ∙ rw (whole-here before b h g) refl
  found (suc k) before (c ∷ a) b i h g =
      matches_skip k before c (a ++ (name ++ b))
      ∙ found k (some c) a b (Inside-next k c before (a ++ (name ++ b)) i) h g
  found zero before (c ∷ a) b i h g =
      let s = a ++ (name ++ b) in
      matches_step before c s
      ∙ or-true (whole before (strip_prefix name (c ∷ s))) (matches name (skips c s) (some c) s)
          (found (skips c s) (some c) a b (Inside-after c s) h g)

  behind :
      (c : ℕ) (s : Text) (before : Option ℕ)
      → StandsIn name (some c) s
      → StandsIn name before (c ∷ s)
  behind c s before (a, b, e, p, q) = (c ∷ a, b, ap (λ l. c ∷ l) e, p, q)

  stands_here :
      (before : Option ℕ) (s rest : Text)
      → strip_prefix name s ≡ some rest
      → whole before (some rest) ≡ true
      → StandsIn name before s
  stands_here before s rest e w =
      ([], rest, strip_prefix-some name s rest e, ground (arith, w), ground (arith, w))

  whole-or :
      (before : Option ℕ) (c : ℕ) (s : Text) (later : Bool)
      → (whole before (strip_prefix name (c ∷ s)) || later) ≡ true
      → StandsIn name before (c ∷ s) ⊎ (later ≡ true)
  whole-or before c s later h = elim (Option-cases (strip_prefix name (c ∷ s))) [
    | inl e ↦ inr (rw e at h)
    | inr (rest, e) ↦ elim (Bool-cases (whole before (some rest))) [
      | inl w ↦ inl (stands_here before (c ∷ s) rest e w)
      | inr w ↦ inr (ground (arith, h, e, w))
    ]
  ]

  stands :
      (k : ℕ) (before : Option ℕ) (s : Text)
      → matches name k before s ≡ true
      → StandsIn name before s
  stands (suc k) before [] h = unfold matches in absurd (true≢false (sym h))
  stands (suc k) before (c ∷ s) h =
      behind c s before (stands k (some c) s (sym (matches_skip k before c s) ∙ h))
  stands zero before [] h = unfold matches in absurd (true≢false (sym h))
  stands zero before (c ∷ s) h =
      elim (whole-or before c s (matches name (skips c s) (some c) s)
        (sym (matches_step before c s) ∙ h)) [
          | inl here ↦ here
          | inr later ↦ behind c s before (stands (skips c s) (some c) s later)
        ]

-- A name of letters, digits and underscores is said to be in a statement exactly where it stands in
-- it as a whole identifier, in any case: with no such character on either side.
pub names-StandsIn :
    (sql column : Text)
    → IsWord (lower column)
    → column ≢ []
    → (names sql column ≡ true) ↔ StandsIn (lower column) none (lower sql)
unfolding names
names-StandsIn sql [] w h = absurd (h refl)
names-StandsIn sql (c ∷ s) w h = (
  λ e. stands (to_lower c) (lower s) w 0 none (lower sql) e,
  λ (a, b, q, p, r). rw q (found (to_lower c) (lower s) w 0 none a b tt p r),
)
