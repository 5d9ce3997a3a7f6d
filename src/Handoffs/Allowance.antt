-- ===== src/Handoffs/Allowance.antt =====
-- No minute has more than five handoffs.
use data_looker.Prelude.{
  ℕ, zero, suc, ◌+◌, ◌-◌, ◌≤◌, ◌≡◌, some, List, [], ◌∷◌, ◌++◌, leb, length, get_elem?, All, arith,
  refl, sym, ap, ◌∙◌, inl, inr, Bool-cases, subst,
}
use data_looker.Handoffs.{at_most, within, pop_expired, admit, admits}

-- The list backwards, and what is before it.
abbrev pub onto : List ℕ → List ℕ → List ℕ
onto [] older = older
onto (x ∷ xs) older = onto xs (x ∷ older)

abbrev pub Expired : ℕ → List ℕ → Type 0
Expired now older = All (λ at. at + within ≤ now) older

-- The fifth before each, when there are so many, is at least `within` older.
abbrev pub Spaced : List ℕ → Type 0
Spaced [] = Unit
Spaced (now ∷ past) = ((at : ℕ) → get_elem? past 4 ≡ some at → at + within ≤ now) × Spaced past

abbrev pub Ordered : ℕ → List ℕ → Type 0
Ordered now [] = Unit
Ordered now (t ∷ ts) = (now ≤ t) × Ordered t ts

Expired-later :
    (now later : ℕ) (older : List ℕ) → now ≤ later → Expired now older → Expired later older
Expired-later now later [] h e = tt
Expired-later now later (x ∷ xs) h (p, e) = (omega arith, Expired-later now later xs h e)

-- Popping moves what it pops to the older ones.
pop-onto :
    (now : ℕ) (handed older : List ℕ)
    → Expired now older
    → (gone : List ℕ) × (onto handed older ≡ onto (pop_expired now handed) gone) × Expired now gone
unfolding pop_expired
pop-onto now [] older e = (older, refl, e)
pop-onto now (x ∷ xs) older e = elim (Bool-cases (leb within (now - x))) [
  | inl h ↦
      let (gone, p, q) = pop-onto now xs (x ∷ older) (ground arith, e) in
      (gone, ground (arith, p), q)
  | inr h ↦ (older, ground arith, e)
]

get-onto :
    (kept older : List ℕ) (j : ℕ)
    → get_elem? (onto kept older) (length kept + j) ≡ get_elem? older j
get-onto [] older j = ap (get_elem? older) (omega arith)
get-onto (x ∷ xs) older j =
    ap (get_elem? (onto xs (x ∷ older))) (shift (length xs) j) ∙ get-onto xs (x ∷ older) (suc j)
  where
    shift : (n m : ℕ) → suc n + m ≡ n + suc m
    shift n m = omega arith

get-Expired :
    (now : ℕ) (older : List ℕ) (j at : ℕ)
    → Expired now older
    → get_elem? older j ≡ some at
    → at + within ≤ now
get-Expired now [] j at e k = ground arith
get-Expired now (x ∷ xs) zero at (p, e) k = ground arith
get-Expired now (x ∷ xs) (suc j) at (p, e) k = get-Expired now xs j at e k

-- Among fewer than five kept, the fifth back is an older one.
fifth :
    (now : ℕ) (kept older : List ℕ) (at : ℕ)
    → length kept ≤ 4
    → Expired now older
    → get_elem? (onto kept older) 4 ≡ some at
    → at + within ≤ now
fifth now kept older at h e k =
    get-Expired now older (4 - length kept) at e
      (sym (get-onto kept older (4 - length kept)) ∙ (ap (get_elem? (onto kept older)) back ∙ k))
  where
    back : length kept + (4 - length kept) ≡ 4
    back = omega arith

onto-append :
    (kept : List ℕ) (now : ℕ) (older : List ℕ)
    → onto (kept ++ now ∷ []) older ≡ now ∷ onto kept older
onto-append [] now older = refl
onto-append (x ∷ xs) now older = onto-append xs now (x ∷ older)

admits-Spaced :
    (times handed past gone : List ℕ) (before : ℕ)
    → Ordered before times
    → past ≡ onto handed gone
    → Expired before gone
    → Spaced past
    → Spaced (admits handed past times)
unfolding admits admit
admits-Spaced [] handed past gone before o p e s = s
admits-Spaced (now ∷ times) handed past gone before (h, o) p e s =
    let (gone', q, e') = pop-onto now handed gone (Expired-later before now gone h e) in
    elim (Bool-cases (leb at_most (length (pop_expired now handed)))) [
      | inl full ↦
          rw full (admits-Spaced times (pop_expired now handed) past gone' now o (p ∙ q) e' s)
      | inr room ↦ rw room (
          admits-Spaced times (pop_expired now handed ++ now ∷ []) (now ∷ past) gone' now o
            (ap (λ l. now ∷ l) (p ∙ q) ∙ sym (onto-append (pop_expired now handed) now gone')) e'
            (
              (λ at k.
                  fifth now (pop_expired now handed) gone' at (ground arith) e'
                    (subst (λ l. get_elem? l 4 ≡ some at) (p ∙ q) k)),
              s,
            ))
    ]

-- Whenever the handoffs are attempted, as long as the clock does not go back, each one that is let
-- through is at least a minute later than the fifth one let through before it: no minute has more
-- than five.
pub admits-five_a_minute : (times : List ℕ) → Ordered 0 times → Spaced (admits [] [] times)
admits-five_a_minute times o = admits-Spaced times [] [] [] 0 o refl tt tt
