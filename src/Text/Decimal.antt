-- ===== src/Text/Decimal.antt =====
-- Decimal numbers: what `Display` of an unsigned integer writes and `str::parse::<usize>` reads.
use mathlib.Core.WellFounded.{Acc, WellFounded, Acc-prop, induction}
use mathlib.Core.Logic.{ite, dite, if_pos, if_neg}
use native.Mathlib.Decide.{dec_lt}
use data_looker.Prelude.{
  ℕ, zero, suc, ◌+◌, ◌-◌, ◌*◌, ◌/◌, ◌%◌, ◌^◌, ◌≤◌, ◌<◌, ◌≡◌, refl, sym, ap, subst, ◌∙◌, ◌||◌,
  Option, none, some, List, [], ◌∷◌, arith, ltb, ◌==◌, if◌then◌else◌, All,
}

abbrev pub usize_max : ℕ
usize_max = 2 ^ 64 - 1

Acc-below : (k n : ℕ) → n < k → Acc ◌<◌ n
Acc-below zero n h = elim h [ ]
Acc-below (suc k) n h = Acc.intro n (λ m hm. Acc-below k m (omega arith))

unfoldable pub lt_wf : WellFounded ◌<◌
unfolding Acc-below
lt_wf = record { apply = λ n. Acc-below (suc n) n (omega arith) }

abbrev pub tenth_lt : {n : ℕ} → 9 < n → n / 10 < n
tenth_lt h = omega arith

-- The digits of `n`, the last one in front of `out` first.
write_digits : (n : ℕ) → Acc ◌<◌ n → List ℕ → List ℕ
write_digits n (Acc.intro _ smaller) out =
    dite (dec_lt 9 n)
      (λ h. write_digits (n / 10) (smaller (n / 10) (tenth_lt h)) ((b'0' + n % 10) ∷ out))
      (λ _. (b'0' + n) ∷ out)

-- `n.to_string()`.
unfoldable pub to_text : ℕ → List ℕ
unfolding write_digits lt_wf dec_lt
to_text n = write_digits n (lt_wf.apply n) []

-- A digit that takes the number past `usize::MAX` is an error, as is any other character.
unfoldable pub read_digits : List ℕ → ℕ → Option ℕ
read_digits [] n = some n
read_digits (c ∷ s) n =
    let next = n * 10 + (c - b'0') in
    let rest = read_digits s next in
    if ltb c b'0' || ltb b'9' c then none else if ltb usize_max next then none else rest

-- `parse::<usize>`: one `+` may lead, and there has to be a digit.
unfoldable pub parse_usize : List ℕ → Option ℕ
unfolding read_digits
parse_usize [] = none
parse_usize (c ∷ []) = if c == b'+' then none else read_digits (c ∷ []) 0
parse_usize (c ∷ d ∷ s) = if c == b'+' then read_digits (d ∷ s) 0 else read_digits (c ∷ d ∷ s) 0

abbrev pub IsDigit : ℕ → Type 0
IsDigit c = (b'0' ≤ c) × (c ≤ b'9')

write_step :
    (n : ℕ) (w : Acc ◌<◌ n) (w' : Acc ◌<◌ (n / 10)) (out : List ℕ)
    → write_digits n w out
      ≡ ite (dec_lt 9 n) (write_digits (n / 10) w' ((b'0' + n % 10) ∷ out)) ((b'0' + n) ∷ out)
unfolding write_digits
write_step n (Acc.intro _ smaller) w' out = λ i.
    dite (dec_lt 9 n)
      (λ h.
        write_digits (n / 10) (Acc-prop (smaller (n / 10) (tenth_lt h)) w' i)
          ((b'0' + n % 10) ∷ out))
      (λ _. (b'0' + n) ∷ out)

abbrev digits : ℕ → List ℕ → List ℕ
digits n out = write_digits n (lt_wf.apply n) out

digits_step :
    (n : ℕ) (out : List ℕ)
    → digits n out ≡ ite (dec_lt 9 n) (digits (n / 10) ((b'0' + n % 10) ∷ out)) ((b'0' + n) ∷ out)
digits_step n out = write_step n _ _ out

read_last :
    (n : ℕ) (out : List ℕ)
    → n ≤ usize_max
    → read_digits ((b'0' + n % 10) ∷ out) (n / 10) ≡ read_digits out n
unfolding read_digits
read_last n out h = ground arith

read-digits :
    (n : ℕ) (out : List ℕ) → n ≤ usize_max → read_digits (digits n out) 0 ≡ read_digits out n
read-digits n =
    induction lt_wf
      {C = λ m. (out : List ℕ) → m ≤ usize_max → read_digits (digits m out) 0 ≡ read_digits out m} n
      λ m ih out fits. grind (arith, digits_step m out, read_last m out fits, ih (m / 10))

digits-IsDigit : (n : ℕ) (out : List ℕ) → All IsDigit out → All IsDigit (digits n out)
digits-IsDigit n =
    induction lt_wf {C = λ m. (out : List ℕ) → All IsDigit out → All IsDigit (digits m out)} n
      λ m ih out h. step m ih out h
  where
    step :
        (m : ℕ)
        (ih : (k : ℕ) → k < m → (out : List ℕ) → All IsDigit out → All IsDigit (digits k out))
        (out : List ℕ)
        → All IsDigit out
        → All IsDigit (digits m out)
    step m ih out h = rw digits_step (elim (dec_lt 9 m) [
      | yes p ↦ rw (if_pos _ p) (ih (m / 10) (omega arith) _ ((omega arith, omega arith), h))
      | no p ↦ rw (if_neg _ p) ((omega arith, omega arith), h)
    ])

-- What is written for a number is digits.
pub to_text-IsDigit : (n : ℕ) → All IsDigit (to_text n)
unfolding to_text
to_text-IsDigit n = digits-IsDigit n [] tt

digits-cons : (n : ℕ) (out : List ℕ) → (c : ℕ) × (s : List ℕ) × (digits n out ≡ c ∷ s)
digits-cons n =
    induction lt_wf {C = λ m. (out : List ℕ) → (c : ℕ) × (s : List ℕ) × (digits m out ≡ c ∷ s)} n
      λ m ih out. elim (dec_lt 9 m) [
        | yes p ↦ rw (digits_step m out, if_pos _ p) (ih (m / 10) (omega arith) _)
        | no p ↦ rw (digits_step m out, if_neg _ p) (b'0' + m, out, refl)
      ]

pub to_text-cons : (n : ℕ) → (c : ℕ) × (s : List ℕ) × (to_text n ≡ c ∷ s)
unfolding to_text
to_text-cons n = digits-cons n []

parse-read : (c : ℕ) (s : List ℕ) → IsDigit c → parse_usize (c ∷ s) ≡ read_digits (c ∷ s) 0
unfolding parse_usize
parse-read c [] h = ground arith
parse-read c (d ∷ s) h = ground arith

-- Every `usize` is read back from what is written for it.
pub parse-to_text : (n : ℕ) → n ≤ usize_max → parse_usize (to_text n) ≡ some n
parse-to_text n h =
    let (c, s, e) = to_text-cons n in
    let d : All IsDigit (c ∷ s) = subst (All IsDigit) e (to_text-IsDigit n) in
    e' c s e ∙ parse-read c s d.0 ∙ ap (λ t. read_digits t 0) (sym e) ∙ back
  where
    e' : (c : ℕ) (s : List ℕ) → to_text n ≡ c ∷ s → parse_usize (to_text n) ≡ parse_usize (c ∷ s)
    e' c s e = ap parse_usize e

    back : read_digits (to_text n) 0 ≡ some n
    back = unfold to_text in read-digits n [] h ∙ unfold read_digits in refl
