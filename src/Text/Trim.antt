-- ===== src/Text/Trim.antt =====
-- What trimming leaves of a text whose ends are known.
use mathlib.Core.List.{reverse, reverse-append, reverse-reverse}
use data_looker.Prelude.{
  ℕ, ◌≡◌, ◌≢◌, refl, sym, ap, subst, ◌∙◌, Bool, true, false, [], ◌∷◌, ◌++◌, arith, All, All-append,
  append-nil,
}
use data_looker.Text.{Text, skip_while, trim_end_matches, trim_end, trim, is_whitespace}
use data_looker.Text.Decimal.{IsDigit}

module _ (p : ℕ → Bool) where
  abbrev pub Fails : ℕ → Type 0
  Fails c = p c ≡ false

  abbrev pub Passes : ℕ → Type 0
  Passes c = p c ≡ true

  pub skip_while-stop : (l m : Text) → l ≢ [] → All Fails l → skip_while p (l ++ m) ≡ l ++ m
  unfolding skip_while
  skip_while-stop [] m h a = absurd (h refl)
  skip_while-stop (c ∷ l) m h a = ground arith

  skip_while-All : (d : Text) → d ≢ [] → All Fails d → skip_while p d ≡ d
  skip_while-All d h a = subst (λ l. skip_while p l ≡ l) (append-nil d) (skip_while-stop d [] h a)

  pub skip_while-append : (l m : Text) → All Passes l → skip_while p (l ++ m) ≡ skip_while p m
  unfolding skip_while
  skip_while-append [] m a = refl
  skip_while-append (c ∷ l) m a = ground (arith, skip_while-append l m a.1)

module _ (P : ℕ → Type 0) where
  All-reverse : (l : Text) → All P l → All P (reverse l)
  All-reverse [] a = tt
  All-reverse (c ∷ l) a =
      rw (reverse-append (c ∷ []) l)
        (All-append P (reverse l) (c ∷ []) (All-reverse l a.1) (a.0, tt))

reverse-ne-nil : (l : Text) → l ≢ [] → reverse l ≢ []
reverse-ne-nil l h e = h (sym (reverse-reverse l) ∙ ap reverse e)

-- What the test holds of at the end goes, and nothing before a character that it fails of.
pub trim_end_matches-append :
    (p : ℕ → Bool) (x d e : Text)
    → d ≢ []
    → All (Fails p) d
    → All (Passes p) e
    → trim_end_matches p ((x ++ d) ++ e) ≡ x ++ d
unfolding trim_end_matches
trim_end_matches-append p x d e h fails passes =
    rw
      (
        reverse-append (x ++ d) e,
        skip_while-append p (reverse e) (reverse (x ++ d)) (All-reverse (Passes p) e passes),
        reverse-append x d,
        skip_while-stop p (reverse d) (reverse x) (reverse-ne-nil d h)
            (All-reverse (Fails p) d fails),
        ← reverse-append x d,
      )
      (reverse-reverse (x ++ d))

-- A text of spaces in front of a text with no white space.
pub trim-append :
    (s d : Text)
    → d ≢ []
    → All (Passes is_whitespace) s
    → All (Fails is_whitespace) d
    → trim (s ++ d) ≡ d
unfolding trim trim_end
trim-append s d h spaces fails =
    rw (skip_while-append is_whitespace s d spaces, skip_while-All is_whitespace d h fails)
      (rw append-nil at (trim_end_matches-append is_whitespace [] d [] h fails tt))

pub digits-Fails : (d : Text) → All IsDigit d → All (Fails is_whitespace) d
unfolding is_whitespace
digits-Fails [] h = tt
digits-Fails (c ∷ d) h = (ground arith, digits-Fails d h.1)
