-- ===== src/Bigquery/Schema/Literals.antt =====
-- What a literal of `TABLE_OPTIONS` says is what GoogleSQL documents of it.
use mathlib.Core.List.{reverse, reverse-append, reverse-reverse}
use data_looker.Prelude.{ℕ, ◌≡◌, ◌≢◌, refl, ap, ◌∙◌, false, some, [], ◌∷◌, ◌++◌, ◌==◌, arith}
use data_looker.Text.{Text, strip_prefix-append}
use data_looker.Bigquery.Schema.{strip_last, escaped, unescaped, inner, unescaped_or, unquoted}

-- What GoogleSQL documents of the escapes of one character that are read here: the character behind
-- the backslash, and what they stand for. `\a`, `\b`, `\f`, `\v` and the escapes by number are not among
-- them.
pub data Escape : ℕ → ℕ → Type 0 where
  newline : (c m : ℕ) → c ≡ b'n' → m ≡ 10 → Escape c m
  carriage_return : (c m : ℕ) → c ≡ b'r' → m ≡ 13 → Escape c m
  tab : (c m : ℕ) → c ≡ b't' → m ≡ 9 → Escape c m
  backslash : (c m : ℕ) → c ≡ 92 → m ≡ 92 → Escape c m
  question_mark : (c m : ℕ) → c ≡ 63 → m ≡ 63 → Escape c m
  double_quote : (c m : ℕ) → c ≡ 34 → m ≡ 34 → Escape c m
  single_quote : (c m : ℕ) → c ≡ 39 → m ≡ 39 → Escape c m
  backtick : (c m : ℕ) → c ≡ 96 → m ≡ 96 → Escape c m

-- What is written between the quotes of a literal, and what that says.
pub data Says : Text → Text → Type 0 where
  says_nothing : Says [] []
  plain : (c : ℕ) (s t : Text) → c ≢ 92 → Says s t → Says (c ∷ s) (c ∷ t)
  escape : (c m : ℕ) (s t : Text) → Escape c m → Says s t → Says (92 ∷ c ∷ s) (m ∷ t)

-- The literal of what is between double quotes.
abbrev pub literal : Text → Text
literal s = b'"' ∷ (s ++ b'"' ∷ [])

escaped-Escape : (c m : ℕ) → Escape c m → escaped c ≡ m
escaped-Escape d e (newline c m p q) = ground arith
escaped-Escape d e (carriage_return c m p q) = ground arith
escaped-Escape d e (tab c m p q) = ground arith
escaped-Escape d e (backslash c m p q) = ground arith
escaped-Escape d e (question_mark c m p q) = ground arith
escaped-Escape d e (double_quote c m p q) = ground arith
escaped-Escape d e (single_quote c m p q) = ground arith
escaped-Escape d e (backtick c m p q) = ground arith

unescaped-plain : (c : ℕ) (s : Text) → (c == b'\\') ≡ false → unescaped (c ∷ s) ≡ c ∷ unescaped s
unfolding unescaped
unescaped-plain c [] h = refl
unescaped-plain c (d ∷ s) h = rw h refl

unescaped-backslash : (d : ℕ) (s : Text) → unescaped (b'\\' ∷ d ∷ s) ≡ escaped d ∷ unescaped s
unfolding unescaped
unescaped-backslash d s = refl

unescaped-Says : (s t : Text) → Says s t → unescaped s ≡ t
unescaped-Says s t says_nothing = unfold unescaped in refl
unescaped-Says s t (plain c u v h r) =
    let p : (c == b'\\') ≡ false = ground arith in
    unescaped-plain c u p ∙ ap (λ l. c ∷ l) (unescaped-Says u v r)
unescaped-Says s t (escape c m u v h r) =
    unescaped-backslash c u ∙ pair (escaped-Escape c m h) (unescaped-Says u v r)
  where
    pair : {a b : ℕ} {x y : Text} → a ≡ b → x ≡ y → a ∷ x ≡ b ∷ y
    pair p q = λ i. p i ∷ q i

strip_last-append : (s : Text) (c : ℕ) → strip_last c (reverse (s ++ c ∷ [])) ≡ some s
strip_last-append s c = rw (reverse-append s (c ∷ [])) (ground (arith, reverse-reverse s))

-- A description in double quotes is read as what GoogleSQL documents that its literal says, if its
-- escapes are those of a new line, a carriage return, a tab, a backslash, a question mark, a quote of
-- either kind or a backtick, each of which may also be written as it is but the backslash.
pub unquoted-Says : (s t : Text) → Says s t → unquoted (literal s) ≡ t
unfolding unquoted
unquoted-Says s t says =
    ap (λ o. unescaped_or (literal s) (inner o)) (strip_prefix-append (b'"' ∷ []) (s ++ b'"' ∷ []))
    ∙ ap (unescaped_or (literal s)) (strip_last-append s b'"')
    ∙ unescaped-Says s t says
