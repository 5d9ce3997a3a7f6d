-- ===== src/Bigquery/Words/Quoted.antt =====
-- The lexer steps over what `quote` writes: a quoted name holds no words and ends no statement.
use data_looker.Prelude.{
  ℕ, zero, suc, ◌+◌, ◌-◌, ◌≡◌, ◌≢◌, refl, sym, ap, subst, ◌∙◌, not, List, [], ◌∷◌, ◌++◌, map, arith,
  length, take, select, length-append, append_assoc, drop-length-append,
}
use data_looker.Text.{Text, to_upper}
use data_looker.Bigquery.Quote.{escape, quote}
use data_looker.Bigquery.Words.{
  Token, Kind, nothing, word, semicolon, quoted_rest, quoted, round, emit, tokens_at, tokens, slice,
  words,
}

quoted_rest-plain :
    (q c : ℕ) (l : Text) → c ≢ b'\\' → c ≢ q → quoted_rest q (c ∷ l) ≡ suc (quoted_rest q l)
unfolding quoted_rest
quoted_rest-plain q c [] h k = refl
quoted_rest-plain q c (d ∷ l) h k = ground arith

quoted_rest-close : (q : ℕ) (l : Text) → q ≢ b'\\' → quoted_rest q (q ∷ l) ≡ 1
unfolding quoted_rest
quoted_rest-close q [] h = refl
quoted_rest-close q (d ∷ l) h = ground arith

quoted_rest-escaped :
    (q c : ℕ) (l : Text) → quoted_rest q (b'\\' ∷ c ∷ l) ≡ suc (suc (quoted_rest q l))
unfolding quoted_rest
quoted_rest-escaped q c l = refl

quoted_rest-escape :
    (name rest : Text) → quoted_rest b'`' (escape name ++ b'`' ∷ rest) ≡ suc (length (escape name))
unfolding escape
quoted_rest-escape [] rest = quoted_rest-close b'`' rest (omega arith)
quoted_rest-escape (c ∷ name) rest =
    let l = escape name ++ b'`' ∷ rest in
    ground (
      arith,
      quoted_rest-plain b'`' c l,
      quoted_rest-escaped b'`' c l,
      quoted_rest-escape name rest,
    )

-- What the lexer takes for a quoted name is what `quote` wrote, and no more, whatever the name
-- holds and whatever follows it.
pub quoted-quote : (name rest : Text) → quoted b'`' (quote name ++ rest) ≡ length (quote name)
unfolding quoted quote
quoted-quote name rest =
    simp append_assoc
      (omega (arith, quoted_rest-escape name rest, length-append (escape name) (b'`' ∷ [])))

-- The words of what is left at a position, with no positions.
bare_emit : Kind → Text → List Text → List Text
bare_emit nothing w rest = rest
bare_emit word w rest = w ∷ rest
bare_emit semicolon w rest = rest

bare : ℕ → Text → List Text
unfolding bare_emit
bare skip [] = []
bare (suc skip) (c ∷ s) = bare skip s
bare zero (c ∷ s) = let (n, kind) = round c s in bare_emit kind (take n (c ∷ s)) (bare (n - 1) s)

abbrev read_from : Text → List Token → List Text
read_from text ts = map (λ t. slice text t.start t.end) (select (λ t. not t.semicolon) ts)

slice-append :
    (before s : Text) (n : ℕ) → slice (before ++ s) (length before) (length before + n) ≡ take n s
slice-append before s n = rw drop-length-append (ap (λ k. take k s) (omega arith))

read_from-emit :
    (before : Text) (c : ℕ) (s : Text) (n : ℕ) (kind : Kind) (rest : List Token) (ws : List Text)
    → read_from (before ++ c ∷ s) rest ≡ ws
    → read_from (before ++ c ∷ s) (emit kind (length before) (length before + n) rest)
      ≡ bare_emit kind (take n (c ∷ s)) ws
unfolding bare_emit
read_from-emit before c s n nothing rest ws h = h
read_from-emit before c s n word rest ws h = ground (arith, slice-append before (c ∷ s) n)
read_from-emit before c s n semicolon rest ws h = h

-- One character further.
shift :
    (before : Text) (c : ℕ) (s : Text) (skip : ℕ) (ws : List Text)
    → read_from ((before ++ c ∷ []) ++ s) (tokens_at (length (before ++ c ∷ [])) skip s) ≡ ws
    → read_from (before ++ c ∷ s) (tokens_at (suc (length before)) skip s) ≡ ws
shift before c s skip ws h =
    subst (λ t. read_from t (tokens_at (suc (length before)) skip s) ≡ ws)
      (append_assoc before (c ∷ []) s)
      (subst (λ k. read_from ((before ++ c ∷ []) ++ s) (tokens_at k skip s) ≡ ws)
        (omega (arith, length-append before (c ∷ []))) h)

read_from-tokens_at :
    (s before : Text) (skip : ℕ)
    → read_from (before ++ s) (tokens_at (length before) skip s) ≡ bare skip s
unfolding tokens_at bare
read_from-tokens_at [] before zero = refl
read_from-tokens_at [] before (suc skip) = refl
read_from-tokens_at (c ∷ s) before (suc skip) =
    shift before c s skip _ (read_from-tokens_at s (before ++ c ∷ []) skip)
read_from-tokens_at (c ∷ s) before zero =
    let (n, kind) = round c s in
    read_from-emit before c s n kind _ _
      (shift before c s (n - 1) _ (read_from-tokens_at s (before ++ c ∷ []) (n - 1)))

upper-read_from :
    (text : Text) (ts : List Token)
    → map (λ t. map to_upper (slice text t.start t.end)) (select (λ t. not t.semicolon) ts)
      ≡ map (map to_upper) (read_from text ts)
upper-read_from text [] = refl
upper-read_from text (t ∷ ts) = ground (arith, upper-read_from text ts)

words-bare : (text : Text) → words text ≡ map (map to_upper) (bare 0 text)
unfolding words tokens
words-bare text =
    upper-read_from text (tokens_at 0 0 text)
    ∙ ap (map (map to_upper)) (read_from-tokens_at text [] 0)

bare-skip : (before s : Text) → bare (length before) (before ++ s) ≡ bare 0 s
unfolding bare
bare-skip [] s = refl
bare-skip (c ∷ before) s = bare-skip before s

round-quote :
    (name rest : Text)
    → round b'`' (escape name ++ b'`' ∷ [] ++ rest) ≡ (length (quote name), nothing)
unfolding round quote
round-quote name rest = ground (arith, quoted-quote name rest)

bare-quote : (name rest : Text) → bare 0 (quote name ++ rest) ≡ bare 0 rest
unfolding quote bare
bare-quote name rest =
    let inside = escape name ++ b'`' ∷ [] in
    let back : length (quote name) - 1 ≡ length inside = unfold quote in omega arith in
    rw (round-quote name rest, back) (bare-skip inside rest)

-- A quoted name holds no words, whatever it is made of, and the text behind it is read as if it
-- stood alone: nothing in a name reads as a `DROP`, and no name hides one.
pub words-quote : (name rest : Text) → words (quote name ++ rest) ≡ words rest
words-quote name rest =
    words-bare (quote name ++ rest)
    ∙ ap (map (map to_upper)) (bare-quote name rest)
    ∙ sym (words-bare rest)
