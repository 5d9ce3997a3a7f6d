-- ===== src/Postgres/Quote/RoundTrip.antt =====
-- PostgreSQL reads a quoted name and an escape string back as they were.
use data_looker.Prelude.{
  ℕ, ◌≡◌, ◌≢◌, refl, Option, none, some, [], ◌∷◌, ◌++◌, arith, ◌==◌, if◌then◌else◌, append_assoc,
}
use data_looker.Text.{Text, replace}
use data_looker.Postgres.Quote.{quote, literal}

abbrev with_char : ℕ → Option (Text × Text) → Option (Text × Text)
with_char c none = none
with_char c (some (s, rest)) = some (c ∷ s, rest)

-- The rest of a quoted identifier, as PostgreSQL documents it: a doubled quote is one quote, and a
-- single one ends it. `held` says that the last character was a quote not yet decided on.
unfoldable pub read_name : Text → Option (Text × Text)
read_name [] = none
read_name (c ∷ []) = if c == b'"' then some ([], []) else none
read_name (c ∷ d ∷ s) =
    let doubled = with_char b'"' (read_name s) in
    let further = with_char c (read_name (d ∷ s)) in
    if c == b'"' then (if d == b'"' then doubled else some ([], d ∷ s)) else further

-- An identifier in front of a text.
unfoldable pub read_identifier : Text → Option (Text × Text)
unfolding read_name
read_identifier [] = none
read_identifier (c ∷ s) = if c == b'"' then read_name s else none

-- The rest of an escape string: a backslash keeps the backslash or the quote behind it, a doubled
-- quote is one quote, and a single one ends it. Other escapes are not in question here.
unfoldable pub read_string : Text → Option (Text × Text)
read_string [] = none
read_string (c ∷ []) = if c == b'\'' then some ([], []) else none
read_string (c ∷ d ∷ s) =
    let escaped = with_char d (read_string s) in
    let further = with_char c (read_string (d ∷ s)) in
    if c == b'\\'
    then (if d == b'\\' then escaped else if d == b'\'' then escaped else none)
    else if c == b'\''
    then (if d == b'\'' then escaped else some ([], d ∷ s))
    else further

-- What cannot be taken for the second of two quotes.
abbrev pub Follows : ℕ → Text → Type 0
Follows quote [] = Unit
Follows quote (c ∷ s) = c ≢ quote

read_name-plain : (c : ℕ) (s : Text) → c ≢ b'"' → read_name (c ∷ s) ≡ with_char c (read_name s)
unfolding read_name
read_name-plain c [] h = ground arith
read_name-plain c (d ∷ s) h = ground arith

read_name-close : (rest : Text) → Follows b'"' rest → read_name (b'"' ∷ rest) ≡ some ([], rest)
unfolding read_name
read_name-close [] h = refl
read_name-close (c ∷ rest) h = ground arith

read_name-replace :
    (name rest : Text)
    → Follows b'"' rest
    → read_name (replace b'"' (b'"' ∷ b'"' ∷ []) name ++ b'"' ∷ rest) ≡ some (name, rest)
unfolding replace
read_name-replace [] rest h = read_name-close rest h
read_name-replace (c ∷ name) rest h =
    let l = replace b'"' (b'"' ∷ b'"' ∷ []) name ++ b'"' ∷ rest in
    ground (arith, read_name-plain c l, doubled l, read_name-replace name rest h)
  where
    doubled : (l : Text) → read_name (b'"' ∷ b'"' ∷ l) ≡ with_char b'"' (read_name l)
    doubled l = unfold read_name in refl

-- PostgreSQL reads a quoted name back as the name, whatever it holds, and goes on behind it, unless
-- another quote follows at once.
pub read_identifier-quote :
    (name rest : Text)
    → Follows b'"' rest
    → read_identifier (quote name ++ rest) ≡ some (name, rest)
unfolding read_identifier quote
read_identifier-quote name rest h = simp append_assoc (read_name-replace name rest h)

abbrev escaped : Text → Text
escaped text = replace b'\'' (b'\'' ∷ b'\'' ∷ []) (replace b'\\' (b'\\' ∷ b'\\' ∷ []) text)

read_string-plain :
    (c : ℕ) (s : Text) → c ≢ b'\\' → c ≢ b'\'' → read_string (c ∷ s) ≡ with_char c (read_string s)
unfolding read_string
read_string-plain c [] h k = ground arith
read_string-plain c (d ∷ s) h k = ground arith

read_string-close :
    (rest : Text) → Follows b'\'' rest → read_string (b'\'' ∷ rest) ≡ some ([], rest)
unfolding read_string
read_string-close [] h = refl
read_string-close (c ∷ rest) h = ground arith

read_string-escaped :
    (text rest : Text)
    → Follows b'\'' rest
    → read_string (escaped text ++ b'\'' ∷ rest) ≡ some (text, rest)
unfolding replace
read_string-escaped [] rest h = read_string-close rest h
read_string-escaped (c ∷ text) rest h =
    let l = escaped text ++ b'\'' ∷ rest in
    ground (arith, read_string-plain c l, backslash l, doubled l, read_string-escaped text rest h)
  where
    backslash : (l : Text) → read_string (b'\\' ∷ b'\\' ∷ l) ≡ with_char b'\\' (read_string l)
    backslash l = unfold read_string in refl

    doubled : (l : Text) → read_string (b'\'' ∷ b'\'' ∷ l) ≡ with_char b'\'' (read_string l)
    doubled l = unfold read_string in refl

-- A value as PostgreSQL reads an escape string: `E'`, and the text behind it.
unfoldable pub read_literal : Text → Option (Text × Text)
unfolding read_string
read_literal (c ∷ d ∷ s) = if c == b'E' then (if d == b'\'' then read_string s else none) else none
read_literal _ = none

-- A value written as a literal is read back as the value, whatever it holds: nothing in it ends the
-- string, and what follows is left, unless another quote follows at once.
pub read_literal-literal :
    (text rest : Text)
    → Follows b'\'' rest
    → read_literal (literal (some text) ++ rest) ≡ some (text, rest)
unfolding read_literal literal
read_literal-literal text rest h = simp append_assoc (read_string-escaped text rest h)
