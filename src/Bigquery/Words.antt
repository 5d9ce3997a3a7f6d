-- ===== src/Bigquery/Words.antt =====
-- The lexer of src-tauri/src/drivers/bigquery/risks.rs. The source walks the bytes of the text and
-- tests them for ASCII ones only, so the walk is the same over the characters: offsets count
-- characters here. A position in the text is the list of what is left from there.
pub mod Bounds
pub mod Quoted
mod Tests
use data_looker.Prelude.{
  ℕ, zero, suc, ◌+◌, ◌-◌, ◌≡◌, Bool, true, false, not, ◌&&◌, ◌||◌, Option, none, some, List, [],
  ◌∷◌, ◌++◌, map, ltb, leb, ◌==◌, if◌then◌else◌, length, take, drop, select, is_empty,
}
use data_looker.Text.{Text, is_digit, is_alphabetic, to_upper, trim}

pub record Token : Type 0 where
  pub start : ℕ
  pub end : ℕ
  pub semicolon : Bool

-- Does `needle` stand at the front?
abbrev pub starts_with : Text → Text → Bool
starts_with [] s = true
starts_with (n ∷ needle) [] = false
starts_with (n ∷ needle) (c ∷ s) = n == c && starts_with needle s

-- `find`, from the position that `s` is what is left at.
unfoldable pub find : Text → Text → Option ℕ
find needle [] = if is_empty needle then some 0 else none
find needle (c ∷ s) =
    if starts_with needle (c ∷ s)
    then some 0
    else elim (find needle s) [ none ↦ none | some p ↦ some (suc p) ]

-- How far the position moves: past what `find` found, `extra` more, or to the end.
abbrev pub past : Option ℕ → ℕ → Text → ℕ
past none extra s = length s
past (some p) extra s = p + extra

unfoldable pub line_end : Text → ℕ
unfolding find
line_end s = past (find (b'\n' ∷ []) s) 0 s

-- The loop of `quoted` behind the opening quote. A backslash takes the character behind it along.
unfoldable pub quoted_rest : ℕ → Text → ℕ
quoted_rest quote [] = 0
quoted_rest quote (c ∷ []) = 1
quoted_rest quote (c ∷ d ∷ s) =
    let escaped = suc (suc (quoted_rest quote s)) in
    let further = suc (quoted_rest quote (d ∷ s)) in
    if c == b'\\' then escaped else if c == quote then 1 else further

unfoldable pub quoted : ℕ → Text → ℕ
unfolding quoted_rest find
quoted quote [] = 0
quoted quote (c ∷ s) =
    let triple = quote ∷ quote ∷ quote ∷ [] in
    if not (quote == b'`') && starts_with triple (c ∷ s)
    then 3 + past (find triple (drop 3 (c ∷ s))) 3 (drop 3 (c ∷ s))
    else suc (quoted_rest quote s)

abbrev pub is_word_char : ℕ → Bool
is_word_char c = is_alphabetic c || is_digit c || c == b'_'

-- The loop over the rest of a word or a number.
unfoldable pub word_length : Text → ℕ
word_length [] = 0
word_length (c ∷ s) = let rest = suc (word_length s) in if is_word_char c then rest else 0

pub data Kind : Type 0 where
  nothing word semicolon : Kind

-- `r'...'` and `b"..."` are prefixes of a literal, not words.
abbrev pub is_prefix_of_literal : ℕ → Text → Bool
is_prefix_of_literal n [] = false
is_prefix_of_literal n (c ∷ s) = (c == b'\'' || c == b'"') && leb n 2

abbrev pub next_is : ℕ → Text → Bool
next_is c [] = false
next_is c (d ∷ s) = d == c

-- One round of the loop in `tokens` at a character and what is behind it: how many characters it
-- steps over, and what it yields for them.
unfoldable pub round : ℕ → Text → ℕ × Kind
unfolding line_end find quoted word_length
round c s =
    if c == b';'
    then (1, semicolon)
    else if c == b'-' && next_is b'-' s
    then (line_end (c ∷ s), nothing)
    else if c == b'#'
    then (line_end (c ∷ s), nothing)
    else if c == b'/' && next_is b'*' s
    then (2 + past (find (b'*' ∷ b'/' ∷ []) (drop 1 s)) 2 (drop 1 s), nothing)
    else if c == b'\'' || c == b'"' || c == b'`'
    then (quoted c (c ∷ s), nothing)
    else if is_alphabetic c || c == b'_'
    then (let n = word_length (c ∷ s) in
        (n, (if is_prefix_of_literal n (drop n (c ∷ s)) then nothing else word)))
    else if is_digit c
    then (word_length (c ∷ s), nothing)
    else (1, nothing)

abbrev pub emit : Kind → ℕ → ℕ → List Token → List Token
emit nothing start end rest = rest
emit word start end rest = record { start = start; end = end; semicolon = false } ∷ rest
emit semicolon start end rest = record { start = start; end = end; semicolon = true } ∷ rest

-- The tokens from the position `at`; `skip` characters are left of what the last round stepped over.
unfoldable pub tokens_at : ℕ → ℕ → Text → List Token
unfolding round
tokens_at at skip [] = []
tokens_at at (suc skip) (c ∷ s) = tokens_at (suc at) skip s
tokens_at at zero (c ∷ s) =
    let (n, kind) = round c s in emit kind at (at + n) (tokens_at (suc at) (n - 1) s)

unfoldable pub tokens : Text → List Token
unfolding tokens_at
tokens text = tokens_at 0 0 text

-- `&text[from..end]`.
abbrev pub slice : Text → ℕ → ℕ → Text
slice text from end = take (end - from) (drop from text)

-- The bare words of a text, upper-cased.
unfoldable pub words : Text → List Text
unfolding tokens
words text =
    map (λ t. map to_upper (slice text t.start t.end)) (select (λ t. not t.semicolon) (tokens text))

pub record Statement : Type 0 where
  pub text : Text
  pub words : List Text

-- The pieces of a text between the ends of its statements.
abbrev pub pieces : Text → ℕ → List ℕ → List Text
pieces text from [] = []
pieces text from (end ∷ ends) = slice text from end ∷ pieces text (end + 1) ends

-- The source caps `end + 1` by the length, which matters only behind the last piece.
unfoldable pub statements : Text → List Statement
unfolding tokens words
statements text =
    let ends = map (λ t. t.start) (select (λ t. t.semicolon) (tokens text)) in
    select (λ s. not (is_empty s.words))
      (map (λ piece. record { text = trim piece; words = words piece })
        (pieces text 0 (ends ++ (length text ∷ []))))
