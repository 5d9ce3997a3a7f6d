-- ===== src/Syntax.antt =====
-- src-tauri/src/app/syntax.rs: what PostgreSQL would refuse to parse, and where. `pg_query`'s scanner
-- and parser are parameters.
mod Ranges
mod Positions
mod Tests
use mathlib.Core.List.{reverse}
use data_looker.Prelude.{
  ℕ, zero, suc, ◌+◌, ◌-◌, ◌%◌, ◌^◌, Bool, true, false, not, ◌&&◌, Option, none, some, List, [], ◌∷◌,
  ◌++◌, map, ◌==◌, ltb, leb, if◌then◌else◌, select, filter_map, is_empty,
}
use data_looker.Text.{Text, codes, text_eq, trim, strip_prefix}
use data_looker.Text.Utf8.{len_utf8, len_utf16}
use data_looker.Map.{is_some}
use data_looker.Error.{Result, ok, err}

pub record ScanToken : Type 0 where
  pub token : ℕ
  pub start : ℕ
  pub end : ℕ

-- `pg_query::Error`; any other one by its `to_string`.
pub data PgError : Type 0 where
  parse_error scan_error other_error : Text → PgError

abbrev pub strip : PgError → Text
strip (parse_error message) = message
strip (scan_error message) = message
strip (other_error message) = message

pub record SyntaxError : Type 0 where
  pub message : Text
  pub start_line : ℕ
  pub start_column : ℕ
  pub end_line : ℕ
  pub end_column : ℕ

-- `str::len`, in bytes.
unfoldable pub byte_length : Text → ℕ
byte_length [] = 0
byte_length (c ∷ s) = len_utf8 c + byte_length s

-- The text from a byte on, and as many bytes of it: nothing inside a character or past the end.
unfoldable pub drop_bytes : Text → ℕ → Option Text
drop_bytes [] n = if n == 0 then some [] else none
drop_bytes (c ∷ s) n =
    let rest = drop_bytes s (n - len_utf8 c) in
    if n == 0 then some (c ∷ s) else (if leb (len_utf8 c) n then rest else none)

abbrev pub in_front : ℕ → Option Text → Option Text
in_front c none = none
in_front c (some s) = some (c ∷ s)

unfoldable pub take_bytes : Text → ℕ → Option Text
take_bytes [] n = if n == 0 then some [] else none
take_bytes (c ∷ s) n =
    let rest = in_front c (take_bytes s (n - len_utf8 c)) in
    if n == 0 then some [] else (if leb (len_utf8 c) n then rest else none)

-- `sql.get(from..to)`
unfoldable pub get_range : Text → ℕ → ℕ → Option Text
unfolding drop_bytes take_bytes
get_range sql from to =
    if ltb to from
    then none
    else (elim (drop_bytes sql from) [ none ↦ none | some rest ↦ take_bytes rest (to - from) ])

abbrev pub is_blank : Text → Bool
is_blank text = is_empty (trim text)

abbrev pub not_blank : Option Text → Bool
not_blank none = false
not_blank (some text) = not (is_blank text)

abbrev pub semicolons : List ScanToken → List ℕ
semicolons tokens =
    map (λ (t : ScanToken). t.start) (select (λ (t : ScanToken). t.token == b';') tokens)

abbrev pub Range : Type 0
Range = ℕ × ℕ

-- `scan`: each end with the byte behind the one before it.
unfoldable pub ranges : ℕ → List ℕ → List Range
ranges from [] = []
ranges from (end ∷ ends) = (from, end) ∷ ranges (suc end) ends

unfoldable pub statements : Text → List ScanToken → List Range
unfolding ranges get_range byte_length
statements sql tokens =
    select (λ (r : Range). not_blank (get_range sql r.0 r.1))
      (ranges 0 (semicolons tokens ++ byte_length sql ∷ []))

unfoldable pub position_from : Text → ℕ → ℕ → ℕ → ℕ → ℕ × ℕ
position_from [] at offset line column = (line, column)
position_from (c ∷ s) at offset line column =
    let below = position_from s (at + len_utf8 c) offset (suc line % 2 ^ 32) 1 in
    let beside = position_from s (at + len_utf8 c) offset line ((column + len_utf16 c) % 2 ^ 32) in
    if leb offset at then (line, column) else (if c == b'\n' then below else beside)

unfoldable pub position : Text → ℕ → ℕ × ℕ
unfolding position_from
position sql offset = position_from sql 0 offset 1 1

unfoldable pub span : Text → Text → ℕ → ℕ → SyntaxError
unfolding position
span message sql from to =
    let (start_line, start_column) = position sql from in
    let (end_line, end_column) = position sql to in
    record {
      message = message;
      start_line = start_line;
      start_column = start_column;
      end_line = end_line;
      end_column = end_column;
    }

unfoldable pub whole_text : Text → Text → SyntaxError
unfolding span byte_length
whole_text sql message = span message sql 0 (byte_length sql)

-- What is behind the first place of a pattern, and what is in front of a last character.
unfoldable pub tail_after : Text → Text → Option Text
unfolding strip_prefix
tail_after pattern [] = strip_prefix pattern []
tail_after pattern (c ∷ s) =
    let later = tail_after pattern s in
    elim (strip_prefix pattern (c ∷ s)) [ some rest ↦ some rest | none ↦ later ]

abbrev pub unless_char : ℕ → Text → Option Text
unless_char last [] = none
unless_char last (c ∷ s) = if c == last then some (reverse s) else none

unfoldable pub named_token : Text → Option Text
unfolding tail_after
named_token message = elim (tail_after (codes "at or near \"") message) [
  | none ↦ none
  | some tail ↦ unless_char b'"' (reverse tail)
]

unfoldable pub ends_with : Text → Text → Bool
unfolding strip_prefix
ends_with text suffix = is_some (strip_prefix (reverse suffix) (reverse text))

abbrev pub is_text : Text → Option Text → Bool
is_text name none = false
is_text name (some text) = text_eq text name

abbrev pub only : List Range → Option Range
only [] = none
only (r ∷ []) = some r
only (r ∷ s ∷ rs) = none

unfoldable pub token_named : Text → List ScanToken → Range → Text → Option Range
unfolding get_range
token_named sql tokens (start, end) name = only (
    select (λ (r : Range). is_text name (get_range sql r.0 r.1))
      (select (λ (r : Range). leb start r.0 && leb r.1 end)
        (map (λ (t : ScanToken). (t.start, t.end)) tokens)))

abbrev pub or_whole : Range → Option Range → Range
or_whole r none = r
or_whole r (some token) = token

abbrev pub placed : Text → List ScanToken → Range → Option Text → Option Range
unfolding token_named
placed sql tokens r none = none
placed sql tokens r (some name) = token_named sql tokens r name

module _ (scan : Text → Result (List ScanToken) PgError)
    (parse : Text → Result (Unit {0}) PgError) where
  abbrev marked : Text → List ScanToken → Range → Result (Unit {0}) PgError → Option SyntaxError
  unfolding ends_with placed named_token span
  marked sql tokens r (ok u) = none
  marked sql tokens r (err error) =
      let message = strip error in
      let (from, to) = or_whole r (placed sql tokens r (named_token message)) in
      if ends_with message (codes "at end of input") then none else some (span message sql from to)

  -- A range that `statements` gives is of characters.
  unfoldable pub fault : Text → List ScanToken → Range → Option SyntaxError
  unfolding marked get_range
  fault sql tokens r = elim (get_range sql r.0 r.1) [
    | none ↦ none
    | some text ↦ marked sql tokens r (parse text)
  ]

  abbrev checked : Text → Result (List ScanToken) PgError → List SyntaxError
  unfolding statements fault whole_text
  checked sql (err error) = whole_text sql (strip error) ∷ []
  checked sql (ok tokens) = filter_map (fault sql tokens) (statements sql tokens)

  unfoldable pub check : Text → List SyntaxError
  unfolding checked
  check sql = checked sql (scan sql)
