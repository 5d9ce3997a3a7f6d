-- ===== src/Syntax/Tests.antt =====
-- Two statements, the second of which cannot be parsed.
use data_looker.Prelude.{ℕ, ◌≡◌, refl, suc, List, [], ◌∷◌, ◌++◌, arith, if◌then◌else◌}
use data_looker.Text.{Text, codes, text_eq, trim}
use data_looker.Error.{Result, ok, err}
use data_looker.Syntax.{ScanToken, PgError, parse_error, byte_length, position, statements, check}
use data_looker.Syntax.Ranges.{AreApart, statements-AreApart}
use data_looker.Syntax.Positions.{newlines, last_line, units, position-append}

abbrev token_at : ℕ → ℕ → ℕ → ScanToken
token_at token start end = record { token = token; start = start; end = end }

abbrev two : Text
two = codes "a;\n b b;c"

abbrev tokens : List ScanToken
tokens =
    token_at 258 0 1
    ∷ token_at 59 1 2
    ∷ token_at 258 4 5
    ∷ token_at 258 6 7
    ∷ token_at 59 7 8
    ∷ token_at 258 8 9
    ∷ []

abbrev refuses_c : Text → Result (Unit {0}) PgError
refuses_c t =
    if text_eq t (codes "c")
    then err (parse_error (codes "syntax error at or near \"c\""))
    else ok tt

marked :
    check (λ t. ok tokens) refuses_c two
    ≡ record {
      message = codes "syntax error at or near \"c\"";
      start_line = 2;
      start_column = 6;
      end_line = 2;
      end_column = 7;
    }
      ∷ []
unfolding check trim data_looker.Text.Utf8.len_utf8 data_looker.Text.Utf8.len_utf16
marked = refl

statements-AreApart_example : AreApart 9 0 (statements two tokens)
unfolding byte_length data_looker.Text.Utf8.len_utf8
statements-AreApart_example = statements-AreApart two tokens (
  omega arith,
  omega arith,
  (
    omega arith,
    omega arith,
    (
      omega arith,
      omega arith,
      (
        omega arith,
        omega arith,
        (omega arith, omega arith, (omega arith, omega arith, omega arith)),
      ),
    ),
  ),
)

position-append_example :
    position (codes "a\nbc" ++ codes "d") (byte_length (codes "a\nbc"))
    ≡ (suc (newlines (codes "a\nbc")), suc (units (last_line (codes "a\nbc"))))
position-append_example = position-append (codes "a\nbc") (codes "d") (omega arith)
