-- ===== src/Bigquery/Risks/Tests.antt =====
-- The risks of concrete texts.
use data_looker.Prelude.{◌≡◌, refl, true, none, [], ◌∷◌, inl, inr, Elem, flat_map}
use data_looker.Text.{Text, codes, trim, trim_end, trim_end_matches, skip_while, is_whitespace}
use data_looker.Error.{timeout, ok, err}
use data_looker.Drivers.{Risk, drop_object}
use data_looker.Bigquery.Words.{
  Statement, statements, tokens, tokens_at, round, find, quoted, quoted_rest, word_length, words,
  line_end,
}
use data_looker.Bigquery.Risks.{Planned, writes, statement_risks, risks, script, session_risks}
use data_looker.Bigquery.Risks.Scripts.{session_risks-script, writing_statement-asked}

abbrev planned : Text → Planned
planned kind = record { kind = kind; target = none }

abbrev a_script : Text
a_script = codes "drop table t; insert t values (1)"

abbrev first_risk : Risk
first_risk = record { statement = codes "drop table t"; hazard = drop_object; targets = [] }

session_risks-script_example :
    session_risks a_script true (err timeout)
    ≡ ok (flat_map (statement_risks true) (statements a_script))
unfolding script statements words tokens tokens_at round find quoted quoted_rest word_length
    line_end trim trim_end trim_end_matches skip_while is_whitespace
session_risks-script_example = session_risks-script a_script true (err timeout) refl

abbrev second : Statement
second = record {
  text = codes "insert t values (1)";
  words = codes "INSERT" ∷ codes "T" ∷ codes "VALUES" ∷ [];
}

writing_statement-asked_example :
    (r : Risk) × Elem r (risks a_script (planned (codes "SCRIPT")) true)
    × (r.statement ≡ codes "insert t values (1)")
unfolding statements writes words tokens tokens_at round find quoted quoted_rest word_length
    line_end trim trim_end trim_end_matches skip_while is_whitespace
writing_statement-asked_example =
    writing_statement-asked a_script (planned (codes "SCRIPT")) second refl (inr (inl refl)) refl
