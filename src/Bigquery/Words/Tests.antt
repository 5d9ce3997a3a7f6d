-- ===== src/Bigquery/Words/Tests.antt =====
-- The lexer on concrete texts.
use data_looker.Prelude.{◌≡◌, refl, [], ◌∷◌, ◌++◌, length}
use data_looker.Text.{Text, codes}
use data_looker.Bigquery.Quote.{quote}
use data_looker.Bigquery.Words.{
  tokens, tokens_at, round, find, quoted, quoted_rest, word_length, words, line_end,
}
use data_looker.Bigquery.Words.Bounds.{tokens-AreOrdered, AreOrdered}
use data_looker.Bigquery.Words.Quoted.{words-quote}

abbrev a_name : Text
a_name = codes "drop`table"

abbrev a_text : Text
a_text = codes "SELECT 'drop' -- truncate\n; drop table `a b`"

its_words : words a_text ≡ codes "SELECT" ∷ codes "DROP" ∷ codes "TABLE" ∷ []
unfolding words tokens tokens_at round find quoted quoted_rest word_length line_end
its_words = refl

tokens-AreOrdered_example : AreOrdered 0 (length a_text) (tokens a_text)
tokens-AreOrdered_example = tokens-AreOrdered a_text

words-quote_example : words (quote a_name ++ codes " CASCADE") ≡ words (codes " CASCADE")
words-quote_example = words-quote a_name (codes " CASCADE")
