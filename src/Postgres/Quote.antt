-- ===== src/Postgres/Quote.antt =====
-- `quote` of src-tauri/src/drivers/postgres/mod.rs, and `literal` of edit.rs, with the part of
-- PostgreSQL's lexer that reads what they write back.
pub mod RoundTrip
use data_looker.Prelude.{ℕ, Option, none, some, List, [], ◌∷◌, ◌++◌, ◌==◌, if◌then◌else◌}
use data_looker.Text.{Text, codes, replace}

unfoldable pub quote : Text → Text
unfolding replace
quote identifier = b'"' ∷ (replace b'"' (b'"' ∷ b'"' ∷ []) identifier ++ b'"' ∷ [])

-- An escape string: backslashes are doubled first, then quotes.
unfoldable pub literal : Option Text → Text
unfolding replace
literal none = codes "NULL"
literal (some text) =
    codes "E'"
    ++ (replace b'\'' (b'\'' ∷ b'\'' ∷ []) (replace b'\\' (b'\\' ∷ b'\\' ∷ []) text) ++ b'\'' ∷ [])
