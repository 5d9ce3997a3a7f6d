-- ===== src/Bigquery/Quote.antt =====
-- `quote` of src-tauri/src/drivers/bigquery/preview.rs.
use data_looker.Prelude.{◌||◌, [], ◌∷◌, ◌++◌, ◌==◌, if◌then◌else◌}
use data_looker.Text.{Text}

unfoldable pub escape : Text → Text
escape [] = []
escape (c ∷ s) = if c == b'`' || c == b'\\' then b'\\' ∷ c ∷ escape s else c ∷ escape s

unfoldable pub quote : Text → Text
unfolding escape
quote name = b'`' ∷ (escape name ++ b'`' ∷ [])
