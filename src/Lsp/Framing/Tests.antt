-- ===== src/Lsp/Framing/Tests.antt =====
-- Runs of lsp/framing.rs on concrete streams, and the theorems at concrete messages.
use data_looker.Prelude.{ℕ, ◌≡◌, ◌≢◌, refl, List, [], ◌∷◌, ◌++◌, arith}
use data_looker.Text.{Text, codes, trim, trim_end_matches, strip_prefix}
use data_looker.Text.Decimal.{parse_usize, to_text}
use data_looker.Text.Utf8.{as_bytes, from_utf8}
use data_looker.Lsp.Framing.{
  stuck, silent, message, failed, unexpected_eof, read, read_line, header_length, write,
}
use data_looker.Lsp.Framing.RoundTrip.{read-write}
use data_looker.Lsp.Framing.Bounds.{read-ne-stuck}

abbrev hello : Text
hello = codes "{\"é\"}"

written : write hello ≡ codes "Content-Length: 6\r\n\r\n" ++ as_bytes hello
unfolding write to_text as_bytes
written = refl

ended : read [] ≡ silent
unfolding read
ended = refl

cut_short : read (codes "Content-Length: 9\r\n\r\nabc") ≡ failed unexpected_eof
unfolding read read_line from_utf8 trim trim_end_matches strip_prefix parse_usize header_length
cut_short = refl

read-write_example : read (write hello ++ 1 ∷ []) ≡ message hello (1 ∷ [])
unfolding as_bytes
read-write_example = read-write hello (1 ∷ []) (omega arith) (omega arith)

read-ne-stuck_example : read (codes "Content-Length: 9\r\n\r\nabc") ≢ stuck
read-ne-stuck_example = read-ne-stuck (codes "Content-Length: 9\r\n\r\nabc")

abbrev stream : List ℕ
stream = codes "Content-Length: 2\r\n\r\nokC"
