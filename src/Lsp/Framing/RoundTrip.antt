-- ===== src/Lsp/Framing/RoundTrip.antt =====
-- What `write` sends, `read` receives, and a stream of messages is heard whole.
use data_looker.Prelude.{
  ℕ, suc, ◌≤◌, ◌<◌, ◌≡◌, ◌≢◌, refl, ap, ◌∙◌, Bool, true, false, Option, none, some, List, [], ◌∷◌,
  ◌++◌, arith, All, All-append, length, flat_map, length-append, append_assoc, drop, is_empty,
  take-length-append, drop-length-append,
}
use data_looker.Text.{
  Text, is_whitespace, skip_while, codes, trim, strip_prefix-append, trim_end_matches,
}
use data_looker.Text.Decimal.{
  to_text, to_text-IsDigit, to_text-cons, parse-to_text, parse_usize, IsDigit, usize_max,
}
use data_looker.Text.Utf8.{
  as_bytes, from_utf8, as_bytes-ascii, from_utf8-ascii, from_utf8-as_bytes, IsScalar,
}
use data_looker.Text.Trim.{trim-append, trim_end_matches-append, digits-Fails, Fails}
use data_looker.Lsp.Framing.{
  most, message, body, header_name, is_line_end, header_length, headers, read_body, finish, read,
  write, payloads,
}
use data_looker.Lsp.Framing.Lines.{read_line, read_line-append}

abbrev IsAscii : ℕ → Type 0
IsAscii c = c < 0x80

abbrev field : ℕ → Text
field n = codes "Content-Length: " ++ to_text n

digits-ne-nil : (n : ℕ) → to_text n ≢ []
digits-ne-nil n e = let (c, s, e') = to_text-cons n in cc

digits-IsAscii : (d : Text) → All IsDigit d → All IsAscii d
digits-IsAscii [] h = tt
digits-IsAscii (c ∷ d) h = (omega arith, digits-IsAscii d h.1)

digits-not-newline : (d : Text) → All IsDigit d → All (λ c. c ≢ b'\n') d
digits-not-newline [] h = tt
digits-not-newline (c ∷ d) h = (omega arith, digits-not-newline d h.1)

digits-not_line_end : (d : Text) → All IsDigit d → All (Fails is_line_end) d
digits-not_line_end [] h = tt
digits-not_line_end (c ∷ d) h = (ground arith, digits-not_line_end d h.1)

header_line-IsAscii : (n : ℕ) → All IsAscii (field n ++ codes "\r\n")
header_line-IsAscii n =
    All-append IsAscii (field n) (codes "\r\n")
      (All-append IsAscii (codes "Content-Length: ") (to_text n) (omega arith)
        (digits-IsAscii (to_text n) (to_text-IsDigit n)))
      (omega arith)

field-not-newline : (n : ℕ) → All (λ c. c ≢ b'\n') (field n ++ b'\r' ∷ [])
field-not-newline n =
    All-append _ (field n) (b'\r' ∷ [])
      (All-append _ (codes "Content-Length: ") (to_text n) (omega arith)
        (digits-not-newline (to_text n) (to_text-IsDigit n)))
      (omega arith)

value_of_field : (n : ℕ) → n ≤ usize_max → parse_usize (trim (b' ' ∷ to_text n)) ≡ some n
unfolding is_whitespace
value_of_field n h =
    ap parse_usize (
      trim-append (b' ' ∷ []) (to_text n) (digits-ne-nil n) (refl, tt)
        (digits-Fails (to_text n) (to_text-IsDigit n)))
    ∙ parse-to_text n h

header_length-field :
    (n : ℕ) (len : Option ℕ) → n ≤ usize_max → header_length (field n) len ≡ some (some n)
unfolding header_length
header_length-field n len h =
    ground (arith, strip_prefix-append header_name (b' ' ∷ to_text n), value_of_field n h)

headers_step :
    (fuel b : ℕ) (s : List ℕ) (len : Option ℕ) (started : Bool) (line rest : List ℕ)
    (text header : Text) (len' : Option ℕ)
    → read_line (b ∷ s) ≡ (line, rest)
    → from_utf8 line ≡ some text
    → trim_end_matches is_line_end text ≡ header
    → is_empty header ≡ false
    → header_length header len ≡ some len'
    → headers (suc fuel) (b ∷ s) len started ≡ headers fuel rest len' true
unfolding headers
headers_step fuel b s len started line rest text header len' p q r e l = ground arith

headers_done :
    (fuel b : ℕ) (s : List ℕ) (len : Option ℕ) (started : Bool) (line rest : List ℕ) (text : Text)
    → read_line (b ∷ s) ≡ (line, rest)
    → from_utf8 line ≡ some text
    → trim_end_matches is_line_end text ≡ []
    → headers (suc fuel) (b ∷ s) len started ≡ body len rest
unfolding headers
headers_done fuel b s len started line rest text p q r = ground arith

headers-field :
    (fuel n : ℕ) (rest : List ℕ)
    → n ≤ usize_max
    → headers (suc (suc fuel)) (field n ++ (codes "\r\n" ++ codes "\r\n" ++ rest)) none false
      ≡ body (some n) rest
headers-field fuel n rest h =
    headers_step (suc fuel) _ _ none false (field n ++ codes "\r\n") (codes "\r\n" ++ rest)
      (field n ++ codes "\r\n") (field n) (some n) (line_of n (codes "\r\n" ++ rest))
      (from_utf8-ascii _ (header_line-IsAscii n))
      (trim_end_matches-append is_line_end (codes "Content-Length: ") (to_text n) (codes "\r\n")
        (digits-ne-nil n) (digits-not_line_end (to_text n) (to_text-IsDigit n)) (refl, (refl, tt)))
      refl (header_length-field n none h)
    ∙ headers_done fuel _ _ (some n) true (codes "\r\n") rest (codes "\r\n")
        (unfold read_line in refl) (from_utf8-ascii (codes "\r\n") (omega arith))
        (unfold trim_end_matches skip_while in refl)
  where
    line_of :
        (n : ℕ) (rest : List ℕ)
        → read_line (field n ++ (codes "\r\n" ++ rest)) ≡ (field n ++ codes "\r\n", rest)
    line_of n rest =
        simp append_assoc (
          simp append_assoc at
            (read_line-append (field n ++ b'\r' ∷ []) rest (field-not-newline n)))

read_body-append :
    (text : Text) (rest : List ℕ)
    → All IsScalar text
    → length (as_bytes text) ≤ most
    → read_body (length (as_bytes text)) (as_bytes text ++ rest) ≡ message text rest
unfolding read_body
read_body-append text rest v h = ground (
  arith,
  length-append (as_bytes text) rest,
  take-length-append (as_bytes text) rest,
  drop-length-append (as_bytes text) rest,
  from_utf8-as_bytes text v,
)

write-bytes :
    (text : Text) (rest : List ℕ)
    → let n = length (as_bytes text) in
      write text ++ rest ≡ field n ++ (codes "\r\n" ++ codes "\r\n" ++ (as_bytes text ++ rest))
unfolding write
write-bytes text rest =
    let n = length (as_bytes text) in
    rw (as_bytes-ascii (codes "Content-Length: " ++ to_text n ++ codes "\r\n\r\n") (ascii n))
      (simp append_assoc)
  where
    ascii : (n : ℕ) → All IsAscii (codes "Content-Length: " ++ to_text n ++ codes "\r\n\r\n")
    ascii n =
        All-append IsAscii (field n) (codes "\r\n\r\n")
          (All-append IsAscii (codes "Content-Length: ") (to_text n) (omega arith)
            (digits-IsAscii (to_text n) (to_text-IsDigit n)))
          (omega arith)

-- A message of Unicode scalar values whose bytes are at most `MOST` is read back from what `write`
-- sends, and the stream stands behind it, whatever follows.
pub read-write :
    (text : Text) (rest : List ℕ)
    → All IsScalar text
    → length (as_bytes text) ≤ most
    → read (write text ++ rest) ≡ message text rest
unfolding read
read-write text rest v h =
    let n = length (as_bytes text) in
    let stream = field n ++ (codes "\r\n" ++ codes "\r\n" ++ (as_bytes text ++ rest)) in
    rw write-bytes (
      ap finish (headers-field (length (drop 1 stream)) n (as_bytes text ++ rest) (omega arith))
      ∙ read_body-append text rest v h)

abbrev pub IsSendable : Text → Type 0
IsSendable t = All IsScalar t × (length (as_bytes t) ≤ most)

-- A reader that is given as many rounds as there are messages hears every message that was
-- written, in order, if each is sendable and nothing follows the last.
pub payloads-write :
    (ts : List Text) → All IsSendable ts → payloads (length ts) (flat_map write ts) ≡ ts
unfolding payloads
payloads-write [] h = refl
payloads-write (t ∷ ts) (h, hs) =
    ground (arith, read-write t (flat_map write ts) h.0 h.1, payloads-write ts hs)
