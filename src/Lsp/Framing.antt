-- ===== src/Lsp/Framing.antt =====
-- src-tauri/src/lsp/framing.rs: a `Content-Length` header, a blank line, and that many bytes.
-- A stream is the bytes that have not been read yet; a text is the list of its code points.
mod Lines
pub mod RoundTrip
pub mod Bounds
mod Tests
unfoldable pub use Lines.{read_line}
use data_looker.Prelude.{
  ℕ, zero, suc, ◌+◌, ◌*◌, ◌≡◌, refl, Bool, true, false, ◌||◌, Option, none, some, List, [], ◌∷◌,
  ◌++◌, ltb, ◌==◌, if◌then◌else◌, length, take, drop, is_empty,
}
use data_looker.Text.{Text, codes, trim, trim_end_matches, strip_prefix}
use data_looker.Text.Decimal.{to_text, parse_usize}
use data_looker.Text.Utf8.{as_bytes, from_utf8}

-- A header claiming more is not allocated for.
abbrev pub most : ℕ
most = 16 * 1024 * 1024

pub data IoError : Type 0 where
  headers_end no_length unexpected_eof not_utf8 : IoError
  bad_length : Text → IoError
  too_long : ℕ → IoError

-- `Ok(None)` is `silent`. `stuck` is a loop out of fuel.
pub data Read : Type 0 where
  silent stuck : Read
  failed : IoError → Read
  message : Text → List ℕ → Read

pub data Headers : Type 0 where
  ended out_of_fuel : Headers
  invalid : IoError → Headers
  body : Option ℕ → List ℕ → Headers

abbrev pub header_name : Text
header_name = codes "Content-Length:"

abbrev pub is_line_end : ℕ → Bool
is_line_end c = c == b'\r' || c == b'\n'

-- What a header line does to the length: a `Content-Length` sets it, any other is ignored.
unfoldable pub header_length : Text → Option ℕ → Option (Option ℕ)
header_length header len = elim (strip_prefix header_name header) [
  | none ↦ some len
  | some value ↦ elim (parse_usize (trim value)) [ none ↦ none | some n ↦ some (some n) ]
]

-- The loop over the header lines; `started` says whether one was read before.
unfoldable pub headers : ℕ → List ℕ → Option ℕ → Bool → Headers
headers zero from len started = out_of_fuel
headers (suc fuel) [] len started = if started then invalid headers_end else ended
headers (suc fuel) (b ∷ from) len started =
    let (line, rest) = read_line (b ∷ from) in
    elim (from_utf8 line) [
      | none ↦ invalid not_utf8
      | some text ↦
          let header = trim_end_matches is_line_end text in
          elim (is_empty header) [
            | true ↦ body len rest
            | false ↦ elim (header_length header len) [
              | none ↦ invalid (bad_length header)
              | some len' ↦ headers fuel rest len' true
            ]
          ]
    ]

-- `read_exact` and `String::from_utf8` of the body.
unfoldable pub read_body : ℕ → List ℕ → Read
read_body n from =
    if ltb most n
    then failed (too_long n)
    else if ltb (length from) n
    then failed unexpected_eof
    else elim (from_utf8 (take n from)) [
      | none ↦ failed not_utf8
      | some text ↦ message text (drop n from)
    ]

unfoldable pub finish : Headers → Read
unfolding read_body
finish ended = silent
finish out_of_fuel = stuck
finish (invalid e) = failed e
finish (body none from) = failed no_length
finish (body (some n) from) = read_body n from

-- Every line takes at least a byte, so one round more than there are bytes is enough.
unfoldable pub read : List ℕ → Read
unfolding headers finish
read from = finish (headers (suc (length from)) from none false)

-- The length is counted in bytes.
unfoldable pub write : Text → List ℕ
write text =
    as_bytes (codes "Content-Length: " ++ to_text (length (as_bytes text)) ++ codes "\r\n\r\n")
    ++ as_bytes text

-- `listen` of session.rs: the payloads up to the first end or error.
unfoldable pub payloads : ℕ → List ℕ → List Text
payloads zero from = []
payloads (suc fuel) from = elim (read from) [
  | message text rest ↦ text ∷ payloads fuel rest
  | _ ↦ []
]
