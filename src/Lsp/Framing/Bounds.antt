-- ===== src/Lsp/Framing/Bounds.antt =====
-- The header loop always ends, and what a reader accepts is bounded.
use data_looker.Prelude.{
  ℕ, zero, suc, ◌≤◌, ◌<◌, ◌≡◌, ◌≢◌, ◌↔◌, refl, Bool, true, false, Option, none, some, List, [], ◌∷◌,
  arith, length, take, drop, Option-cases, inl, inr,
}
use data_looker.Text.{Text, trim_end_matches}
use data_looker.Text.Utf8.{from_utf8}
use data_looker.Lsp.Framing.{
  most, silent, stuck, message, Headers, ended, out_of_fuel, invalid, body, is_line_end,
  header_length, headers, read_body, finish, read,
}
use data_looker.Lsp.Framing.Lines.{read_line, read_line-shorter}

headers-fuel :
    (fuel : ℕ) (from : List ℕ) (len : Option ℕ) (started : Bool)
    → length from < fuel
    → headers fuel from len started ≢ out_of_fuel
unfolding headers
headers-fuel zero from len started h = elim h [ ]
headers-fuel (suc fuel) [] len started h = ground arith
headers-fuel (suc fuel) (b ∷ from) len started h =
    elim (Option-cases (from_utf8 (read_line (b ∷ from)).0)) [
      | inl bad ↦ ground arith
      | inr (text, e) ↦
          elim (Option-cases (header_length (trim_end_matches is_line_end text) len)) [
            | inl bad ↦ ground arith
            | inr (l, e') ↦
                ground (
                  arith,
                  read_line-shorter b from,
                  headers-fuel fuel (read_line (b ∷ from)).1 l true,
                )
          ]
    ]

-- The loop over the header lines never runs out of the rounds that it is given: `read` always
-- ends in a message, in an error or in the end of the stream.
pub read-ne-stuck : (from : List ℕ) → read from ≢ stuck
unfolding read finish read_body
read-ne-stuck from = ground (arith, headers-fuel (suc (length from)) from none false)

-- After a header line the stream may not end: the loop does not answer that nothing was said.
headers-started : (fuel : ℕ) (from : List ℕ) (len : Option ℕ) → headers fuel from len true ≢ ended
unfolding headers
headers-started zero from len = ground arith
headers-started (suc fuel) [] len = ground arith
headers-started (suc fuel) (b ∷ from) len =
    elim (Option-cases (from_utf8 (read_line (b ∷ from)).0)) [
      | inl bad ↦ ground arith
      | inr (text, e) ↦
          elim (Option-cases (header_length (trim_end_matches is_line_end text) len)) [
            | inl bad ↦ ground arith
            | inr (l, e') ↦ ground (arith, headers-started fuel (read_line (b ∷ from)).1 l)
          ]
    ]

first_line-ne-ended :
    (fuel b : ℕ) (from : List ℕ) (len : Option ℕ) → headers (suc fuel) (b ∷ from) len false ≢ ended
unfolding headers
first_line-ne-ended fuel b from len = elim (Option-cases (from_utf8 (read_line (b ∷ from)).0)) [
  | inl bad ↦ ground arith
  | inr (text, e) ↦ elim (Option-cases (header_length (trim_end_matches is_line_end text) len)) [
    | inl bad ↦ ground arith
    | inr (l, e') ↦ ground (arith, headers-started fuel (read_line (b ∷ from)).1 l)
  ]
]

-- `read` answers that the server stopped talking exactly when the stream has ended before the
-- message began; a stream that ends inside one is never taken for that.
pub read-silent_iff : (from : List ℕ) → (read from ≡ silent) ↔ (from ≡ [])
read-silent_iff [] = (λ _. refl, λ _. unfold read finish headers in refl)
read-silent_iff (b ∷ from) = (only, λ e. cc)
  where
    only : read (b ∷ from) ≡ silent → b ∷ from ≡ []
    only e =
        unfold read finish read_body in
        ground (arith, e, first_line-ne-ended (length (b ∷ from)) b from none)

-- A message that is accepted is `MOST` bytes long at most: its bytes are the next of the stream
-- behind the headers, as many as the last `Content-Length` said, they decode to the message, and
-- what follows them is left for the next read.
pub read_bounds :
    (from : List ℕ) (text : Text) (rest : List ℕ)
    → read from ≡ message text rest
    → (n : ℕ) × (behind : List ℕ) × (headers (suc (length from)) from none false
        ≡ body (some n) behind)
      × (n ≤ most)
      × (n ≤ length behind)
      × (from_utf8 (take n behind) ≡ some text)
      × (rest ≡ drop n behind)
read_bounds from text rest h =
    of_headers (headers (suc (length from)) from none false) refl (unfold read in h)
  where
    of_headers :
        (r : Headers)
        → headers (suc (length from)) from none false ≡ r
        → finish r ≡ message text rest
        → (n : ℕ) × (behind : List ℕ) × (headers (suc (length from)) from none false
            ≡ body (some n) behind)
          × (n ≤ most)
          × (n ≤ length behind)
          × (from_utf8 (take n behind) ≡ some text)
          × (rest ≡ drop n behind)
    of_headers ended e h = unfold finish in cc
    of_headers out_of_fuel e h = unfold finish in cc
    of_headers (invalid x) e h = unfold finish in cc
    of_headers (body none behind) e h = unfold finish in cc
    of_headers (body (some n) behind) e h =
        unfold finish read_body in
        (n, behind, e, ground arith, ground arith, ground arith, ground arith)
