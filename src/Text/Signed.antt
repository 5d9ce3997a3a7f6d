-- ===== src/Text/Signed.antt =====
-- `str::parse` of the signed integers, and `split_once`. A number of a signed type is a ℤ.
use data_looker.Prelude.{
  ℕ, zero, suc, ◌+◌, ◌-◌, ◌*◌, ◌^◌, ◌≤◌, ◌≡◌, refl, Bool, true, false, not, ◌||◌, Option, none,
  some, [], ◌∷◌, ◌++◌, ◌==◌, ltb, if◌then◌else◌, All, is_empty, arith,
}
use data_looker.Text.{Text, is_digit}
use data_looker.Text.Decimal.{to_text, IsDigit}

pub data ℤ : Type 0 where
  pos negsuc : ℕ → ℤ

-- A magnitude with its sign.
abbrev pub signed : Bool → ℕ → ℤ
signed negative zero = pos 0
signed false (suc n) = pos (suc n)
signed true (suc n) = negsuc n

abbrev pub unsigned_abs : ℤ → ℕ
unsigned_abs (pos n) = n
unsigned_abs (negsuc n) = suc n

-- `to_string` of a signed integer.
unfoldable pub signed_text : ℤ → Text
unfolding to_text
signed_text (pos n) = to_text n
signed_text (negsuc n) = b'-' ∷ to_text (suc n)

-- The digits behind `n`; one that takes the number past `most` is an error.
unfoldable pub read_bounded : ℕ → Text → ℕ → Option ℕ
read_bounded most [] n = some n
read_bounded most (c ∷ s) n =
    let next = n * 10 + (c - b'0') in
    let rest = read_bounded most s next in if not (is_digit c) || ltb most next then none else rest

abbrev pub magnitude : Bool → Option ℕ → Option ℤ
magnitude negative none = none
magnitude negative (some n) = some (signed negative n)

-- `parse` of a signed type of `suc bits` bits: a sign may lead, and there has to be a digit.
unfoldable pub parse_signed : ℕ → Text → Option ℤ
unfolding read_bounded
parse_signed bits [] = none
parse_signed bits (c ∷ s) =
    let below = magnitude true (read_bounded (2 ^ bits) s 0) in
    let above = magnitude false (read_bounded (2 ^ bits - 1) s 0) in
    let bare = magnitude false (read_bounded (2 ^ bits - 1) (c ∷ s) 0) in
    if c == b'-'
    then (if is_empty s then none else below)
    else (if c == b'+' then (if is_empty s then none else above) else bare)

abbrev pub behind : ℕ → Option (Text × Text) → Option (Text × Text)
behind c none = none
behind c (some (a, b)) = some (c ∷ a, b)

-- Around the first character that the test holds of.
unfoldable pub split_once : (ℕ → Bool) → Text → Option (Text × Text)
split_once p [] = none
split_once p (c ∷ s) = let rest = behind c (split_once p s) in if p c then some ([], s) else rest

-- The number that digits write behind `n`.
abbrev pub digits_value : Text → ℕ → ℕ
digits_value [] n = n
digits_value (c ∷ s) n = digits_value s (n * 10 + (c - b'0'))

le-digits_value : (s : Text) (n : ℕ) → n ≤ digits_value s n
le-digits_value [] n = omega arith
le-digits_value (c ∷ s) n = omega (arith, le-digits_value s (n * 10 + (c - b'0')))

pub read_bounded-digits :
    (most : ℕ) (s : Text) (n : ℕ)
    → All IsDigit s
    → digits_value s n ≤ most
    → read_bounded most s n ≡ some (digits_value s n)
unfolding read_bounded
read_bounded-digits most [] n d h = refl
read_bounded-digits most (c ∷ s) n (d, ds) h = ground (
  arith,
  read_bounded-digits most s (n * 10 + (c - b'0')) ds h,
  le-digits_value s (n * 10 + (c - b'0')),
)

module _ (p : ℕ → Bool) where
  abbrev pub Without : Text → Type 0
  Without s = All (λ c. p c ≡ false) s

  pub split_once-found :
      (a b : Text) (c : ℕ) → Without a → p c ≡ true → split_once p (a ++ c ∷ b) ≡ some (a, b)
  unfolding split_once
  split_once-found [] b c w h = rw h refl
  split_once-found (d ∷ a) b c (w, ws) h = rw (w, split_once-found a b c ws h) refl

  pub split_once-none : (s : Text) → Without s → split_once p s ≡ none
  unfolding split_once
  split_once-none [] w = refl
  split_once-none (d ∷ s) (w, ws) = rw (w, split_once-none s ws) refl
