-- ===== src/Bigquery/Value/Exact.antt =====
-- A timestamp is read from BigQuery's text to the microsecond, in either of its notations.
use data_looker.Prelude.{
  ℕ, zero, suc, ◌+◌, ◌-◌, ◌*◌, ◌/◌, ◌<◌, leb, if◌then◌else◌, Bool-cases, inl, inr, ◌^◌, ◌≤◌, ◌≡◌,
  ◌≢◌, refl, Bool, true, false, Option, none, some, [], ◌∷◌, ◌++◌, length, all, All, All-append,
  arith, append-nil,
}
use data_looker.Text.{Text, is_digit}
use data_looker.Text.Decimal.{IsDigit}
use data_looker.Text.Signed.{
  ℤ, pos, signed, parse_signed, digits_value, read_bounded-digits, Without, split_once-found,
  split_once-none,
}
use data_looker.Bigquery.Value.{
  i128_max, raises, lowers, shifted, is_exponent, is_point, strip_minus, parts, scientific, Readers,
  nanos, at_shift, at_mantissa, at_exponent, timestamp,
}

all-digits : (s : Text) → All IsDigit s → all is_digit s ≡ true
all-digits [] d = refl
all-digits (c ∷ s) ((h, k), ds) = ground (arith, all-digits s ds)

digits-Without_exponent : (s : Text) → All IsDigit s → Without is_exponent s
digits-Without_exponent [] d = tt
digits-Without_exponent (c ∷ s) ((h, k), ds) = (ground arith, digits-Without_exponent s ds)

digits-Without_point : (s : Text) → All IsDigit s → Without is_point s
digits-Without_point [] d = tt
digits-Without_point (c ∷ s) ((h, k), ds) = (ground arith, digits-Without_point s ds)

-- How far the exponent that is written, if one is, moves the point: to the right, and to the left.
abbrev pub rightward : Option (Bool × Text) → ℕ
rightward none = 0
rightward (some (true, digits)) = 0
rightward (some (false, digits)) = digits_value digits 0

abbrev pub leftward : Option (Bool × Text) → ℕ
leftward none = 0
leftward (some (true, digits)) = digits_value digits 0
leftward (some (false, digits)) = 0

abbrev pub sign_text : Bool → Text
sign_text true = b'-' ∷ []
sign_text false = []

abbrev pub exponent_text : Option (Bool × Text) → Text
exponent_text none = []
exponent_text (some (below, digits)) = b'E' ∷ (sign_text below ++ digits)

abbrev pub IsExponent : Option (Bool × Text) → Type 0
IsExponent none = Unit
IsExponent (some (below, digits)) =
    All IsDigit digits × (digits ≢ []) × (digits_value digits 0 ≤ 2 ^ 31 - 1)

-- `-12.5E-3`, its signs and its exponent being there or not.
abbrev pub notation : Bool → Text → Text → Option (Bool × Text) → Text
notation negative whole fraction exponent =
    (sign_text negative ++ (whole ++ b'.' ∷ fraction)) ++ exponent_text exponent

-- The exponent as a number.
abbrev exponent_of : Option (Bool × Text) → ℤ
exponent_of none = pos 0
exponent_of (some (below, digits)) = signed below (digits_value digits 0)

parse-digits :
    (below : Bool) (s : Text)
    → All IsDigit s
    → s ≢ []
    → digits_value s 0 ≤ 2 ^ 31 - 1
    → parse_signed 31 (sign_text below ++ s) ≡ some (signed below (digits_value s 0))
unfolding parse_signed
parse-digits below [] d h k = absurd (h refl)
parse-digits false (c ∷ s) d h k = ground (arith, read_bounded-digits (2 ^ 31 - 1) (c ∷ s) 0 d k)
parse-digits true (c ∷ s) d h k =
    let below : digits_value (c ∷ s) 0 ≤ 2 ^ 31 = omega arith in
    rw (read_bounded-digits (2 ^ 31) (c ∷ s) 0 d below) refl

raises-signed : (below : Bool) (n : ℕ) → raises (signed below n) ≡ (if below then 0 else n)
raises-signed true zero = refl
raises-signed false zero = refl
raises-signed true (suc n) = refl
raises-signed false (suc n) = refl

lowers-signed : (below : Bool) (n : ℕ) → lowers (signed below n) ≡ (if below then n else 0)
lowers-signed true zero = refl
lowers-signed false zero = refl
lowers-signed true (suc n) = refl
lowers-signed false (suc n) = refl

raises-exponent : (e : Option (Bool × Text)) → raises (exponent_of e) ≡ rightward e
raises-exponent none = refl
raises-exponent (some (true, digits)) = raises-signed true (digits_value digits 0)
raises-exponent (some (false, digits)) = raises-signed false (digits_value digits 0)

lowers-exponent : (e : Option (Bool × Text)) → lowers (exponent_of e) ≡ leftward e
lowers-exponent none = refl
lowers-exponent (some (true, digits)) = lowers-signed true (digits_value digits 0)
lowers-exponent (some (false, digits)) = lowers-signed false (digits_value digits 0)

sign-Without : (negative : Bool) → Without is_exponent (sign_text negative)
sign-Without true = (refl, tt)
sign-Without false = tt

mantissa-Without :
    (negative : Bool) (whole fraction : Text)
    → All IsDigit whole
    → All IsDigit fraction
    → Without is_exponent (sign_text negative ++ (whole ++ b'.' ∷ fraction))
mantissa-Without negative whole fraction w f =
    let Plain : ℕ → Type 0 = λ c. is_exponent c ≡ false in
    All-append Plain (sign_text negative) (whole ++ b'.' ∷ fraction) (sign-Without negative) (
      All-append Plain whole (b'.' ∷ fraction) (digits-Without_exponent whole w)
        (refl, digits-Without_exponent fraction f))

scientific-notation :
    (negative : Bool) (whole fraction : Text) (exponent : Option (Bool × Text))
    → All IsDigit whole
    → All IsDigit fraction
    → IsExponent exponent
    → scientific (notation negative whole fraction exponent)
      ≡ some (sign_text negative ++ (whole ++ b'.' ∷ fraction), exponent_of exponent)
unfolding scientific parts
scientific-notation negative whole fraction none w f e =
    rw
      (
        append-nil (sign_text negative ++ (whole ++ b'.' ∷ fraction)),
        split_once-none is_exponent (sign_text negative ++ (whole ++ b'.' ∷ fraction))
            (mantissa-Without negative whole fraction w f),
      )
      refl
scientific-notation negative whole fraction (some (below, digits)) w f (d, h, k) =
    rw
      (
        split_once-found is_exponent (sign_text negative ++ (whole ++ b'.' ∷ fraction))
            (sign_text below ++ digits) b'E' (mantissa-Without negative whole fraction w f) refl,
        parse-digits below digits d h k,
      )
      refl

strip_minus-sign :
    (negative : Bool) (c : ℕ) (s : Text)
    → IsDigit c
    → strip_minus (sign_text negative ++ c ∷ s) ≡ (negative, c ∷ s)
strip_minus-sign true c s h = refl
strip_minus-sign false c s h = ground arith

shifted-up :
    (micros up down : ℕ)
    → down ≤ up
    → up - down ≤ 38
    → micros * 10 ^ (up - down) ≤ i128_max
    → shifted micros up down ≡ some (micros * 10 ^ (up - down))
unfolding shifted
shifted-up micros up down h k l = ground arith

shifted-down :
    (micros up down : ℕ)
    → up < down
    → down - up ≤ 38
    → shifted micros up down ≡ some (micros / 10 ^ (down - up))
unfolding shifted
shifted-down micros up down h k = ground arith

-- The whole microseconds of `digits` at a point that stands `up` digits to the right of where they
-- end and `down` to the left of that: what is past a microsecond is cut off.
abbrev pub microseconds : ℕ → ℕ → ℕ → ℕ
microseconds digits up down =
    if leb down up then digits * 10 ^ (up - down) else digits / 10 ^ (down - up)

abbrev pub nanoseconds : Text → Text → Option (Bool × Text) → ℕ
nanoseconds whole fraction exponent =
    microseconds (digits_value (whole ++ fraction) 0) (rightward exponent + 6)
      (leftward exponent + length fraction)
    * 1000

module _ (readers : Readers) where
  nanos-fits :
      (negative : Bool) (micros : ℕ)
      → micros * 1000 ≤ i128_max
      → nanos readers negative (some micros) ≡ readers.instant (signed negative (micros * 1000))
  unfolding nanos
  nanos-fits negative micros h = ground arith

  at_shift-some :
      (negative : Bool) (up down micros : ℕ)
      → up - down ≤ 38
      → down - up ≤ 38
      → microseconds micros up down * 1000 ≤ i128_max
      → at_shift readers negative up down (some micros)
        ≡ readers.instant (signed negative (microseconds micros up down * 1000))
  unfolding at_shift
  at_shift-some negative up down micros h k l = elim (Bool-cases (leb down up)) [
    | inl e ↦
        let le : down ≤ up = ground arith in
        let l' : micros * 10 ^ (up - down) * 1000 ≤ i128_max = rw e at l in
        let fits : micros * 10 ^ (up - down) ≤ i128_max = omega arith in
        rw (shifted-up micros up down le h fits, e)
          (nanos-fits negative (micros * 10 ^ (up - down)) l')
    | inr e ↦
        let lt : up < down = ground arith in
        let l' : micros / 10 ^ (down - up) * 1000 ≤ i128_max = rw e at l in
        rw (shifted-down micros up down lt k, e)
          (nanos-fits negative (micros / 10 ^ (down - up)) l')
  ]

  at_mantissa-digits :
      (negative : Bool) (c : ℕ) (whole fraction : Text) (exponent : Option (Bool × Text))
      → All IsDigit (c ∷ whole)
      → All IsDigit fraction
      → (rightward exponent + 6) - (leftward exponent + length fraction) ≤ 38
      → (leftward exponent + length fraction) - (rightward exponent + 6) ≤ 38
      → digits_value (c ∷ whole ++ fraction) 0 ≤ i128_max
      → nanoseconds (c ∷ whole) fraction exponent ≤ i128_max
      → at_mantissa readers negative (c ∷ whole) fraction (exponent_of exponent)
        ≡ readers.instant (signed negative (nanoseconds (c ∷ whole) fraction exponent))
  unfolding at_mantissa
  at_mantissa-digits negative c whole fraction exponent w f h k fits l =
      let d : All IsDigit (c ∷ whole ++ fraction) = All-append IsDigit (c ∷ whole) fraction w f in
      rw
        (
          all-digits (c ∷ whole ++ fraction) d,
          read_bounded-digits i128_max (c ∷ whole ++ fraction) 0 d fits,
          raises-exponent exponent,
          lowers-exponent exponent,
        )
        (at_shift-some negative (rightward exponent + 6) (leftward exponent + length fraction)
          (digits_value (c ∷ whole ++ fraction) 0) h k l)

  -- A time that BigQuery writes as decimal seconds, in the plain notation or with an exponent of
  -- either sign, is read as that many nanoseconds, what is past a microsecond cut off, where its
  -- digits and it are in the range of an `i128` and its point is moved by at most 38 digits.
  pub timestamp-notation :
      (negative : Bool) (c : ℕ) (whole fraction : Text) (exponent : Option (Bool × Text))
      → All IsDigit (c ∷ whole)
      → All IsDigit fraction
      → IsExponent exponent
      → (rightward exponent + 6) - (leftward exponent + length fraction) ≤ 38
      → (leftward exponent + length fraction) - (rightward exponent + 6) ≤ 38
      → digits_value (c ∷ whole ++ fraction) 0 ≤ i128_max
      → nanoseconds (c ∷ whole) fraction exponent ≤ i128_max
      → timestamp readers (notation negative (c ∷ whole) fraction exponent)
        ≡ readers.instant (signed negative (nanoseconds (c ∷ whole) fraction exponent))
  unfolding timestamp at_exponent
  timestamp-notation negative c whole fraction exponent w f e h k fits l =
      rw
        (
          scientific-notation negative (c ∷ whole) fraction exponent w f e,
          strip_minus-sign negative c (whole ++ b'.' ∷ fraction) w.0,
          split_once-found is_point (c ∷ whole) fraction b'.' (digits-Without_point (c ∷ whole) w)
              refl,
        )
        (at_mantissa-digits negative c whole fraction exponent w f h k fits l)
