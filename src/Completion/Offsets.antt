-- ===== src/Completion/Offsets.antt =====
-- The offsets of the editor and those of the analyzer answer one another.
use data_looker.Prelude.{
  ℕ, ◌+◌, ◌-◌, ◌^◌, ◌≤◌, ◌<◌, ◌≡◌, some, [], ◌∷◌, ◌++◌, arith, refl, ◌∙◌, subst,
}
use data_looker.Text.{Text}
use data_looker.Text.Utf8.{len_utf8, len_utf16}
use data_looker.Completion.{byte_offset_from, byte_offset, utf16_offset}

-- How long a text is, in the units of each.
unfoldable pub utf8_length : Text → ℕ
utf8_length [] = 0
utf8_length (c ∷ cs) = len_utf8 c + utf8_length cs

unfoldable pub utf16_length : Text → ℕ
utf16_length [] = 0
utf16_length (c ∷ cs) = len_utf16 c + utf16_length cs

len_utf16-pos : (c : ℕ) → 1 ≤ len_utf16 c
unfolding len_utf16
len_utf16-pos c = ground arith

len_utf8-pos : (c : ℕ) → 1 ≤ len_utf8 c
unfolding len_utf8
len_utf8-pos c = ground arith

byte_offset_from-at :
    (xs ys : Text) (at counted : ℕ)
    → counted + utf16_length (xs ++ ys) < 2 ^ 32
    → byte_offset_from (xs ++ ys) (counted + utf16_length xs) at counted ≡ at + utf8_length xs
unfolding byte_offset_from utf16_length utf8_length
byte_offset_from-at [] [] at counted h = omega arith
byte_offset_from-at [] (y ∷ ys) at counted h = ground arith
byte_offset_from-at (x ∷ xs) ys at counted h =
    ground
      (arith, len_utf16-pos x, byte_offset_from-at xs ys (at + len_utf8 x) (counted + len_utf16 x))

utf16_offset-at :
    (xs ys : Text)
    → utf16_length xs < 2 ^ 32
    → utf16_offset (xs ++ ys) (utf8_length xs) ≡ some (utf16_length xs)
unfolding utf16_offset utf16_length utf8_length
utf16_offset-at [] [] h = refl
utf16_offset-at [] (y ∷ ys) h = refl
utf16_offset-at (x ∷ xs) ys h =
    let back : ((len_utf8 x + utf8_length xs) - len_utf8 x ≡ utf8_length xs) = omega arith in
    let rest = utf16_offset-at xs ys (omega arith) in
    rw back (rw rest (ground (arith, len_utf8-pos x)))

utf16_length-append : (xs ys : Text) → utf16_length xs ≤ utf16_length (xs ++ ys)
unfolding utf16_length
utf16_length-append [] ys = omega arith
utf16_length-append (x ∷ xs) ys = omega (arith, utf16_length-append xs ys)

shorter : (xs ys : Text) → utf16_length (xs ++ ys) < 2 ^ 32 → utf16_length xs < 2 ^ 32
unfolding utf16_length
shorter [] ys h = omega arith
shorter (x ∷ xs) ys h =
    fits (len_utf16 x) (utf16_length xs) (utf16_length (xs ++ ys)) (utf16_length-append xs ys) h
  where
    fits : (a b c : ℕ) → b ≤ c → a + c < 2 ^ 32 → a + b < 2 ^ 32
    fits a b c p q = omega arith

byte_offset-at :
    (xs ys : Text)
    → utf16_length (xs ++ ys) < 2 ^ 32
    → byte_offset (xs ++ ys) (utf16_length xs) ≡ utf8_length xs
unfolding byte_offset
byte_offset-at xs ys h =
    subst (λ u. byte_offset_from (xs ++ ys) u 0 0 ≡ utf8_length xs) (plain (utf16_length xs))
      (byte_offset_from-at xs ys 0 0 (omega arith) ∙ plain (utf8_length xs))
  where
    plain : (n : ℕ) → 0 + n ≡ n
    plain n = omega arith

-- In a text of fewer than 2 ^ 32 UTF-16 units, the place after any of its characters, in UTF-16
-- units, is taken to that place in UTF-8 bytes, and back.
pub offsets-round_trip :
    (xs ys : Text)
    → utf16_length (xs ++ ys) < 2 ^ 32
    → (byte_offset (xs ++ ys) (utf16_length xs) ≡ utf8_length xs)
      × (utf16_offset (xs ++ ys) (byte_offset (xs ++ ys) (utf16_length xs))
          ≡ some (utf16_length xs))
offsets-round_trip xs ys h =
    let there = byte_offset-at xs ys h in
    (there, rw there (utf16_offset-at xs ys (shorter xs ys h)))
