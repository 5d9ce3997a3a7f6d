-- ===== src/Syntax/Positions.antt =====
-- A byte of a text is marked at its line and column.
use data_looker.Prelude.{
  ℕ, suc, ◌+◌, ◌*◌, ◌^◌, ◌≤◌, ◌<◌, ◌≡◌, refl, sym, ap, ◌∙◌, true, false, [], ◌∷◌, ◌++◌, ◌==◌,
  if◌then◌else◌, length, arith, Bool-cases, inl, inr,
}
use data_looker.Text.{Text}
use data_looker.Text.Utf8.{len_utf8, len_utf16}
use data_looker.Syntax.{byte_length, position_from, position}

-- The newlines of a text, the text behind the last of them, and the UTF-16 units of a text.
abbrev pub newlines : Text → ℕ
newlines [] = 0
newlines (c ∷ s) = let rest = newlines s in if c == b'\n' then suc rest else rest

abbrev pub last_line : Text → Text
last_line [] = []
last_line (c ∷ s) =
    let rest = last_line s in if newlines s == 0 then (if c == b'\n' then s else c ∷ s) else rest

unfoldable pub units : Text → ℕ
units [] = 0
units (c ∷ s) = len_utf16 c + units s

-- Where a text ends that begins in a column of a line.
abbrev end_line : ℕ → Text → ℕ
end_line line s = line + newlines s

abbrev end_column : ℕ → Text → ℕ
end_column column s = if newlines s == 0 then column + units s else suc (units (last_line s))

len_utf8-positive : (c : ℕ) → 1 ≤ len_utf8 c
unfolding len_utf8
len_utf8-positive c = ground arith

len_utf16-bounds : (c : ℕ) → len_utf16 c ≤ 2
unfolding len_utf16
len_utf16-bounds c = ground arith

abbrev wrap : ℕ
wrap = 2 ^ 32

below_step :
    (c : ℕ) (s : Text) (at offset line column : ℕ)
    → at < offset
    → suc line < wrap
    → (c == b'\n') ≡ true
    → position_from (c ∷ s) at offset line column
      ≡ position_from s (at + len_utf8 c) offset (suc line) 1
unfolding position_from
below_step c s at offset line column h k n = ground arith

beside_step :
    (c : ℕ) (s : Text) (at offset line column : ℕ)
    → at < offset
    → column + len_utf16 c < wrap
    → (c == b'\n') ≡ false
    → position_from (c ∷ s) at offset line column
      ≡ position_from s (at + len_utf8 c) offset line (column + len_utf16 c)
unfolding position_from
beside_step c s at offset line column h k n = ground arith

position_there :
    (after : Text) (at line column : ℕ) → position_from after at at line column ≡ (line, column)
unfolding position_from
position_there [] at line column = refl
position_there (c ∷ s) at line column = ground arith

end_column-newline :
    (c column : ℕ) (s : Text) → (c == b'\n') ≡ true → end_column 1 s ≡ end_column column (c ∷ s)
end_column-newline c column s h = ground (arith, h)

end_column-other :
    (c column : ℕ) (s : Text)
    → (c == b'\n') ≡ false
    → end_column (column + len_utf16 c) s ≡ end_column column (c ∷ s)
unfolding units
end_column-other c column s h = ground (arith, h)

end_line-newline :
    (c line : ℕ) (s : Text) → (c == b'\n') ≡ true → end_line (suc line) s ≡ end_line line (c ∷ s)
end_line-newline c line s h = ground (arith, h)

end_line-other :
    (c line : ℕ) (s : Text) → (c == b'\n') ≡ false → end_line line s ≡ end_line line (c ∷ s)
end_line-other c line s h = ground (arith, h)

both : {a b c d : ℕ} → a ≡ c → b ≡ d → ◌≡◌ {A = ℕ × ℕ} (a, b) (c, d)
both p q = λ i. (p i, q i)

position_from-append :
    (before after : Text) (at line column : ℕ)
    → line + length before < wrap
    → column + 2 * length before < wrap
    → 1 + 2 * length before < wrap
    → position_from (before ++ after) at (at + byte_length before) line column
      ≡ (end_line line before, end_column column before)
unfolding byte_length units
position_from-append [] after at line column h k l =
    let here : at + 0 ≡ at = omega arith in
    let same_line : line + 0 ≡ line = omega arith in
    let same_column : column + 0 ≡ column = omega arith in
    rw (here, same_line, same_column) (position_there after at line column)
position_from-append (c ∷ s) after at line column h k l =
    let here = at + len_utf8 c in
    let offset : at + (len_utf8 c + byte_length s) ≡ here + byte_length s = omega arith in
    let in_text : at < here + byte_length s = omega (arith, len_utf8-positive c) in
    let narrow = len_utf16-bounds c in
    elim (Bool-cases (c == b'\n')) [
      | inl n ↦
          ap (λ o. position_from (c ∷ s ++ after) at o line column) offset
          ∙ below_step c (s ++ after) at (here + byte_length s) line column in_text (omega arith) n
          ∙ position_from-append s after here (suc line) 1 (omega arith) (omega arith) (omega arith)
          ∙ both (end_line-newline c line s n) (end_column-newline c column s n)
      | inr n ↦
          ap (λ o. position_from (c ∷ s ++ after) at o line column) offset
          ∙ beside_step c (s ++ after) at (here + byte_length s) line column in_text
              (omega (arith, narrow)) n
          ∙ position_from-append s after here line (column + len_utf16 c) (omega arith)
              (omega (arith, narrow)) (omega arith)
          ∙ both (end_line-other c line s n) (end_column-other c column s n)
    ]

last_line-none : (s : Text) → (newlines s == 0) ≡ true → last_line s ≡ s
last_line-none [] h = refl
last_line-none (c ∷ s) h = ground (arith, h)

end_column-first : (s : Text) → end_column 1 s ≡ suc (units (last_line s))
end_column-first s = ground (arith, last_line-none s)

-- The byte behind a part of the text is marked one line further down than the part has newlines, and
-- one column further right than its last line has UTF-16 units, where these are numbers of 32 bits.
pub position-append :
    (before after : Text)
    → 1 + 2 * length before < 2 ^ 32
    → position (before ++ after) (byte_length before)
      ≡ (suc (newlines before), suc (units (last_line before)))
unfolding position
position-append before after h =
    let start : 0 + byte_length before ≡ byte_length before = omega arith in
    ap (λ o. position_from (before ++ after) 0 o 1 1) (sym start)
    ∙ position_from-append before after 0 1 1 (omega arith) h h
    ∙ both (omega arith) (end_column-first before)
