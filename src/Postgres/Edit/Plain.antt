-- ===== src/Postgres/Edit/Plain.antt =====
-- Texts that hold no placeholder outside quotes.
use data_looker.Prelude.{
  ◌≡◌, refl, Bool, true, false, not, ◌&&◌, ◌||◌, [], ◌∷◌, ◌++◌, arith, ◌==◌, if◌then◌else◌,
}
use data_looker.Text.{Text, codes, replace}
use data_looker.Postgres.Quote.{quote}
use data_looker.Postgres.Edit.{target, assignment, comparison}

-- Does a text that begins inside quotes or outside hold no `$` outside, and end outside?
unfoldable pub is_plain : Bool → Text → Bool
is_plain quoted [] = not quoted
is_plain quoted (c ∷ s) =
    if c == b'"' then is_plain (not quoted) s else (quoted || not (c == b'$')) && is_plain quoted s

pub is_plain-append :
    (quoted : Bool) (s t : Text)
    → is_plain quoted s ≡ true
    → is_plain false t ≡ true
    → is_plain quoted (s ++ t) ≡ true
unfolding is_plain
is_plain-append true [] t h k = cc
is_plain-append false [] t h k = k
is_plain-append quoted (c ∷ s) t h k =
    ground (arith, is_plain-append quoted s t, is_plain-append (not quoted) s t)

pub is_plain-doubled :
    (name : Text) → is_plain true (replace b'"' (b'"' ∷ b'"' ∷ []) name ++ b'"' ∷ []) ≡ true
unfolding is_plain replace
is_plain-doubled [] = refl
is_plain-doubled (c ∷ name) = ground (arith, is_plain-doubled name)

pub is_plain-quote : (name : Text) → is_plain false (quote name) ≡ true
unfolding is_plain quote
is_plain-quote name = is_plain-doubled name

pub is_plain-target : (schema table : Text) → is_plain false (target schema table) ≡ true
is_plain-target schema table =
    is_plain-append false (quote schema) (b'.' ∷ quote table) (is_plain-quote schema)
      (unfold is_plain in is_plain-quote table)

pub is_plain-comparison : (column : Text) → is_plain false (comparison column) ≡ true
is_plain-comparison column =
    is_plain-append false (quote column) (codes " IS NOT DISTINCT FROM ") (is_plain-quote column)
      (unfold is_plain in refl)

pub is_plain-assignment : (column : Text) → is_plain false (assignment column) ≡ true
is_plain-assignment column =
    is_plain-append false (quote column) (codes " = ") (is_plain-quote column)
      (unfold is_plain in refl)
