-- ===== src/Syntax/Ranges.antt =====
-- The statements of a text stand one behind the other, a semicolon between them.
use data_looker.Prelude.{
  ℕ, suc, ◌≤◌, ◌<◌, Bool, List, [], ◌∷◌, ◌++◌, ◌==◌, select, arith, Bool-cases, inl, inr,
}
use data_looker.Text.{Text}
use data_looker.Syntax.{
  ScanToken, byte_length, get_range, not_blank, semicolons, Range, ranges, statements,
}

-- Each from `least` on, and behind the semicolon of the one before; none past `most`.
abbrev pub AreApart : ℕ → ℕ → List Range → Type 0
AreApart most least [] = Unit
AreApart most least ((from, to) ∷ rs) =
    (least ≤ from) × (from ≤ to) × (to ≤ most) × AreApart most (suc to) rs

-- The scanner's tokens stand in their order, each in the text.
abbrev pub IsScan : ℕ → ℕ → List ScanToken → Type 0
IsScan most least [] = least ≤ most
IsScan most least (t ∷ ts) = (least ≤ t.start) × (t.start < most) × IsScan most (suc t.start) ts

AreApart-le :
    (most least less : ℕ) (rs : List Range)
    → less ≤ least
    → AreApart most least rs
    → AreApart most less rs
AreApart-le most least less [] h a = tt
AreApart-le most least less ((from, to) ∷ rs) h (p, q, r, a) = (omega arith, q, r, a)

select-AreApart :
    (p : Range → Bool) (most least : ℕ) (rs : List Range)
    → AreApart most least rs
    → AreApart most least (select p rs)
select-AreApart p most least [] a = tt
select-AreApart p most least ((from, to) ∷ rs) (h, k, l, a) = elim (Bool-cases (p (from, to))) [
  | inl e ↦ rw e (h, k, l, select-AreApart p most (suc to) rs a)
  | inr e ↦ rw e (
      AreApart-le most (suc to) least (select p rs) (omega arith)
        (select-AreApart p most (suc to) rs a))
]

IsScan-le :
    (most least less : ℕ) (ts : List ScanToken)
    → less ≤ least
    → IsScan most least ts
    → IsScan most less ts
IsScan-le most least less [] h s = omega arith
IsScan-le most least less (t ∷ ts) h (p, q, s) = (omega arith, q, s)

ranges-AreApart :
    (most least : ℕ) (ts : List ScanToken)
    → IsScan most least ts
    → AreApart most least (ranges least (semicolons ts ++ most ∷ []))
unfolding ranges
ranges-AreApart most least [] s = (omega arith, s, omega arith, tt)
ranges-AreApart most least (t ∷ ts) (p, q, s) = elim (Bool-cases (t.token == b';')) [
  | inl e ↦ rw e (omega arith, p, omega arith, ranges-AreApart most (suc t.start) ts s)
  | inr e ↦
      rw e (ranges-AreApart most least ts (IsScan-le most (suc t.start) least ts (omega arith) s))
]

-- Where the scanner's tokens stand in order within the text, so do the statements that are checked:
-- none of them overlaps another, and a byte at least, the semicolon, is between them.
pub statements-AreApart :
    (sql : Text) (tokens : List ScanToken)
    → IsScan (byte_length sql) 0 tokens
    → AreApart (byte_length sql) 0 (statements sql tokens)
unfolding statements
statements-AreApart sql tokens s =
    select-AreApart (λ r. not_blank (get_range sql r.0 r.1)) (byte_length sql) 0
      (ranges 0 (semicolons tokens ++ byte_length sql ∷ []))
      (ranges-AreApart (byte_length sql) 0 tokens s)
