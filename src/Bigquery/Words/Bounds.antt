-- ===== src/Bigquery/Words/Bounds.antt =====
-- The tokens lie in the text, in order, and do not overlap.
use data_looker.Prelude.{
  ℕ, zero, suc, ◌+◌, ◌-◌, ◌≤◌, ◌<◌, ◌≡◌, ◌≢◌, refl, true, List, [], ◌∷◌, arith, length,
}
use data_looker.Text.{Text}
use data_looker.Bigquery.Words.{
  Token, Kind, nothing, word, semicolon, is_word_char, word_length, round, emit, tokens_at, tokens,
}

-- Each token starts where the one before it ended or later, holds something, and ends by `hi`.
abbrev pub AreOrdered : ℕ → ℕ → List Token → Type 0
AreOrdered lo hi [] = Unit
AreOrdered lo hi (t ∷ ts) =
    (lo ≤ t.start) × (t.start < t.end) × (t.end ≤ hi) × AreOrdered t.end hi ts

AreOrdered-weaken :
    (lo lo' hi : ℕ) (ts : List Token) → lo ≤ lo' → AreOrdered lo' hi ts → AreOrdered lo hi ts
AreOrdered-weaken lo lo' hi [] h o = tt
AreOrdered-weaken lo lo' hi (t ∷ ts) h o = (omega arith, o.1, o.2, o.3)

word_length-le : (s : Text) → word_length s ≤ length s
unfolding word_length
word_length-le [] = omega arith
word_length-le (c ∷ s) = ground (arith, word_length-le s)

word_length-pos : (c : ℕ) (s : Text) → is_word_char c ≡ true → 0 < word_length (c ∷ s)
unfolding word_length
word_length-pos c s h = ground arith

round_bounds :
    (c : ℕ) (s : Text)
    → (round c s).1 ≢ nothing
    → (0 < (round c s).0) × ((round c s).0 ≤ suc (length s))
unfolding round
round_bounds c s h = ground (arith, word_length-le (c ∷ s), word_length-pos c s)

AreOrdered-recount :
    (lo hi lo' hi' : ℕ) (ts : List Token)
    → lo' ≡ lo
    → hi' ≡ hi
    → AreOrdered lo hi ts
    → AreOrdered lo' hi' ts
AreOrdered-recount lo hi lo' hi' ts e k o = rw (e, k) o

emit-AreOrdered :
    (n at hi : ℕ) (kind : Kind) (ts : List Token)
    → (kind ≢ nothing → (0 < n) × (at + n ≤ hi))
    → AreOrdered (suc at + (n - 1)) hi ts
    → AreOrdered at hi (emit kind at (at + n) ts)
emit-AreOrdered n at hi nothing ts b o = AreOrdered-weaken at _ hi ts (omega arith) o
emit-AreOrdered n at hi word ts b o =
    let (pos, fits) = b (λ e. cc) in
    (omega arith, omega arith, fits, AreOrdered-recount _ hi (at + n) hi ts (omega arith) refl o)
emit-AreOrdered n at hi semicolon ts b o =
    let (pos, fits) = b (λ e. cc) in
    (omega arith, omega arith, fits, AreOrdered-recount _ hi (at + n) hi ts (omega arith) refl o)

tokens_at-AreOrdered :
    (s : Text) (at skip : ℕ) → AreOrdered (at + skip) (at + length s) (tokens_at at skip s)
unfolding tokens_at
tokens_at-AreOrdered [] at zero = tt
tokens_at-AreOrdered [] at (suc skip) = tt
tokens_at-AreOrdered (c ∷ s) at (suc skip) =
    AreOrdered-recount (suc at + skip) (suc at + length s) _ _ (tokens_at (suc at) skip s)
      (omega arith) (omega arith) (tokens_at-AreOrdered s (suc at) skip)
tokens_at-AreOrdered (c ∷ s) at zero =
    let (n, kind) = round c s in
    AreOrdered-recount at (at + suc (length s)) _ _
      (emit kind at (at + n) (tokens_at (suc at) (n - 1) s)) (omega arith) (omega arith)
      (emit-AreOrdered n at (at + suc (length s)) kind (tokens_at (suc at) (n - 1) s)
        (λ e. let (pos, fits) = round_bounds c s e in (pos, omega arith))
        (AreOrdered-recount _ _ _ _ (tokens_at (suc at) (n - 1) s) refl (omega arith)
          (tokens_at-AreOrdered s (suc at) (n - 1))))

-- The tokens of a text hold at least a character each, lie inside the text, come in the order of
-- the text and do not overlap.
pub tokens-AreOrdered : (text : Text) → AreOrdered 0 (length text) (tokens text)
unfolding tokens
tokens-AreOrdered text =
    AreOrdered-recount (0 + 0) (0 + length text) 0 (length text) (tokens_at 0 0 text) refl
      (omega arith) (tokens_at-AreOrdered text 0 0)
