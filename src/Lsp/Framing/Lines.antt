-- ===== src/Lsp/Framing/Lines.antt =====
-- `AsyncBufReadExt::read_line`: the bytes up to a newline, which is kept, or to the end.
use data_looker.Prelude.{
  ℕ, ◌≤◌, ◌≡◌, ◌≢◌, List, [], ◌∷◌, ◌++◌, arith, ◌==◌, if◌then◌else◌, All, length,
}

unfoldable pub read_line : List ℕ → List ℕ × List ℕ
read_line [] = ([], [])
read_line (b ∷ s) =
    let (line, rest) = read_line s in if b == b'\n' then (b ∷ [], s) else (b ∷ line, rest)

-- What a line leaves and takes is the stream.
pub length-read_line : (s : List ℕ) → length (read_line s).1 ≤ length s
unfolding read_line
length-read_line [] = omega arith
length-read_line (b ∷ s) = ground (arith, length-read_line s)

pub read_line-shorter : (b : ℕ) (s : List ℕ) → length (read_line (b ∷ s)).1 ≤ length s
unfolding read_line
read_line-shorter b s = ground (arith, length-read_line s)

pub read_line-append :
    (line rest : List ℕ)
    → All (λ b. b ≢ b'\n') line
    → read_line (line ++ b'\n' ∷ rest) ≡ (line ++ b'\n' ∷ [], rest)
unfolding read_line
read_line-append [] rest h = ground arith
read_line-append (b ∷ line) rest h = ground (arith, read_line-append line rest h.1)
