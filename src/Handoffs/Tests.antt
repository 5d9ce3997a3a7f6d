-- ===== src/Handoffs/Tests.antt =====
-- Handoffs at concrete times.
use data_looker.Prelude.{ℕ, ◌≡◌, refl, List, [], ◌∷◌, arith}
use data_looker.Handoffs.{admits, admit, pop_expired}
use data_looker.Handoffs.Allowance.{admits-five_a_minute, Spaced}

abbrev times : List ℕ
times = 0 ∷ 1 ∷ 2 ∷ 3 ∷ 4 ∷ 5 ∷ 60000000000 ∷ []

let_through : admits [] [] times ≡ 60000000000 ∷ 4 ∷ 3 ∷ 2 ∷ 1 ∷ 0 ∷ []
unfolding admits admit pop_expired
let_through = refl

admits-five_a_minute_example : Spaced (admits [] [] times)
admits-five_a_minute_example = admits-five_a_minute times (omega arith)
