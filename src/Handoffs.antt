-- ===== src/Handoffs.antt =====
-- src-tauri/src/app/handoffs.rs: the statements an agent hands to the reader, five a minute at most.
-- An `Instant` is a number of nanoseconds. The rows of `connection::find_by_id` and the channel to
-- the windows are parameters.
mod Allowance
mod Tests
use data_looker.Prelude.{
  ℕ, suc, ◌+◌, ◌-◌, ◌*◌, ◌^◌, ◌≡◌, Bool, true, false, not, Option, none, some, List, [], ◌∷◌, ◌++◌,
  ◌==◌, leb, if◌then◌else◌, is_empty, length, take,
}
use data_looker.Text.{Text, codes, text_eq, trim}
use data_looker.Text.Decimal.{to_text}
use data_looker.Map.{is_some}
use data_looker.Error.{AppError, validation, not_found, conflict, Result, ok, err, ◌>>=◌}

abbrev pub at_most : ℕ
at_most = 5

abbrev pub within : ℕ
within = 60 * 10 ^ 9

abbrev pub title_length : ℕ
title_length = 40

pub record Handoff : Type 0 where
  pub connection_id : Text
  pub sql : Text
  pub title : Option Text

-- The loop of `admit` that drops what is no longer inside `within`; `handed` is oldest first.
unfoldable pub pop_expired : ℕ → List ℕ → List ℕ
pop_expired now [] = []
pop_expired now (at ∷ handed) =
    let rest = pop_expired now handed in if leb within (now - at) then rest else at ∷ handed

unfoldable pub admit : List ℕ → ℕ → Bool × List ℕ
unfolding pop_expired
admit handed now =
    let kept = pop_expired now handed in
    if leb at_most (length kept) then (false, kept) else (true, kept ++ now ∷ [])

unfoldable pub named_title : Option Text → Option Text
named_title none = none
named_title (some title) =
    let trimmed = trim title in if is_empty trimmed then none else some (take title_length trimmed)

abbrev pub no_window : AppError
no_window = not_found (codes "a window to hand the statement to")

abbrev pub too_many : AppError
too_many = conflict (
    to_text at_most
    ++ codes
        " statements have been handed to the reader in the last minute; wait for them to be read before handing over another")

-- What `hand_to_reader` does: what it answers, the allowance after it, and what was sent, if it was.
-- `stored` says whether the connection has a row, `windows` how many listen, and `sent` whether the
-- channel took it.
unfoldable pub hand_to_reader :
    (stored : Text → Result Bool AppError) (windows : ℕ) (sent : Handoff → Bool) (now : ℕ)
    → Text
    → Text
    → Option Text
    → List ℕ
    → Result (Unit {0}) AppError × List ℕ × Option Handoff
unfolding admit named_title
hand_to_reader stored windows sent now id sql title handed =
    let h : Handoff = record { connection_id = id; sql = sql; title = named_title title } in
    let (admitted, handed') = admit handed now in
    if is_empty (trim sql)
    then (err (validation (codes "there is no statement to hand over")), handed, none)
    else (elim (stored id) [
      | err e ↦ (err e, handed, none)
      | ok found ↦
          if not found
          then (err (not_found (codes "connection " ++ id)), handed, none)
          else (if windows == 0
              then (err no_window, handed, none)
              else (if not admitted
                  then (err too_many, handed', none)
                  else (if sent h
                      then (ok tt, handed', some h)
                      else (err no_window, handed', none))))
    ])

-- Handoffs one after the other at the given times: the allowance, and the times of those let
-- through, newest first.
unfoldable pub admits : List ℕ → List ℕ → List ℕ → List ℕ
unfolding admit
admits handed past [] = past
admits handed past (now ∷ times) =
    let (admitted, handed') = admit handed now in
    let let_through = admits handed' (now ∷ past) times in
    let held_back = admits handed' past times in if admitted then let_through else held_back
