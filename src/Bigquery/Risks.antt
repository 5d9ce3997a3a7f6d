-- ===== src/Bigquery/Risks.antt =====
-- src-tauri/src/drivers/bigquery/risks.rs, and the part of mod.rs that asks it.
pub mod Production
pub mod Scripts
mod Tests
use data_looker.Prelude.{
  ℕ, Bool, true, false, not, ◌&&◌, ◌||◌, Option, none, some, List, [], ◌∷◌, ◌++◌, map,
  if◌then◌else◌, any, is_empty, flat_map,
}
use data_looker.Text.{Text, codes, text_eq, trim, strip_prefix}
use data_looker.Error.{AppError, timeout, Result, ok, err, ◌>>=◌}
use data_looker.Map.{is_some}
use data_looker.Drivers.{Hazard, Risk, drop_object, truncate, drop_column, dynamic, write}
use data_looker.Bigquery.Words.{Statement, statements, words}

-- What a dry run said of a statement.
pub record Planned : Type 0 where
  pub kind : Text
  pub target : Option Text

abbrev pub same_hazard : Hazard → Hazard → Bool
same_hazard drop_object drop_object = true
same_hazard truncate truncate = true
same_hazard drop_column drop_column = true
same_hazard dynamic dynamic = true
same_hazard write write = true
same_hazard Hazard.delete_without_where Hazard.delete_without_where = true
same_hazard Hazard.update_without_where Hazard.update_without_where = true
same_hazard _ _ = false

abbrev pub first_is : Text → List Text → Bool
first_is w [] = false
first_is w (v ∷ ws) = text_eq v w

-- The hazard that a word is, from the words behind it and whether `ALTER` stood before it.
unfoldable pub word_hazard : Bool → Text → List Text → Option Hazard
word_hazard altered w behind =
    if text_eq w (codes "DROP") && first_is (codes "COLUMN") behind
    then some drop_column
    else if text_eq w (codes "DROP") && not altered
    then some drop_object
    else if text_eq w (codes "TRUNCATE")
    then some truncate
    else if text_eq w (codes "EXECUTE")
    then some dynamic
    else none

-- A hazard is kept once.
abbrev pub push_new : List Hazard → Option Hazard → List Hazard
push_new found none = found
push_new found (some h) = if any (same_hazard h) found then found else found ++ h ∷ []

-- The loop of `hazards`; `altered` is `words[..at].iter().any(|word| word == "ALTER")`.
unfoldable pub hazards_from : Bool → List Hazard → List Text → List Hazard
unfolding word_hazard
hazards_from altered found [] = found
hazards_from altered found (w ∷ behind) =
    hazards_from (altered || text_eq w (codes "ALTER"))
      (push_new found (word_hazard altered w behind)) behind

unfoldable pub hazards : List Text → List Hazard
unfolding hazards_from
hazards ws = hazards_from false [] ws

abbrev pub writing : List Text
writing = map codes (
    "INSERT" ∷ "UPDATE" ∷ "DELETE" ∷ "MERGE" ∷ "CREATE" ∷ "ALTER" ∷ "DROP" ∷ "TRUNCATE" ∷ "UNDROP"
    ∷ "CALL" ∷ "EXECUTE" ∷ "EXPORT" ∷ "LOAD" ∷ "GRANT" ∷ "REVOKE" ∷ [])

unfoldable pub writes : List Text → Bool
writes ws = any (λ w. any (text_eq w) writing) ws

unfoldable pub suspect : Text → Bool
unfolding hazards
suspect sql = any (λ s. not (is_empty (hazards s.words))) (statements sql)

abbrev pub more_than_one {ℓ} : {A : Type ℓ} → List A → Bool
more_than_one [] = false
more_than_one (a ∷ []) = false
more_than_one (a ∷ b ∷ l) = true

unfoldable pub script : Text → Bool
script sql = more_than_one (statements sql)

unfoldable pub dynamic_sql : Text → Bool
unfolding hazards
dynamic_sql sql = any (λ s. any (same_hazard dynamic) (hazards s.words)) (statements sql)

abbrev pub listed : Option Text → List Text
listed none = []
listed (some t) = t ∷ []

-- A risk of the whole text.
abbrev pub whole : Text → Hazard → Option Text → Risk
whole sql h target = record { statement = trim sql; hazard = h; targets = listed target }

-- What a script's statement is asked about.
unfoldable pub found_in : Bool → Statement → List Hazard
unfolding hazards writes
found_in production s =
    let found = hazards s.words in
    if production && is_empty found && writes s.words then found ++ write ∷ [] else found

unfoldable pub statement_risks : Bool → Statement → List Risk
unfolding found_in
statement_risks production s =
    map (λ h. record { statement = s.text; hazard = h; targets = [] }) (found_in production s)

unfoldable pub risks : Text → Planned → Bool → List Risk
unfolding statement_risks hazards
risks sql planned production =
    if text_eq planned.kind (codes "SELECT")
    then []
    else if text_eq planned.kind (codes "SCRIPT")
    then flat_map (statement_risks production) (statements sql)
    else if is_some (strip_prefix (codes "DROP_") planned.kind)
    then whole sql drop_object planned.target ∷ []
    else if text_eq planned.kind (codes "TRUNCATE_TABLE")
    then whole sql truncate planned.target ∷ []
    else if text_eq planned.kind (codes "ALTER_TABLE")
        && any (same_hazard drop_column) (hazards (words sql))
    then whole sql drop_column none ∷ []
    else if production
    then whole sql write planned.target ∷ []
    else []

-- `BigQuerySession::risks`. `plan` is the dry run under its deadline: BigQuery's answer, its
-- error, or the timeout. It is called on one path only.
unfoldable pub session_risks : Text → Bool → Result Planned AppError → Result (List Risk) AppError
unfolding suspect script risks
session_risks sql production plan = if not production && not (suspect sql) then ok [] else do
  planned ← if script sql then ok (record { kind = codes "SCRIPT"; target = none }) else plan
  ok (risks sql planned production)
