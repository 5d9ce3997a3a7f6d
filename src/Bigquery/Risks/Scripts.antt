-- ===== src/Bigquery/Risks/Scripts.antt =====
-- What the words of a script say, and that asking them first loses nothing.
use data_looker.Prelude.{
  ◌≡◌, ◌≢◌, refl, sym, ap, Bool, true, false, not, ◌&&◌, ◌||◌, List, [], ◌∷◌, ◌++◌, arith, any,
  is_empty, flat_map, Bool-cases, inl, inr, Elem, Elem-flat_map,
}
use data_looker.Text.{Text, codes, text_eq, text_eq_iff}
use data_looker.Error.{AppError, Result, ok}
use data_looker.Drivers.{Hazard, Risk, dynamic, truncate, drop_column, drop_object}
use data_looker.Bigquery.Words.{Statement, statements}
use data_looker.Bigquery.Risks.{
  Planned, same_hazard, word_hazard, push_new, hazards_from, hazards, writes, suspect, script,
  found_in, statement_risks, risks, session_risks,
}

any-append {ℓ} :
    {A : Type ℓ} (p : A → Bool) (xs ys : List A) → any p (xs ++ ys) ≡ (any p xs || any p ys)
any-append p [] ys = refl
any-append p (x ∷ xs) ys = ground (arith, any-append p xs ys)

execute_hazard :
    (altered : Bool) (w : Text) (behind : List Text) (found : List Hazard)
    → any (same_hazard dynamic) (push_new found (word_hazard altered w behind))
      ≡ (any (same_hazard dynamic) found || text_eq w (codes "EXECUTE"))
unfolding word_hazard
execute_hazard altered w behind found = elim (Bool-cases (text_eq w (codes "EXECUTE"))) [
  | inl e ↦
      rw ((text_eq_iff w (codes "EXECUTE")).0 e)
        (ground (arith, any-append (same_hazard dynamic) found (dynamic ∷ [])))
  | inr e ↦ ground (
    arith,
    any-append (same_hazard dynamic) found (drop_column ∷ []),
    any-append (same_hazard dynamic) found (drop_object ∷ []),
    any-append (same_hazard dynamic) found (truncate ∷ []),
  )
]

hazards_from-dynamic :
    (altered : Bool) (found : List Hazard) (ws : List Text)
    → any (same_hazard dynamic) (hazards_from altered found ws)
      ≡ (any (same_hazard dynamic) found || any (λ w. text_eq w (codes "EXECUTE")) ws)
unfolding hazards_from
hazards_from-dynamic altered found [] = ground arith
hazards_from-dynamic altered found (w ∷ ws) = ground (
  arith,
  execute_hazard altered w ws found,
  hazards_from-dynamic (altered || text_eq w (codes "ALTER"))
      (push_new found (word_hazard altered w ws)) ws,
)

-- A statement is taken to run a string as SQL exactly when `EXECUTE` is one of its bare words,
-- whatever else it is asked about.
pub hazards-dynamic :
    (ws : List Text)
    → any (same_hazard dynamic) (hazards ws) ≡ any (λ w. text_eq w (codes "EXECUTE")) ws
unfolding hazards
hazards-dynamic ws = hazards_from-dynamic false [] ws

unsuspected_statement :
    (s : Statement) → not (is_empty (hazards s.words)) ≡ false → statement_risks false s ≡ []
unfolding statement_risks
unsuspected_statement s e = of_hazards (hazards s.words) refl e
  where
    of_hazards :
        (hs : List Hazard)
        → hazards s.words ≡ hs
        → not (is_empty hs) ≡ false
        → statement_risks false s ≡ []
    of_hazards [] e _ = unfold statement_risks in rw e
    of_hazards (h ∷ hs) _ k = cc

unsuspected :
    (ss : List Statement)
    → any (λ s. not (is_empty (hazards s.words))) ss ≡ false
    → flat_map (statement_risks false) ss ≡ []
unsuspected [] e = refl
unsuspected (s ∷ ss) e = ground (arith, unsuspected_statement s, unsuspected ss)

unsuspected_sql :
    (sql : Text) (production : Bool)
    → (not production && not (suspect sql)) ≡ true
    → flat_map (statement_risks production) (statements sql) ≡ []
unfolding suspect
unsuspected_sql sql true e = cc
unsuspected_sql sql false e = unsuspected (statements sql) (ground arith)

-- Asking the words before BigQuery loses nothing of a script: whatever the dry run would have
-- answered, the risks of more than one statement are those of each of them, in their order.
pub session_risks-script :
    (sql : Text) (production : Bool) (plan : Result Planned AppError)
    → script sql ≡ true
    → session_risks sql production plan
      ≡ ok (flat_map (statement_risks production) (statements sql))
unfolding session_risks risks
session_risks-script sql production plan h =
    elim (Bool-cases (not production && not (suspect sql))) [
      | inl skipped ↦ rw skipped (ap ok (sym (unsuspected_sql sql production skipped)))
      | inr asked ↦ rw (asked, h)
    ]

asked_first :
    (s : Statement) (hs : List Hazard)
    → found_in true s ≡ hs
    → hs ≢ []
    → (r : Risk) × Elem r (statement_risks true s) × (r.statement ≡ s.text)
unfolding statement_risks
asked_first s [] e k = absurd (k refl)
asked_first s (h ∷ hs) e k =
    let r : Risk = record { statement = s.text; hazard = h; targets = [] } in
    (r, rw e (inl refl), refl)

found_in-ne-nil : (s : Statement) → writes s.words ≡ true → found_in true s ≢ []
unfolding found_in
found_in-ne-nil s w = of_hazards (hazards s.words) refl
  where
    of_hazards : (hs : List Hazard) → hazards s.words ≡ hs → found_in true s ≢ []
    of_hazards [] e = unfold found_in in rw (e, w) (λ k. cc)
    of_hazards (h ∷ hs) e = unfold found_in in rw e (λ k. cc)

-- On a production connection every statement of a script with a word that writes is asked about:
-- one of the risks carries its text.
pub writing_statement-asked :
    (sql : Text) (planned : Planned) (s : Statement)
    → planned.kind ≡ codes "SCRIPT"
    → Elem s (statements sql)
    → writes s.words ≡ true
    → (r : Risk) × Elem r (risks sql planned true) × (r.statement ≡ s.text)
unfolding risks
writing_statement-asked sql planned s k m w =
    let (r, in_risks, same) = asked_first s (found_in true s) refl (found_in-ne-nil s w) in
    (r, rw k (Elem-flat_map (statement_risks true) s (statements sql) r m in_risks), same)
