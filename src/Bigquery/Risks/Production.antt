-- ===== src/Bigquery/Risks/Production.antt =====
-- What marking a connection production changes.
use data_looker.Prelude.{
  ◌≡◌, ◌≢◌, ◌⊎◌, refl, sym, subst, true, false, List, [], ◌∷◌, arith, flat_map, inl, inr, Elem,
  Elem-append_left, Elem-append_right, Elem-append-cases,
}
use data_looker.Text.{Text, codes, text_eq_iff}
use data_looker.Drivers.{Hazard, Risk}
use data_looker.Bigquery.Words.{Statement, statements}
use data_looker.Bigquery.Risks.{Planned, hazards, found_in, statement_risks, risks}

-- A statement that is asked about anyway is asked the same on a production connection.
same_found : (s : Statement) → (found_in false s ≡ []) ⊎ (found_in true s ≡ found_in false s)
unfolding found_in
same_found s = of_hazards (hazards s.words) refl
  where
    of_hazards :
        (hs : List Hazard)
        → hazards s.words ≡ hs
        → (found_in false s ≡ []) ⊎ (found_in true s ≡ found_in false s)
    of_hazards [] e = inl (unfold found_in in rw e)
    of_hazards (h ∷ hs) e = inr (unfold found_in in rw e)

kept_statement :
    (s : Statement) (r : Risk) → Elem r (statement_risks false s) → Elem r (statement_risks true s)
unfolding statement_risks
kept_statement s r m = elim (same_found s) [ inl e ↦ absurd (rw e at m) | inr e ↦ rw e m ]

kept_statements :
    (ss : List Statement) (r : Risk)
    → Elem r (flat_map (statement_risks false) ss)
    → Elem r (flat_map (statement_risks true) ss)
kept_statements [] r m = m
kept_statements (s ∷ ss) r m = elim (Elem-append-cases r (statement_risks false s) _ m) [
  | inl l ↦ Elem-append_left r (statement_risks true s) _ (kept_statement s r l)
  | inr k ↦ Elem-append_right r (statement_risks true s) _ (kept_statements ss r k)
]

risks_cases :
    (sql : Text) (planned : Planned)
    → (risks sql planned false ≡ [])
      ⊎ (risks sql planned false ≡ risks sql planned true)
      ⊎ ((risks sql planned false ≡ flat_map (statement_risks false) (statements sql))
          × (risks sql planned true ≡ flat_map (statement_risks true) (statements sql)))
unfolding risks
risks_cases sql planned = ground arith

-- Marking a connection production takes no question away: what is asked about a statement without
-- the mark is asked about it with the mark.
pub risks-production :
    (sql : Text) (planned : Planned) (r : Risk)
    → Elem r (risks sql planned false)
    → Elem r (risks sql planned true)
risks-production sql planned r m = elim (risks_cases sql planned) [
  | inl e ↦ absurd (subst (Elem r) e m)
  | inr (inl e) ↦ subst (Elem r) e m
  | inr (inr (e, k)) ↦
      subst (Elem r) (sym k) (kept_statements (statements sql) r (subst (Elem r) e m))
]

-- On a production connection the only statement that is no script and that nothing is asked about
-- is one that BigQuery calls a `SELECT`.
pub unasked-select :
    (sql : Text) (planned : Planned)
    → planned.kind ≢ codes "SCRIPT"
    → risks sql planned true ≡ []
    → planned.kind ≡ codes "SELECT"
unfolding risks
unasked-select sql planned n e =
    ground
      (arith, text_eq_iff planned.kind (codes "SELECT"), text_eq_iff planned.kind (codes "SCRIPT"))
