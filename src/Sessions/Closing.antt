-- ===== src/Sessions/Closing.antt =====
-- A connection that is closed takes its sessions with it, also those still being opened.
use data_looker.Prelude.{
  ℕ, suc, ◌≤◌, ◌<◌, ◌≡◌, false, not, none, some, List, [], ◌∷◌, ◌==◌, Elem, if◌then◌else◌, ◌⊎◌, inl,
  inr, refl, arith, Option-cases, Bool-cases, sym, ap, ◌∙◌,
}
use data_looker.Text.{Text, text_eq, text_eq_iff, text_eq_refl}
use data_looker.Map.{get, insert, insert-hit, insert-miss, get-insert, get-retain, text_is_eq}
use data_looker.Sessions.{
  Whose, Session, Registry, closes, look, land, peek, drop_one, close, Operation, lands, drops,
  closing, step, steps, key_is_eq, key_eq,
}

land-closes :
    (r : Registry) (id : Text) (whose : Whose) (seen : ℕ) (s : Session) (j : Text)
    → closes (land r id whose seen s).1 j ≡ closes r j
unfolding land closes
land-closes r id whose seen s j = elim (Option-cases (get r.open_sessions (id, whose))) [
  | inl e ↦ ground arith
  | inr (first, e) ↦ ground arith
]

close-closes :
    (r : Registry) (id j : Text)
    → closes (close r id) j ≡ (if text_eq id j then suc (closes r id) else closes r j)
unfolding close closes
close-closes r id j = ground (arith, get-insert r.closed id j (suc (closes r id)))

step-closes : (r : Registry) (o : Operation) (j : Text) → closes r j ≤ closes (step r o) j
unfolding step drop_one closes
step-closes r (lands id whose seen s) j = omega (arith, land-closes r id whose seen s j)
step-closes r (drops id whose) j = omega arith
step-closes r (closing id) j = ground (arith, close-closes r id j, text_eq_iff id j)

steps-closes : (r : Registry) (os : List Operation) (j : Text) → closes r j ≤ closes (steps r os) j
unfolding steps
steps-closes r [] j = omega arith
steps-closes r (o ∷ os) j = omega (arith, step-closes r o j, steps-closes (step r o) os j)

closed-once : (r : Registry) (j : Text) → closes (close r j) j ≡ suc (closes r j)
closed-once r j = ground (arith, close-closes r j j, text_eq_refl j)

steps-closing :
    (r : Registry) (os : List Operation) (j : Text)
    → Elem (closing j) os
    → closes r j < closes (steps r os) j
unfolding steps step
steps-closing r [] j h = absurd h
steps-closing r (o ∷ os) j (inl e) =
    rw (sym e) (omega (arith, closed-once r j, steps-closes (close r j) os j))
steps-closing r (o ∷ os) j (inr h) =
    omega (arith, step-closes r o j, steps-closing (step r o) os j h)

-- A caller of `get` looked, found nothing open and opened a session; meanwhile others did what they
-- did to the registry, and one of the things done was closing this connection. Then the session is
-- not put in the registry nor answered, whatever else was done: the caller looks again.
pub land-closed :
    (r : Registry) (os : List Operation) (id : Text) (whose : Whose) (seen : ℕ) (s : Session)
    → look r id whose ≡ inr seen
    → Elem (closing id) os
    → land (steps r os) id whose seen s ≡ (none, steps r os)
unfolding look land
land-closed r os id whose seen s h k = elim (Option-cases (get r.open_sessions (id, whose))) [
  | inl e ↦ ground (arith, steps-closing r os id k)
  | inr (first, e) ↦ ground arith
]

land-cases :
    (r : Registry) (id : Text) (whose : Whose) (seen : ℕ) (s : Session)
    → (land r id whose seen s ≡ (none, r))
      ⊎ ((get r.open_sessions (id, whose) ≡ (land r id whose seen s).0)
          × ((land r id whose seen s).1 ≡ r))
      ⊎ (land r id whose seen s
          ≡ (some s, record r { open_sessions = insert r.open_sessions (id, whose) s }))
unfolding land
land-cases r id whose seen s = elim (Bool-cases (closes r id == seen)) [
  | inl same ↦ elim (Option-cases (get r.open_sessions (id, whose))) [
    | inl e ↦ inr (inr (ground arith))
    | inr (first, e) ↦ inr (inl (ground arith, ground arith))
  ]
  | inr other ↦ inl (ground arith)
]

-- A session that is landed is answered only if it is then the one open for that caller, and every
-- other caller's session is as it was.
pub land-peek :
    (r : Registry) (id : Text) (whose : Whose) (seen : ℕ) (s t : Session)
    → (land r id whose seen s).0 ≡ some t
    → (peek (land r id whose seen s).1 id whose ≡ some t)
      × ((j : Text) (w : Whose)
          → key_eq (id, whose) (j, w) ≡ false
          → peek (land r id whose seen s).1 j w ≡ peek r j w)
unfolding peek
land-peek r id whose seen s t h = elim (land-cases r id whose seen s) [
  | inl e ↦ ground arith
  | inr (inl (k, e)) ↦ (rw e (k ∙ h), λ j w apart. rw e refl)
  | inr (inr e) ↦ (
    rw e (insert-hit r.open_sessions (id, whose) s ∙ ap (λ p. p.0) (sym e) ∙ h),
    λ j w apart. rw e (insert-miss r.open_sessions (id, whose) (j, w) s apart),
  )
]

-- Closing a connection leaves neither of its sessions open and every other connection's as they
-- were.
pub close-peek :
    (r : Registry) (id j : Text) (whose : Whose)
    → peek (close r id) j whose ≡ (if text_eq j id then none else peek r j whose)
unfolding close peek
close-peek r id j whose =
    ground
      (arith, get-retain (λ (k : Text × Whose). not (text_eq k.0 id)) r.open_sessions (j, whose))
