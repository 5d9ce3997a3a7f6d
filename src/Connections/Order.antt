-- ===== src/Connections/Order.antt =====
-- The order of the connections loses none and repeats none.
use data_looker.Prelude.{
  ◌≡◌, ◌≢◌, true, false, List, [], ◌∷◌, ◌++◌, ◌⊎◌, inl, inr, arith, ◌↔◌, Elem, Elem-append_left,
  Elem-append_right, Elem-append-cases, Bool-cases, sym, subst,
}
use data_looker.Text.{Text, text_eq, text_eq_iff}
use data_looker.Connections.{contains, place, arranged}

abbrev pub NoDup : List Text → Type 0
NoDup [] = Unit
NoDup (x ∷ xs) = (Elem x xs → ⊥) × NoDup xs

contains-Elem : (ss : List Text) (id : Text) → contains ss id ≡ true → Elem id ss
unfolding contains
contains-Elem [] id h = ground arith
contains-Elem (s ∷ ss) id h = elim (Bool-cases (text_eq s id)) [
  | inl e ↦ inl (sym ((text_eq_iff s id).0 e))
  | inr n ↦ inr (contains-Elem ss id (ground arith))
]

Elem-contains : (ss : List Text) (id : Text) → Elem id ss → contains ss id ≡ true
unfolding contains
Elem-contains [] id h = absurd h
Elem-contains (s ∷ ss) id (inl e) = ground (arith, text_eq_iff s id)
Elem-contains (s ∷ ss) id (inr h) = ground (arith, Elem-contains ss id h)

-- One turn of the loop.
place-step :
    (stored : List Text) (id : Text) (ids order : List Text)
    → (Elem id stored
        × (contains order id ≡ false)
        × (place stored (id ∷ ids) order ≡ place stored ids (order ++ id ∷ [])))
      ⊎ ((contains stored id ≡ false) ⊎ (contains order id ≡ true))
        × (place stored (id ∷ ids) order ≡ place stored ids order)
unfolding place
place-step stored id ids order = elim (Bool-cases (contains stored id)) [
  | inl e ↦ elim (Bool-cases (contains order id)) [
    | inl f ↦ inr (inr f, ground arith)
    | inr f ↦ inl (contains-Elem stored id e, f, ground arith)
  ]
  | inr e ↦ inr (inl e, ground arith)
]

contains-cons :
    (x : Text) (xs : List Text) (id : Text)
    → contains (x ∷ xs) id ≡ false
    → (x ≢ id) × (contains xs id ≡ false)
unfolding contains
contains-cons x xs id k = ((λ q. ground (arith, text_eq_iff x id)), ground arith)

NoDup-append :
    (xs : List Text) (id : Text) → NoDup xs → contains xs id ≡ false → NoDup (xs ++ id ∷ [])
NoDup-append [] id h k = (λ e. absurd e, tt)
NoDup-append (x ∷ xs) id (a, h) k = (
  (λ e. elim (Elem-append-cases x xs (id ∷ []) e) [
    | inl i ↦ a i
    | inr j ↦ elim j [ inl q ↦ (contains-cons x xs id k).0 q | inr z ↦ absurd z ]
  ]),
  NoDup-append xs id h (contains-cons x xs id k).1,
)

place-NoDup : (stored ids order : List Text) → NoDup order → NoDup (place stored ids order)
unfolding place
place-NoDup stored [] order h = h
place-NoDup stored (id ∷ ids) order h = elim (place-step stored id ids order) [
  | inl (e, f, g) ↦ rw g (place-NoDup stored ids (order ++ id ∷ []) (NoDup-append order id h f))
  | inr (e, g) ↦ rw g (place-NoDup stored ids order h)
]

place-stored :
    (stored ids order : List Text) (x : Text)
    → ((y : Text) → Elem y order → Elem y stored)
    → Elem x (place stored ids order)
    → Elem x stored
unfolding place
place-stored stored [] order x h k = h x k
place-stored stored (id ∷ ids) order x h k = elim (place-step stored id ids order) [
  | inl (e, f, g) ↦
      place-stored stored ids (order ++ id ∷ []) x
        (λ y m. elim (Elem-append-cases y order (id ∷ []) m) [
          | inl i ↦ h y i
          | inr j ↦ elim j [ inl q ↦ subst (λ z. Elem z stored) (sym q) e | inr z ↦ absurd z ]
        ])
        (subst (λ l. Elem x l) g k)
  | inr (e, g) ↦ place-stored stored ids order x h (subst (λ l. Elem x l) g k)
]

place-order :
    (stored ids order : List Text) (x : Text) → Elem x order → Elem x (place stored ids order)
unfolding place
place-order stored [] order x h = h
place-order stored (id ∷ ids) order x h = elim (place-step stored id ids order) [
  | inl (e, f, g) ↦
      rw g (place-order stored ids (order ++ id ∷ []) x (Elem-append_left x order (id ∷ []) h))
  | inr (e, g) ↦ rw g (place-order stored ids order x h)
]

place-asked :
    (stored ids order : List Text) (x : Text)
    → Elem x stored
    → Elem x ids
    → Elem x (place stored ids order)
unfolding place
place-asked stored [] order x h k = absurd k
place-asked stored (id ∷ ids) order x h (inr k) = elim (place-step stored id ids order) [
  | inl (e, f, g) ↦ rw g (place-asked stored ids (order ++ id ∷ []) x h k)
  | inr (e, g) ↦ rw g (place-asked stored ids order x h k)
]
place-asked stored (id ∷ ids) order x h (inl q) = elim (place-step stored id ids order) [
  | inl (e, f, g) ↦
      rw g
        (place-order stored ids (order ++ id ∷ []) x (Elem-append_right x order (id ∷ []) (inl q)))
  | inr (e, g) ↦ rw g (place-order stored ids order x (seen e))
]
  where
    seen : (contains stored id ≡ false) ⊎ (contains order id ≡ true) → Elem x order
    seen (inl n) = ground (arith, Elem-contains stored x h)
    seen (inr y) = subst (λ z. Elem z order) (sym q) (contains-Elem order id y)

-- Whatever ids are asked for, known or not and however often, the order of the connections holds
-- no id twice and holds an id exactly when it is stored.
pub arranged-permutes :
    (stored asked : List Text)
    → NoDup (arranged stored asked) × ((x : Text) → Elem x (arranged stored asked) ↔ Elem x stored)
unfolding arranged
arranged-permutes stored asked = (
  place-NoDup stored (asked ++ stored) [] tt,
  λ x. (
    place-stored stored (asked ++ stored) [] x (λ y m. absurd m),
    λ h. place-asked stored (asked ++ stored) [] x h (Elem-append_right x asked stored h),
  ),
)
