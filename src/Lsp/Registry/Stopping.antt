-- ===== src/Lsp/Registry/Stopping.antt =====
-- A server that was stopped while it was starting is not registered.
use data_looker.Prelude.{
  ℕ, suc, ◌≤◌, ◌<◌, ◌≡◌, ◌⊎◌, inl, inr, true, none, some, List, [], ◌∷◌, arith, refl, Option-cases,
  Bool-cases,
}
use data_looker.Text.{Text, text_eq, text_eq_iff}
use data_looker.Map.{Map, text_is_eq, get, is_some, get-insert}
use data_looker.Lsp.Registry.{
  LspSession, LspRegistry, stops, before_starting, insert_session, remove_server, remove_session,
  bumped, take_all_servers, LspOperation, asks, inserts, removes, removes_session, takes_all,
  lsp_step, lsp_steps,
}

get-bumped :
    (m : Map Text ℕ) (id : Text)
    → ((get m id ≡ none) × (get (bumped m) id ≡ none))
      ⊎ ((n : ℕ) × (get m id ≡ some n) × (get (bumped m) id ≡ some (suc n)))
unfolding bumped get
get-bumped [] id = inl (refl, refl)
get-bumped ((k, n) ∷ m) id = elim (Bool-cases (text_eq k id)) [
  | inl e ↦ inr (n, ground arith, ground arith)
  | inr e ↦ elim (get-bumped m id) [
    | inl (a, b) ↦ inl (ground arith, ground arith)
    | inr (x, a, b) ↦ inr (x, ground arith, ground arith)
  ]
]

-- The counts are only raised, and a connection that has one keeps one.
abbrev Grows : LspRegistry → LspRegistry → Text → Type 0
Grows r s id =
    (stops r id ≤ stops s id)
    × (is_some (get r.stopped id) ≡ true → is_some (get s.stopped id) ≡ true)

Grows-same : (r s : LspRegistry) (id : Text) → s.stopped ≡ r.stopped → Grows r s id
unfolding stops
Grows-same r s id e = (ground arith, λ h. ground arith)

insert_session-stopped :
    (r : LspRegistry) (session : LspSession) (seen : ℕ)
    → (insert_session r session seen).1.stopped ≡ r.stopped
unfolding insert_session
insert_session-stopped r session seen = elim (Option-cases (get r.running session.connection_id)) [
  | inl e ↦ ground arith
  | inr (first, e) ↦ ground arith
]

remove_session-stopped :
    (r : LspRegistry) (c id : Text) → (remove_session r c id).1.stopped ≡ r.stopped
unfolding remove_session
remove_session-stopped r c id = elim (Option-cases (get r.running c)) [
  | inl e ↦ ground arith
  | inr (first, e) ↦ ground arith
]

before_starting-Grows : (r : LspRegistry) (j id : Text) → Grows r (before_starting r j).1 id
unfolding before_starting stops
before_starting-Grows r j id = elim (Bool-cases (is_some (get r.stopped j))) [
  | inl e ↦ (ground arith, λ h. ground arith)
  | inr e ↦ (
    ground (arith, get-insert r.stopped j id 0, text_eq_iff j id),
    λ h. ground (arith, get-insert r.stopped j id 0, text_eq_iff j id),
  )
]

remove_server-Grows : (r : LspRegistry) (j id : Text) → Grows r (remove_server r j).1 id
unfolding remove_server stops
remove_server-Grows r j id = (
  ground (arith, get-insert r.stopped j id (suc (stops r j)), text_eq_iff j id),
  λ h. ground (arith, get-insert r.stopped j id (suc (stops r j)), text_eq_iff j id),
)

take_all-Grows : (r : LspRegistry) (id : Text) → Grows r (take_all_servers r).1 id
unfolding take_all_servers stops
take_all-Grows r id = elim (get-bumped r.stopped id) [
  | inl (a, b) ↦ (ground arith, λ h. ground arith)
  | inr (n, a, b) ↦ (ground arith, λ h. ground arith)
]

lsp_step-Grows : (r : LspRegistry) (o : LspOperation) (id : Text) → Grows r (lsp_step r o) id
unfolding lsp_step
lsp_step-Grows r (asks j) id = before_starting-Grows r j id
lsp_step-Grows r (inserts session seen) id =
    Grows-same r (insert_session r session seen).1 id (insert_session-stopped r session seen)
lsp_step-Grows r (removes j) id = remove_server-Grows r j id
lsp_step-Grows r (removes_session c sid) id =
    Grows-same r (remove_session r c sid).1 id (remove_session-stopped r c sid)
lsp_step-Grows r takes_all id = take_all-Grows r id

lsp_steps-Grows :
    (r : LspRegistry) (os : List LspOperation) (id : Text) → Grows r (lsp_steps r os) id
unfolding lsp_steps
lsp_steps-Grows r [] id = Grows-same r r id refl
lsp_steps-Grows r (o ∷ os) id =
    let (a, b) = lsp_step-Grows r o id in
    let (c, d) = lsp_steps-Grows (lsp_step r o) os id in (omega arith, λ h. d (b h))

-- An operation that stops the server of a connection, or of every one.
abbrev pub Stops : Text → LspOperation → Type 0
Stops id (removes j) = j ≡ id
Stops id takes_all = Unit
Stops id (asks j) = ⊥
Stops id (inserts session seen) = ⊥
Stops id (removes_session c sid) = ⊥

abbrev pub SomeStops : Text → List LspOperation → Type 0
SomeStops id [] = ⊥
SomeStops id (o ∷ os) = Stops id o ⊎ SomeStops id os

lsp_step-stops :
    (r : LspRegistry) (o : LspOperation) (id : Text)
    → is_some (get r.stopped id) ≡ true
    → Stops id o
    → stops r id < stops (lsp_step r o) id
unfolding lsp_step remove_server take_all_servers stops
lsp_step-stops r (asks j) id h e = absurd e
lsp_step-stops r (inserts session seen) id h e = absurd e
lsp_step-stops r (removes_session c sid) id h e = absurd e
lsp_step-stops r (removes j) id h e =
    ground (arith, get-insert r.stopped j id (suc (stops r j)), text_eq_iff j id)
lsp_step-stops r takes_all id h e = elim (get-bumped r.stopped id) [
  | inl (a, b) ↦ ground arith
  | inr (n, a, b) ↦ ground arith
]

lsp_steps-stops :
    (r : LspRegistry) (os : List LspOperation) (id : Text)
    → is_some (get r.stopped id) ≡ true
    → SomeStops id os
    → stops r id < stops (lsp_steps r os) id
unfolding lsp_steps
lsp_steps-stops r [] id h e = absurd e
lsp_steps-stops r (o ∷ os) id h (inl e) =
    omega (arith, lsp_step-stops r o id h e, (lsp_steps-Grows (lsp_step r o) os id).0)
lsp_steps-stops r (o ∷ os) id h (inr e) =
    let (a, b) = lsp_step-Grows r o id in
    omega (arith, a, lsp_steps-stops (lsp_step r o) os id (b h) e)

before_starting-recorded :
    (r : LspRegistry) (id : Text)
    → (is_some (get (before_starting r id).1.stopped id) ≡ true)
      × (stops (before_starting r id).1 id ≡ (before_starting r id).0)
unfolding before_starting stops
before_starting-recorded r id = elim (Option-cases (get r.stopped id)) [
  | inl e ↦ ground (arith, get-insert r.stopped id id 0, text_eq_iff id id)
  | inr (n, e) ↦ ground arith
]

-- A language server was being started for a connection, which was asked about first; meanwhile
-- others did what they did to the registry, and among it that connection's server was stopped, or
-- all of them were. Then the new one is not registered, even if nothing ran when they were stopped.
pub insert_session-stopped_meanwhile :
    (r : LspRegistry) (os : List LspOperation) (session : LspSession)
    → SomeStops session.connection_id os
    → let (seen, r') = before_starting r session.connection_id in
      insert_session (lsp_steps r' os) session seen ≡ (none, lsp_steps r' os)
unfolding insert_session
insert_session-stopped_meanwhile r os session h =
    let id = session.connection_id in
    let (known, same) = before_starting-recorded r id in
    ground (arith, lsp_steps-stops (before_starting r id).1 os id known h)
