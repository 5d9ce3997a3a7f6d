-- ===== src/Shell/Watched.antt =====
-- What holds of a run in every state that it can come to.
use mathlib.Core.Bool.{true≢false}
use data_looker.Prelude.{
  ℕ, suc, ◌-◌, ◌≤◌, ◌≡◌, ◌++◌, refl, sym, subst, Bool, true, false, Option, none, List, [], ◌∷◌,
  leb, if◌then◌else◌, length, drop, length-append, append-nil, arith, ◌⊎◌, Option-cases, Bool-cases,
  inl, inr,
}
use data_looker.Text.{Text, text_eq}
use data_looker.Map.{text_is_eq, get, remove, get-remove, =?_refl}
use data_looker.Registries.{Shells, remove_run}
use data_looker.Shell.{
  kept_lines, push_line, Phase, spawned, waiting, killing, flushing, taken_out, announced, Stop,
  no_sender, unsent, sent, World, is_draining, taken, group_list, watch, hear, ask_stop, kill, reap,
  take_out, exit_of, announce, holds, Step, watches, hears, stops, kills, dies, ends, flushes,
  tells, drops, dropped, drop_watcher, is_watching, others, Steps, stay, then_step, fresh,
}

abbrev pub has_sender : Stop → Bool
has_sender no_sender = false
has_sender unsent = true
has_sender sent = true

has_sender-taken : (s : Stop) → has_sender s ≡ true → has_sender (taken s) ≡ true
has_sender-taken no_sender h = h
has_sender-taken unsent h = refl
has_sender-taken sent h = refl

push_line-length :
    (output : List Text) (line : Text)
    → length output ≤ kept_lines
    → length (push_line output line) ≤ kept_lines
unfolding push_line
push_line-length output line h = elim (Bool-cases (leb kept_lines (length output))) [
  | inl e ↦
      rw e (omega (arith, length-append (drop 1 output) (line ∷ []), length-drop output, full e))
  | inr e ↦ rw e (omega (arith, length-append output (line ∷ []), room e))
]
  where
    length-drop : (output : List Text) → length (drop 1 output) ≡ length output - 1
    length-drop [] = omega arith
    length-drop (x ∷ xs) = omega arith

    full : leb kept_lines (length output) ≡ true → kept_lines ≤ length output
    full e = ground arith

    room : leb kept_lines (length output) ≡ false → suc (length output) ≤ kept_lines
    room e = ground arith

module _ (connection_id id : Text) (group : Option ℕ) where
  -- The watcher kills the group of a run that was stopped, once, and of no other.
  abbrev pub Killed : World → Type 0
  Killed w = w.killed ≡ (if w.stopped then group_list group else [])

  -- A watcher that is dropped kills the group of a run that was not reaped, a second time where a stop
  -- had killed it; of one that was reaped it kills nothing more.
  abbrev pub KilledDropped : World → Type 0
  KilledDropped w =
      ((w.reaped ≡ false)
        × ((w.killed ≡ group_list group) ⊎ (w.killed ≡ group_list group ++ group_list group)))
      ⊎ ((w.reaped ≡ true) × Killed w)

  abbrev pub At : Phase → World → Type 0
  At spawned w = (w.reaped ≡ false) × (w.exits ≡ []) × (w.stop ≡ no_sender) × (w.killed ≡ [])
  At waiting w =
      (w.reaped ≡ false)
      × (w.exits ≡ [])
      × (has_sender w.stop ≡ true)
      × (w.group ≡ group)
      × (w.killed ≡ [])
  At killing w =
      (w.reaped ≡ false) × (w.exits ≡ []) × (w.group ≡ group) × (w.killed ≡ group_list group)
  At flushing w = (w.reaped ≡ true) × (w.exits ≡ []) × (w.group ≡ none) × Killed w
  At taken_out w =
      (w.reaped ≡ true)
      × (w.exits ≡ [])
      × (holds connection_id id w.shells ≡ false)
      × (w.group ≡ none)
      × Killed w
  At announced w =
      (w.reaped ≡ true)
      × (w.exits ≡ exit_of connection_id id w ∷ [])
      × (holds connection_id id w.shells ≡ false)
      × Killed w
  At dropped w = (w.exits ≡ []) × (w.group ≡ none) × KilledDropped w

  abbrev pub IsSound : World → Type 0
  IsSound w = (length w.output ≤ kept_lines) × At w.phase w

  hear-At :
      (p : Phase) (line : Text) (w : World) → is_draining p ≡ true → At p w → At p (hear line w)
  unfolding hear
  hear-At spawned line w d a = absurd (true≢false (sym d))
  hear-At waiting line w d a = a
  hear-At killing line w d a = a
  hear-At flushing line w d a = a
  hear-At taken_out line w d a = absurd (true≢false (sym d))
  hear-At announced line w d a = absurd (true≢false (sym d))
  hear-At dropped line w d a = a

  ask_stop-At : (p : Phase) (w : World) → At p w → At p (ask_stop w)
  unfolding ask_stop exit_of
  ask_stop-At spawned w (r, e, s, k) = (r, e, rw s refl, k)
  ask_stop-At waiting w (r, e, s, g, k) = (r, e, has_sender-taken w.stop s, g, k)
  ask_stop-At killing w a = a
  ask_stop-At flushing w a = a
  ask_stop-At taken_out w a = a
  ask_stop-At announced w a = a
  ask_stop-At dropped w a = a

  others-At :
      (p : Phase) (w : World) (shells : Shells)
      → (holds connection_id id w.shells ≡ false → holds connection_id id shells ≡ false)
      → At p w
      → At p (record w { shells = shells })
  unfolding exit_of
  others-At spawned w shells h a = a
  others-At waiting w shells h a = a
  others-At killing w shells h a = a
  others-At flushing w shells h a = a
  others-At taken_out w shells h (r, e, n, g, k) = (r, e, h n, g, k)
  others-At announced w shells h (r, e, n, k) = (r, e, h n, k)
  others-At dropped w shells h a = a

  drop_watcher-At :
      (p : Phase) (w : World) → is_watching p ≡ true → At p w → At dropped (drop_watcher w)
  unfolding drop_watcher
  drop_watcher-At spawned w d a = absurd (true≢false (sym d))
  drop_watcher-At waiting w d (r, e, s, g, k) =
      (e, refl, inl (r, inl (rw (g, k) (append-nil (group_list group)))))
  drop_watcher-At killing w d (r, e, g, k) = (e, refl, inl (r, inr (rw (g, k) refl)))
  drop_watcher-At flushing w d (r, e, g, k) = (e, refl, inr (r, rw g k))
  drop_watcher-At taken_out w d (r, e, n, g, k) = (e, refl, inr (r, rw g k))
  drop_watcher-At announced w d a = absurd (true≢false (sym d))
  drop_watcher-At dropped w d a = absurd (true≢false (sym d))

  remove_run-cases :
      (shells : Shells)
      → (((remove_run shells connection_id id).1 ≡ shells)
          × (holds connection_id id shells ≡ false))
        ⊎ ((remove_run shells connection_id id).1 ≡ remove shells connection_id)
  unfolding remove_run
  remove_run-cases shells = elim (Option-cases (get shells connection_id)) [
    | inl e ↦ inl (ground arith, rw e refl)
    | inr (run, e) ↦ elim (Bool-cases (text_eq run.id id)) [
      | inl own ↦ inr (ground arith)
      | inr other ↦ inl (ground arith, rw e other)
    ]
  ]

  holds-remove_run :
      (shells : Shells) → holds connection_id id (remove_run shells connection_id id).1 ≡ false
  holds-remove_run shells = elim (remove_run-cases shells) [
    | inl (e, n) ↦ rw e n
    | inr e ↦ rw (e, get-remove shells connection_id connection_id, =?_refl connection_id) refl
  ]

  pub step-IsSound : (w v : World) → Step connection_id id group w v → IsSound w → IsSound v
  unfolding watch kill reap take_out announce hear exit_of ask_stop drop_watcher
  step-IsSound w v (watches u e) (h, a) =
      let (r, x, s, k) : At spawned w = subst (λ p. At p w) e a in (h, (r, x, refl, refl, k))
  step-IsSound w v (hears line u d) (h, a) =
      (push_line-length w.output line h, hear-At w.phase line w d a)
  step-IsSound w v (stops u) (h, a) = (h, ask_stop-At w.phase w a)
  step-IsSound w v (kills u e s) (h, a) =
      let (r, x, t, g, k) : At waiting w = subst (λ p. At p w) e a in
      (h, (r, x, g, rw (g, k) (append-nil (group_list group))))
  step-IsSound w v (dies u e) (h, a) =
      let (r, x, g, k) : At killing w = subst (λ p. At p w) e a in (h, (refl, x, refl, k))
  step-IsSound w v (ends code u e s) (h, a) =
      let (r, x, t, g, k) : At waiting w = subst (λ p. At p w) e a in (h, (refl, x, refl, k))
  step-IsSound w v (flushes u e) (h, a) =
      let (r, x, g, k) : At flushing w = subst (λ p. At p w) e a in
      (h, (r, x, holds-remove_run w.shells, g, k))
  step-IsSound w v (tells u e) (h, a) =
      let (r, x, n, g, k) : At taken_out w = subst (λ p. At p w) e a in (h, (r, rw x refl, n, k))
  step-IsSound w v (drops u d) (h, a) = (h, drop_watcher-At w.phase w d a)
  step-IsSound w v (others shells u o) (h, a) = (h, others-At w.phase w shells o a)

  pub steps-IsSound : (w v : World) → Steps connection_id id group w v → IsSound w → IsSound v
  steps-IsSound w v (stay u) a = a
  steps-IsSound w v (then_step u x y s ss) a = steps-IsSound x v ss (step-IsSound w x s a)

pub run-IsSound :
    (connection_id id : Text) (group : Option ℕ) (shells : Shells) (w : World)
    → Steps connection_id id group (fresh shells) w
    → IsSound connection_id id group w
unfolding fresh
run-IsSound connection_id id group shells w s =
    steps-IsSound connection_id id group (fresh shells) w s (omega arith, (refl, refl, refl, refl))
