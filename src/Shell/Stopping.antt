-- ===== src/Shell/Stopping.antt =====
-- A run that is stopped comes to its end.
use data_looker.Prelude.{ℕ, ◌≡◌, refl, sym, subst, true, false, Option, none, ◌≢◌}
use mathlib.Core.Bool.{true≢false}
use data_looker.Text.{Text}
use data_looker.Registries.{Shells}
use data_looker.Shell.{
  Phase, spawned, waiting, killing, flushing, taken_out, announced, dropped, Stop, no_sender,
  unsent, sent, World, taken, ask_stop, kill, reap, take_out, announce, Step, kills, dies, stops,
  flushes, tells, Steps, stay, then_step, fresh, holds,
}
use data_looker.Shell.Watched.{has_sender, At, step-IsSound, steps-IsSound, run-IsSound}

sent-taken : (s : Stop) → has_sender s ≡ true → taken s ≡ sent
sent-taken no_sender h = absurd (true≢false (sym h))
sent-taken unsent h = refl
sent-taken sent h = refl

module _ (connection_id id : Text) (group : Option ℕ) where
  -- A run on its way to being announced, by the watcher's own steps.
  abbrev pub Ends : World → Type 0
  Ends w = (v : World) × Steps connection_id id group w v × (v.phase ≡ announced)

  step-Ends : (w v : World) → Step connection_id id group w v → Ends v → Ends w
  step-Ends w v s (u, ss, e) = (u, then_step w v u s ss, e)

  taken_out-Ends : (w : World) → w.phase ≡ taken_out → Ends w
  unfolding announce
  taken_out-Ends w e =
      let done = announce connection_id id w in step-Ends w done (tells w e) (done, stay done, refl)

  flushing-Ends : (w : World) → w.phase ≡ flushing → Ends w
  unfolding take_out
  flushing-Ends w e =
      let out = take_out connection_id id w in
      step-Ends w out (flushes w e) (taken_out-Ends out refl)

  killing-Ends : (w : World) → w.phase ≡ killing → Ends w
  unfolding reap
  killing-Ends w e =
      let dead = reap none true w in step-Ends w dead (dies w e) (flushing-Ends dead refl)

  waiting-Ends : (w : World) → w.phase ≡ waiting → w.stop ≡ sent → Ends w
  unfolding kill
  waiting-Ends w e s =
      let killed = kill w in step-Ends w killed (kills w e s) (killing-Ends killed refl)

  phase-Ends :
      (p : Phase) (w : World)
      → w.phase ≡ p
      → p ≢ spawned
      → p ≢ dropped
      → (p ≡ waiting → w.stop ≡ sent)
      → Ends w
  phase-Ends spawned w e h k s = absurd (h refl)
  phase-Ends dropped w e h k s = absurd (k refl)
  phase-Ends waiting w e h k s = waiting-Ends w e (s refl)
  phase-Ends killing w e h k s = killing-Ends w e
  phase-Ends flushing w e h k s = flushing-Ends w e
  phase-Ends taken_out w e h k s = taken_out-Ends w e
  phase-Ends announced w e h k s = (w, stay w, e)

  -- A command that is watched, by a watcher that is not dropped, and told to stop can always be
  -- brought to its end, by the watcher killing it, reaping it, taking it out of the registry and announcing it, whatever has happened
  -- before; where it comes to is no registered run, and its stop is not waited for in vain.
  pub stop-Ends :
      (shells : Shells) (w : World)
      → Steps connection_id id group (fresh shells) w
      → w.phase ≢ spawned
      → w.phase ≢ dropped
      → (v : World) × Steps connection_id id group (ask_stop w) v
        × (v.phase ≡ announced)
        × (v.reaped ≡ true)
        × (holds connection_id id v.shells ≡ false)
  unfolding ask_stop
  stop-Ends shells w reach watched kept =
      let (h, a) = run-IsSound connection_id id group shells w reach in
      let sender : w.phase ≡ waiting → taken w.stop ≡ sent = λ e. sent-taken w.stop (there e a) in
      let (v, ss, e) = phase-Ends w.phase (ask_stop w) refl watched kept sender in
      let sound =
        steps-IsSound connection_id id group (ask_stop w) v ss
          (step-IsSound connection_id id group w (ask_stop w) (stops w) (h, a)) in
      let (r, x, n, k) : At connection_id id group announced v =
        subst (λ p. At connection_id id group p v) e sound.1 in
      (v, ss, e, r, n)
    where
      there : w.phase ≡ waiting → At connection_id id group w.phase w → has_sender w.stop ≡ true
      there e a = (subst (λ p. At connection_id id group p w) e a).2
