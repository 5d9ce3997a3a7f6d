-- ===== src/Shell/Tests.antt =====
-- A command that writes a line and is stopped, and one that is asked to be killed as the app leaves.
use data_looker.Prelude.{◌≡◌, ◌≢◌, refl, true, false, some, []}
use data_looker.Text.{codes, trim}
use data_looker.Shell.{
  spawned, announced, dropped, World, watch, hear, ask_stop, is_draining, holds, Steps, stay,
  then_step, watches, hears, fresh, shell_for,
}
use data_looker.Shell.Stopping.{stop-Ends}

abbrev talking : World
talking = hear (codes "tunnel up") (watch (some 7) (fresh []))

abbrev talked : Steps (codes "c") (codes "r") (some 7) (fresh []) talking
talked = then_step (fresh []) (watch (some 7) (fresh [])) talking (watches (fresh []) is_fresh) (
    then_step (watch (some 7) (fresh [])) talking talking
      (hears (codes "tunnel up") (watch (some 7) (fresh [])) is_watched) (stay talking))
  where
    is_fresh : (fresh []).phase ≡ spawned
    is_fresh = unfold fresh in refl

    is_watched : is_draining (watch (some 7) (fresh [])).phase ≡ true
    is_watched = unfold watch in refl

stop-Ends_example :
    (v : World) × Steps (codes "c") (codes "r") (some 7) (ask_stop talking) v
    × (v.phase ≡ announced)
    × (v.reaped ≡ true)
    × (holds (codes "c") (codes "r") v.shells ≡ false)
stop-Ends_example = stop-Ends (codes "c") (codes "r") (some 7) [] talking talked watched kept
  where
    watched : talking.phase ≢ spawned
    watched e = unfold hear watch in cc

    kept : talking.phase ≢ dropped
    kept e = unfold hear watch in cc

no_shell : shell_for (some (codes " ")) ≡ (codes "/bin/sh", false)
unfolding shell_for trim
no_shell = refl
