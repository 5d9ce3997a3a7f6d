-- ===== src/Shell.antt =====
-- src-tauri/src/shell/session.rs: one running command and the task that watches it. What happens to
-- it is a step relation: the lines that it writes, a stop, its end, and what the watcher does then, in
-- its order. The process and its group are the system's; what is sent to them is recorded.
mod Watched
mod Stopping
mod Tests
use data_looker.Prelude.{
  ℕ, suc, ◌+◌, ◌≡◌, Bool, true, false, not, Option, none, some, List, [], ◌∷◌, ◌++◌, ltb, leb,
  if◌then◌else◌, length, drop, is_empty,
}
use data_looker.Text.{Text, codes, text_eq, trim, join}
use data_looker.Text.Signed.{ℤ}
use data_looker.Map.{text_is_eq, get}
use data_looker.Registries.{Shells, ShellRun, remove_run}

abbrev pub kept_lines : ℕ
kept_lines = 50

pub record ShellExit : Type 0 where
  pub connection_id : Text
  pub code : Option ℤ
  pub stopped : Bool
  pub output : Text

-- The shell, and whether it is a login shell.
unfoldable pub shell_for : Option Text → Text × Bool
shell_for none = (codes "/bin/sh", false)
shell_for (some shell) = if is_empty (trim shell) then (codes "/bin/sh", false) else (shell, true)

-- What `drain` does with a line.
unfoldable pub push_line : List Text → Text → List Text
push_line output line =
    (if leb kept_lines (length output) then drop 1 output else output) ++ line ∷ []

-- How far the watcher is: not begun, in its `select!`, waiting for what it has killed, reading the
-- last words, out of the registry, done, and dropped before it was.
pub data Phase : Type 0 where
  spawned waiting killing flushing taken_out announced dropped : Phase

-- The sender of `stop`: none before the run is watched, and taken by the first stop.
pub data Stop : Type 0 where
  no_sender unsent sent : Stop

pub record World : Type 0 where
  pub shells : Shells
  pub phase : Phase
  pub stop : Stop
  -- What the watcher's `GroupKill` would kill.
  pub group : Option ℕ
  pub output : List Text
  pub code : Option ℤ
  pub stopped : Bool
  pub reaped : Bool
  pub exits : List ShellExit
  -- The groups that the watcher has killed.
  pub killed : List ℕ

abbrev pub is_draining : Phase → Bool
is_draining waiting = true
is_draining killing = true
is_draining flushing = true
is_draining spawned = false
is_draining taken_out = false
is_draining announced = false
is_draining dropped = true

-- A task that has begun and is not done, which quitting the app drops.
abbrev pub is_watching : Phase → Bool
is_watching waiting = true
is_watching killing = true
is_watching flushing = true
is_watching taken_out = true
is_watching spawned = false
is_watching announced = false
is_watching dropped = false

abbrev pub group_list : Option ℕ → List ℕ
group_list none = []
group_list (some pgid) = pgid ∷ []

-- `watch`, of a run whose shell leads `group`.
unfoldable pub watch : Option ℕ → World → World
watch group w = record w { phase = waiting; stop = unsent; group = group }

unfoldable pub hear : Text → World → World
unfolding push_line
hear line w = record w { output = push_line w.output line }

abbrev pub taken : Stop → Stop
taken unsent = sent
taken no_sender = no_sender
taken sent = sent

-- `stop`, up to its wait for `reaped`.
unfoldable pub ask_stop : World → World
ask_stop w = record w { stop = taken w.stop }

-- The arm of `stop_rx`.
unfoldable pub kill : World → World
kill w = record w { phase = killing; killed = group_list w.group ++ w.killed }

-- The task is dropped, and its `GroupKill` with it, which kills the group if it is still armed.
unfoldable pub drop_watcher : World → World
drop_watcher w = record w { phase = dropped; group = none; killed = group_list w.group ++ w.killed }

-- The end of either arm, `reaped.cancel()` and `group.disarm()`.
unfoldable pub reap : Option ℤ → Bool → World → World
reap code stopped w = record w {
  phase = flushing;
  code = code;
  stopped = stopped;
  reaped = true;
  group = none;
}

abbrev pub is_own : Text → Option ShellRun → Bool
is_own id none = false
is_own id (some run) = text_eq run.id id

module _ (connection_id id : Text) where
  unfoldable pub take_out : World → World
  take_out w = record w { phase = taken_out; shells = (remove_run w.shells connection_id id).1 }

  unfoldable pub exit_of : World → ShellExit
  exit_of w = record {
    connection_id = connection_id;
    code = w.code;
    stopped = w.stopped;
    output = join (codes "\n") w.output;
  }

  unfoldable pub announce : World → World
  unfolding exit_of
  announce w = record w { phase = announced; exits = exit_of w ∷ w.exits }

  -- Whether the registry holds this run.
  abbrev pub holds : Shells → Bool
  holds shells = is_own id (get shells connection_id)

  pub data Step (group : Option ℕ) : World → World → Type 0 where
    watches : (w : World) → w.phase ≡ spawned → Step group w (watch group w)
    hears : (line : Text) (w : World) → is_draining w.phase ≡ true → Step group w (hear line w)
    stops : (w : World) → Step group w (ask_stop w)
    kills : (w : World) → w.phase ≡ waiting → w.stop ≡ sent → Step group w (kill w)
    dies : (w : World) → w.phase ≡ killing → Step group w (reap none true w)
    -- On its own, no stop being ready: the `select!` is biased.
    ends :
        (code : Option ℤ) (w : World)
        → w.phase ≡ waiting
        → w.stop ≡ unsent
        → Step group w (reap code false w)
    flushes : (w : World) → w.phase ≡ flushing → Step group w (take_out w)
    tells : (w : World) → w.phase ≡ taken_out → Step group w (announce w)
    drops : (w : World) → is_watching w.phase ≡ true → Step group w (drop_watcher w)
    -- What is done with other runs, whose ids are new, never puts this one back.
    others :
        (shells : Shells) (w : World)
        → (holds w.shells ≡ false → holds shells ≡ false)
        → Step group w (record w { shells = shells })

  pub data Steps (group : Option ℕ) : World → World → Type 0 where
    stay : (w : World) → Steps group w w
    then_step : (w v u : World) → Step group w v → Steps group v u → Steps group w u

-- A run that `spawn` has made.
unfoldable pub fresh : Shells → World
fresh shells = record {
  shells = shells;
  phase = spawned;
  stop = no_sender;
  group = none;
  output = [];
  code = none;
  stopped = false;
  reaped = false;
  exits = [];
  killed = [];
}
