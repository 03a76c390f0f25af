-- ===== src/Task/Tests.antt =====
-- The theorems about tasks' states at concrete inputs.
use dekit.Prelude.{ℕ, ◌≡◌, ◌↔◌, refl, true, false, none, some, [], if◌then◌else◌}
use dekit.Prelude.Text.{codes}
use dekit.Task.{
  TaskHandle, stopping, exited, backoff, ExitInfo, exit_code, failed_start, exit_state, has_ended,
  is_exited, pos, service, on_failure, always, reported, from_name, mode_name, state_eq,
}
use dekit.Task.Equality.{state_eq_sound}
use dekit.Task.Outcome.{has_ended-exit_state, from_name-mode_name}

abbrev stopping_task : TaskHandle ℕ ℕ
stopping_task = record {
  task = 0;
  state = stopping;
  epoch = 4;
  vetoed = false;
  killed = false;
  attempts = 0;
  last_start = none;
  deadline = none;
  wanted = true;
  supported = true;
  wanted_parents = 1;
  active_dependents = 0;
  start_failed = true;
  stop_timed_out = false;
  saved_pin = false;
  kind = service;
  ready_mode = reported (some 10);
  stop_timeout = 5;
  next = none;
  restart = on_failure;
  space = [];
  path = none;
  label = none;
  spec = some 7;
}

abbrev clean_exit : ExitInfo
clean_exit = exit_code (pos 0)

has_ended-exit_state_example :
    (has_ended stopping_task ≡ is_exited (exit_state stopping_task (failed_start clean_exit)))
    × (exit_state stopping_task (failed_start clean_exit) ≡ (
        if has_ended stopping_task
        then exited (failed_start clean_exit)
        else backoff (failed_start clean_exit)))
has_ended-exit_state_example = has_ended-exit_state stopping_task clean_exit refl refl

from_name-mode_name_example :
    (from_name (codes "always") ≡ some always) ↔ (codes "always" ≡ mode_name always)
from_name-mode_name_example = from_name-mode_name (codes "always") always

state_eq_sound_example : exited clean_exit ≡ exited clean_exit
state_eq_sound_example =
    state_eq_sound (exited clean_exit) (exited clean_exit) (unfold state_eq in refl)
