-- ===== src/Task/Outcome.antt =====
-- How runs end, and the names of the restart modes, in src/kernel/task.rs.
use dekit.Prelude.{
  ◌≡◌, ◌↔◌, refl, sym, ap, ◌∙◌, Bool, true, false, ◌&&◌, some, List, [], ◌∷◌, if◌then◌else◌, inl,
  inr, Bool-cases,
}
use dekit.Prelude.Maps.{some_injective}
use dekit.Prelude.Text.{Text, text_eq, text_eq_iff}
use dekit.Task.{
  TaskHandle, stopping, backoff, exited, ExitInfo, success, failed_start, exit_error, exit_state,
  has_ended, is_exited, RestartMode, never, on_failure, always, all_modes, mode_name, find_mode,
  from_name, TaskKind, code_eq, pos, service, job, exit_state_of,
}

not_done : (b : Bool) → (b && false) ≡ false
not_done true = refl
not_done false = refl

failed_start-exit_state :
    (kind : TaskKind) (restart : RestartMode) (info : ExitInfo)
    → let ended = is_exited (exit_state_of kind restart (failed_start exit_error)) in
      let lands = exit_state_of kind restart (failed_start info) in
      (ended ≡ is_exited lands)
      × (lands ≡ (if ended then exited (failed_start info) else backoff (failed_start info)))
unfolding success
failed_start-exit_state service never info = (refl, refl)
failed_start-exit_state service on_failure info =
    rw (not_done (code_eq info.code (some (pos 0)))) (refl, refl)
failed_start-exit_state service always info = (refl, refl)
failed_start-exit_state job never info =
    rw (not_done (code_eq info.code (some (pos 0)))) (refl, refl)
failed_start-exit_state job on_failure info =
    rw (not_done (code_eq info.code (some (pos 0)))) (refl, refl)
failed_start-exit_state job always info =
    rw (not_done (code_eq info.code (some (pos 0)))) (refl, refl)

-- Where the stop of a failed start lands does not depend on how the run ended, and `has_ended`
-- says of it beforehand what it will be: over, unless the task is to be started again.
pub has_ended-exit_state :
    {S T : Type 0} (t : TaskHandle S T) (info : ExitInfo)
    → t.state ≡ stopping
    → t.start_failed ≡ true
    → (has_ended t ≡ is_exited (exit_state t (failed_start info)))
      × (exit_state t (failed_start info)
          ≡ (if has_ended t then exited (failed_start info) else backoff (failed_start info)))
unfolding has_ended exit_state success
has_ended-exit_state t info st failed =
    rw (st, failed) (failed_start-exit_state t.kind t.restart info)

find_mode_sound :
    (n : Text) (m : RestartMode) (ms : List RestartMode) → find_mode n ms ≡ some m → n ≡ mode_name m
unfolding find_mode
find_mode_sound n m [] h = absurd (cc)
find_mode_sound n m (m' ∷ ms) h = elim (Bool-cases (text_eq (mode_name m') n)) [
  | inl is ↦
      (let found : m' ≡ m = some_injective (rw is at h) in
        sym ((text_eq_iff (mode_name m') n).0 is) ∙ ap mode_name found)
  | inr other ↦ find_mode_sound n m ms (rw other at h)
]

from_name_complete : (m : RestartMode) → from_name (mode_name m) ≡ some m
unfolding from_name find_mode text_eq
from_name_complete never = refl
from_name_complete on_failure = refl
from_name_complete always = refl

-- `from_name` reads each name that `name` writes, and no other text.
pub from_name-mode_name : (n : Text) (m : RestartMode) → (from_name n ≡ some m) ↔ (n ≡ mode_name m)
from_name-mode_name n m = (
  (λ h. find_mode_sound n m all_modes (unfold from_name in h)),
  (λ e. rw e (from_name_complete m)),
)
