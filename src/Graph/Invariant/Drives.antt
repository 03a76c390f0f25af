-- ===== src/Graph/Invariant/Drives.antt =====
-- Starting, stopping, killing, timeouts and the landing of runs keep the invariant.
use dekit.Prelude.{
  ℕ, ◌≡◌, refl, sym, ◌∙◌, Bool, true, false, some, List, arith, if◌then◌else◌, option_elim,
  option_elim_eq,
}
use dekit.Prelude.Maps.{some_injective}
use dekit.Task.{
  TaskHandle, TaskState, idle, starting, running, ready, stopping, stop, kill, ExitInfo,
  failed_start, exit_state, exit_state_of, success, adopt, TaskKind, RestartMode,
}
use dekit.Task.Legal.{legal_transition, flags_fit, IsFlagged, is_stopping}
use dekit.Graph.State.{Host, Graph, get_task, inc64, notify_changed}
use dekit.Graph.SetState.{set_state}
use dekit.Graph.Driving.{
  start_task, take_next, stop_task, hard_kill, count_attempt, delay_in, land_exit, kill_wait,
}
use dekit.Graph.Invariant.{
  IsPlainHost, Inv, put_task-Inv, IsFlagged-at, send_cmd-Inv, notify_changed-Inv,
}
use dekit.Graph.Invariant.States.{state_at, state-put, state-set_state, state-notify_changed}
use dekit.Graph.Invariant.Moves.{
  absent, get-put, state_of_get, state_registered, schedule_state_timeout-Inv, schedule-Inv,
  set_state-Inv, set_state_from,
}

-- The states of a run under way.
abbrev pub is_run : TaskState → Bool
is_run starting = true
is_run running = true
is_run ready = true
is_run _ = false

pub run_not_stopping : (s : TaskState) → is_run s ≡ true → is_stopping s ≡ false
run_not_stopping s r = ground arith

pub run_may_stop : (s : TaskState) → is_run s ≡ true → legal_transition s stopping false ≡ true
unfolding legal_transition
run_may_stop s r = ground arith

-- The exit of a run under way lands where the diagram allows, unless it says a ready timeout.
pub run_may_end :
    (s : TaskState) (k : TaskKind) (m : RestartMode) (info : ExitInfo)
    → is_run s ≡ true
    → info.ready_timeout ≡ false
    → legal_transition s (exit_state_of k m info) false ≡ true
unfolding legal_transition
run_may_end s k m info r n = ground arith

-- So does the stop of a failed start.
pub failed_may_end :
    (k : TaskKind) (m : RestartMode) (info : ExitInfo)
    → legal_transition stopping (exit_state_of k m (failed_start info)) true ≡ true
unfolding legal_transition success
failed_may_end k m info = ground arith

module _ {S T : Type 0} where
  stopping-IsFlagged :
      (t : TaskHandle S T) (failed : Bool)
      → IsFlagged t
      → t.state ≡ stopping
      → IsFlagged (record t { start_failed = failed })
  unfolding flags_fit
  stopping-IsFlagged t failed f e = ground arith

  killed-IsFlagged :
      (t : TaskHandle S T) (n : ℕ)
      → IsFlagged t
      → t.state ≡ stopping
      → IsFlagged (record t { killed = true; epoch = n })
  unfolding flags_fit
  killed-IsFlagged t n f e = ground arith

  pub gave_up-IsFlagged :
      (t : TaskHandle S T)
      → IsFlagged t
      → t.state ≡ idle
      → IsFlagged (record t { stop_timed_out = true })
  unfolding flags_fit
  gave_up-IsFlagged t f e = ground arith

  take_next-IsFlagged : (now : ℕ) (t : TaskHandle S T) → IsFlagged t → IsFlagged (take_next now t).1
  unfolding adopt
  take_next-IsFlagged now t f = ground arith

  take_next-state : (now : ℕ) (t : TaskHandle S T) → (take_next now t).1.state ≡ t.state
  unfolding adopt
  take_next-state now t = ground arith

  count_attempt-IsFlagged :
      (s : TaskState) (t : TaskHandle S T) → IsFlagged t → IsFlagged (count_attempt s t)
  count_attempt-IsFlagged s t f = ground arith

  count_attempt-same :
      (s : TaskState) (t : TaskHandle S T)
      → ((count_attempt s t).state ≡ t.state) × ((count_attempt s t).start_failed ≡ t.start_failed)
  count_attempt-same s t = ground arith

module _ {S T N : Type 0} (h : Host S T N) (p : IsPlainHost h) {ids : List ℕ} where
  started-Inv :
      (id : ℕ) (changed : Bool) (g : Graph S T N)
      → state_at g id ≡ some idle
      → Inv ids g
      → Inv ids (set_state h id starting (if changed then notify_changed h id g else g))
  started-Inv id true g e v =
      set_state_from h p id idle starting _ refl (unfold legal_transition in refl)
        (state-notify_changed h id g id ∙ e) (notify_changed-Inv h p id g v)
  started-Inv id false g e v =
      set_state_from h p id idle starting g refl (unfold legal_transition in refl) e v

  pub start_task-Inv :
      (id : ℕ) (g : Graph S T N)
      → state_at g id ≡ some idle
      → Inv ids g
      → Inv ids (start_task h id g)
  unfolding start_task
  start_task-Inv id g e v =
      option_elim_eq (Inv ids) (get_task g id) (λ gone. absurd (absent g id idle e gone))
        (λ t at. send_cmd-Inv h p id _ _ (
          started-Inv id (take_next g.now t).0 _
            (state-put id t _ g id at (take_next-state g.now t) ∙ e)
            (put_task-Inv id _ g (take_next-IsFlagged g.now t (IsFlagged-at g id t v at)) v)))

  pub stop_task-Inv :
      (id : ℕ) (failed : Bool) (s : TaskState) (g : Graph S T N)
      → is_run s ≡ true
      → state_at g id ≡ some s
      → Inv ids g
      → Inv ids (stop_task h id failed g)
  unfolding stop_task
  stop_task-Inv id failed s g r e v =
      let stopped =
        set_state_from h p id s stopping g (run_not_stopping s r) (run_may_stop s r) e v in
      let now = state-set_state h id stopping g (state_registered g id s e) in
      option_elim_eq (Inv ids) (get_task (set_state h id stopping g) id)
        (λ gone. absurd (absent _ id stopping now gone))
        (λ t at. send_cmd-Inv h p id stop _ (
          schedule_state_timeout-Inv id _ _ (
            put_task-Inv id _ _
              (stopping-IsFlagged t failed (IsFlagged-at _ id t stopped at)
                (some_injective (sym (state_of_get _ id t at) ∙ now)))
              stopped)))

  pub hard_kill-Inv :
      (id : ℕ) (g : Graph S T N)
      → state_at g id ≡ some stopping
      → Inv ids g
      → Inv ids (hard_kill h id g)
  unfolding hard_kill
  hard_kill-Inv id g e v =
      option_elim_eq (Inv ids) (get_task g id) (λ gone. absurd (absent g id stopping e gone))
        (λ t at. schedule_state_timeout-Inv id kill_wait _ (
          send_cmd-Inv h p id kill _ (
            put_task-Inv id _ g
              (killed-IsFlagged t (inc64 t.epoch) (IsFlagged-at g id t v at)
                (some_injective (sym (state_of_get g id t at) ∙ e)))
              v)))

  pub land_exit-Inv :
      (id : ℕ) (info : ExitInfo) (g : Graph S T N)
      → ((t : TaskHandle S T)
          → get_task g id ≡ some t
          → legal_transition t.state (exit_state t info) t.start_failed ≡ true)
      → Inv ids g
      → Inv ids (land_exit h id info g)
  unfolding land_exit
  land_exit-Inv id info g legal v = option_elim (Inv ids) (get_task g id) v (λ t at.
      let s = exit_state t info in
      schedule-Inv id (delay_in s t) _ (
        set_state-Inv h p id s _
          (λ t' at'.
            let is : t' ≡ count_attempt s t =
              some_injective (sym at' ∙ get-put id (count_attempt s t) g) in
            rw is (rw ((count_attempt-same s t).0, (count_attempt-same s t).1) (legal t at)))
          (put_task-Inv id (count_attempt s t) g
            (count_attempt-IsFlagged s t (IsFlagged-at g id t v at)) v)))
