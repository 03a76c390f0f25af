-- ===== src/Graph/Invariant/Landing.antt =====
-- What timers and reports bring about keeps the invariant.
use dekit.Prelude.{
  ℕ, ◌≡◌, refl, sym, ap, ◌∙◌, Bool, true, false, ◌&&◌, Option, some, List, arith, is_some, ◌==◌,
  if◌then◌else◌, if_elim, option_elim, Bool-cases, inl, inr,
}
use dekit.Prelude.Maps.{some_injective}
use dekit.Task.{
  TaskHandle, TaskState, idle, starting, running, ready, stopping, backoff, TaskKind, ReadyMode,
  ExitInfo, exit_error, failed_start, exit_state, timeout, started_state, started_state_of, is_up,
  TaskEffect, started, became_ready, stopped,
}
use dekit.Task.Legal.{legal_transition, flags_fit, IsFlagged, IsPlainEffect}
use dekit.Graph.State.{Host, Graph, get_task, put_task, mark_changed}
use dekit.Graph.Driving.{
  schedule, land_exit, land_stop, remember_give_up, timed_out_in, on_state_timeout, fail_start,
}
use dekit.Graph.Reports.{
  started_in, on_task_started, ready_in, on_task_ready, run_ended, stopped_in, on_task_stopped,
  apply_effect, stayed_up, is_running,
}
use dekit.Graph.Invariant.{
  IsPlainHost, Inv, put_task-Inv, IsFlagged-at, mark_changed-Inv, push_timer_change-Inv,
}
use dekit.Graph.Invariant.States.{state_at, state-put, state-push_timer_change}
use dekit.Graph.Invariant.Moves.{
  not_failed, get-put, state_of_get, schedule-Inv, set_state-Inv, set_state_from,
}
use dekit.Graph.Invariant.Drives.{
  is_run, run_not_stopping, run_may_end, failed_may_end, stop_task-Inv, hard_kill-Inv,
  land_exit-Inv, gave_up-IsFlagged,
}

started_may :
    (k : TaskKind) (m : ReadyMode) → legal_transition starting (started_state_of k m) false ≡ true
unfolding legal_transition
started_may k m = ground arith

module _ {S T : Type 0} where
  failed_is_stopping :
      (t : TaskHandle S T) → IsFlagged t → t.start_failed ≡ true → t.state ≡ stopping
  unfolding flags_fit
  failed_is_stopping t f e = ground arith

module _ {S T N : Type 0} {ids : List ℕ} where
  give_up_in :
      (id : ℕ) (t : TaskHandle S T) (g : Graph S T N) (s : TaskState)
      → t.state ≡ s
      → get_task g id ≡ some t
      → Inv ids g
      → Inv ids (elim s [
        | idle ↦ mark_changed (put_task id (record t { stop_timed_out = true }) g)
        | _ ↦ g
      ])
  give_up_in id t g idle e at v =
      mark_changed-Inv _ (put_task-Inv id _ g (gave_up-IsFlagged t (IsFlagged-at g id t v at) e) v)
  give_up_in id t g _ e at v = v

  remember_give_up-Inv :
      (id : ℕ) (failed : Bool) (g : Graph S T N)
      → Inv ids g
      → Inv ids (remember_give_up id failed g)
  remember_give_up-Inv id true g v = v
  remember_give_up-Inv id false g v =
      option_elim (Inv ids) (get_task g id) v (λ t at. give_up_in id t g t.state refl at v)

module _ {S T N : Type 0} (h : Host S T N) (p : IsPlainHost h) {ids : List ℕ} where
  land_stop-Inv :
      (id : ℕ) (info : ExitInfo) (g : Graph S T N)
      → state_at g id ≡ some stopping
      → Inv ids g
      → Inv ids (land_stop h id info g)
  unfolding land_stop
  land_stop-Inv id info g e v = option_elim (Inv ids) (get_task g id) v (λ t at.
      if_elim (Inv ids) t.start_failed
        (λ failed.
          land_exit-Inv h p id (failed_start info) g
            (λ t' at'.
              let same : t' ≡ t = some_injective (sym at' ∙ at) in
              let is : t.state ≡ stopping =
                failed_is_stopping t (IsFlagged-at g id t v at) failed in
              rw same (rw (is, failed) (unfold exit_state in failed_may_end t.kind t.restart info)))
            v)
        (λ ok.
          set_state-Inv h p id idle g
            (λ t' at'.
              let same : t' ≡ t = some_injective (sym at' ∙ at) in
              let is : t.state ≡ stopping = some_injective (sym (state_of_get g id t at) ∙ e) in
              rw same (rw (is, ok) (unfold legal_transition in refl)))
            v))

  timed_out_in-Inv :
      (s : TaskState) (id : ℕ) (t : TaskHandle S T) (g : Graph S T N)
      → state_at g id ≡ some s
      → Inv ids g
      → Inv ids (timed_out_in h s id t g)
  timed_out_in-Inv (backoff info) id t g e v =
      set_state_from h p id (backoff info) idle g refl (unfold legal_transition in refl) e v
  timed_out_in-Inv stopping id t g e v =
      if_elim (Inv ids) t.killed
        (λ k. remember_give_up-Inv id t.start_failed _ (land_stop-Inv id exit_error g e v))
        (λ k. hard_kill-Inv h p id g e v)
  timed_out_in-Inv running id t g e v =
      if_elim (Inv ids) (is_some (timeout t.ready_mode))
        (λ k. unfold fail_start in stop_task-Inv h p id true running g refl e v) (λ k. v)
  timed_out_in-Inv _ id t g e v = v

  -- A state timer that runs out, of any epoch.
  pub on_state_timeout-Inv :
      (id epoch : ℕ) (g : Graph S T N) → Inv ids g → Inv ids (on_state_timeout h id epoch g)
  unfolding on_state_timeout
  on_state_timeout-Inv id epoch g v = option_elim (Inv ids) (get_task g id) v (λ t at.
      if_elim (Inv ids) (t.epoch == epoch)
        (λ same.
          timed_out_in-Inv t.state id _ _
            (state-push_timer_change id _ id
              ∙ state-put id t _ g id at refl
              ∙ state_of_get g id t at)
            (push_timer_change-Inv id _ (put_task-Inv id _ g (IsFlagged-at g id t v at) v)))
        (λ old. v))

  start_landed :
      (s : TaskState) (id : ℕ) (delay : Option ℕ) (g : Graph S T N)
      → Inv ids g
      → Inv ids (if is_running s then schedule id delay g else g)
  start_landed s id delay g v =
      if_elim (Inv ids) (is_running s) (λ e. schedule-Inv id delay g v) (λ e. v)

  started_in-Inv :
      (s : TaskState) (id : ℕ) (t : TaskHandle S T) (g : Graph S T N)
      → state_at g id ≡ some s
      → Inv ids g
      → Inv ids (started_in h s id t g)
  started_in-Inv starting id t g e v = start_landed (started_state t) id _ _ (
      set_state_from h p id starting (started_state t) g refl
        (unfold started_state in started_may t.kind t.ready_mode) e v)
  started_in-Inv _ id t g e v = v

  ready_in-Inv :
      (s : TaskState) (id : ℕ) (g : Graph S T N)
      → state_at g id ≡ some s
      → Inv ids g
      → Inv ids (ready_in h s id g)
  ready_in-Inv running id g e v =
      set_state_from h p id running ready g refl (unfold legal_transition in refl) e v
  ready_in-Inv _ id g e v = v

  run_ended-Inv :
      (id : ℕ) (info : ExitInfo) (t : TaskHandle S T) (g : Graph S T N)
      → info.ready_timeout ≡ false
      → is_run t.state ≡ true
      → get_task g id ≡ some t
      → Inv ids g
      → Inv ids (run_ended h id info t g)
  run_ended-Inv id info t g n r at v =
      elim (Bool-cases (is_up t.state t.kind && stayed_up g.now t.last_start)) [
        | inl e ↦ rw e (ended (record t { attempts = 0 }) r (IsFlagged-at g id t v at))
        | inr e ↦ rw e (ended t r (IsFlagged-at g id t v at))
      ]
    where
      ended :
          (u : TaskHandle S T)
          → is_run u.state ≡ true
          → IsFlagged u
          → Inv ids (land_exit h id info (put_task id u g))
      ended u ru fu =
          land_exit-Inv h p id info _
            (λ t' at'.
              let same : t' ≡ u = some_injective (sym at' ∙ get-put id u g) in
              let ok : u.start_failed ≡ false = not_failed u fu (run_not_stopping u.state ru) in
              rw same (rw ok (unfold exit_state in run_may_end u.state u.kind u.restart info ru n)))
            (put_task-Inv id u g fu v)

  stopped_in-Inv :
      (s : TaskState) (id : ℕ) (info : ExitInfo) (t : TaskHandle S T) (g : Graph S T N)
      → info.ready_timeout ≡ false
      → t.state ≡ s
      → get_task g id ≡ some t
      → Inv ids g
      → Inv ids (stopped_in h s id info t g)
  stopped_in-Inv stopping id info t g n e at v =
      land_stop-Inv id info g (state_of_get g id t at ∙ ap some e) v
  stopped_in-Inv starting id info t g n e at v = run_ended-Inv id info t g n (rw e) at v
  stopped_in-Inv running id info t g n e at v = run_ended-Inv id info t g n (rw e) at v
  stopped_in-Inv ready id info t g n e at v = run_ended-Inv id info t g n (rw e) at v
  stopped_in-Inv _ id info t g n e at v = v

  -- A report of a task, in whatever state it comes.
  pub apply_effect-Inv :
      (id : ℕ) (e : TaskEffect) (g : Graph S T N)
      → IsPlainEffect e
      → Inv ids g
      → Inv ids (apply_effect h id e g)
  unfolding apply_effect on_task_started on_task_ready on_task_stopped
  apply_effect-Inv id started g n v =
      option_elim (Inv ids) (get_task g id) v
        (λ t at. started_in-Inv t.state id t g (state_of_get g id t at) v)
  apply_effect-Inv id became_ready g n v =
      option_elim (Inv ids) (get_task g id) v
        (λ t at. ready_in-Inv t.state id g (state_of_get g id t at) v)
  apply_effect-Inv id (stopped info) g n v =
      option_elim (Inv ids) (get_task g id) v
        (λ t at. stopped_in-Inv t.state id info t g n refl at v)
