-- ===== src/Graph/SetState.antt =====
-- `set_state` of src/kernel/kernel.rs: the one place where a task's state changes.
use dekit.Prelude.{ℕ, Bool, false, none, some, is_some, if◌then◌else◌}
use dekit.Task.{TaskHandle, TaskState, state_eq, is_active, is_satisfied, bool_eq, state_changed}
use dekit.Graph.State.{
  Host, Graph, inc64, get_task, put_task, mark_changed, push_timer_change, log_transition, deps_of,
  enqueue, enqueue_parents, notify_subscribers,
}
use dekit.Graph.Edges.{count_active}

module _ {S T : Type 0} where
  -- The task in its new state: every flag of the old one is cleared, and its timer.
  abbrev pub moved_to : TaskState → TaskHandle S T → TaskHandle S T
  moved_to s t = record t {
    state = s;
    epoch = inc64 t.epoch;
    killed = false;
    start_failed = false;
    stop_timed_out = false;
    deadline = none;
  }

module _ {S T N : Type 0} where
  -- The task `t` under `id` moved to a state: its timer is ended, and the change logged.
  unfoldable pub move_task : ℕ → TaskState → TaskHandle S T → Graph S T N → Graph S T N
  move_task id s t g =
      let g1 = put_task id (moved_to s t) g in
      let g2 = if is_some t.deadline then push_timer_change id g1 else g1 in
      log_transition (record { id = id; from = t.state; to = s; start_failed = t.start_failed })
        (mark_changed g2)

  -- Dependents' `supported` depends on whether this task is satisfied.
  unfoldable pub wake_parents : ℕ → Bool → Bool → Graph S T N → Graph S T N
  wake_parents id was now g = if bool_eq was now then g else enqueue_parents id g

  -- The shutdown gate counts active dependents on each dependency.
  unfoldable pub recount : ℕ → Bool → Bool → Graph S T N → Graph S T N
  recount id was now g = if bool_eq was now then g else count_active now (deps_of g id) g

module _ {S T N : Type 0} (h : Host S T N) where
  unfoldable pub change_state : ℕ → TaskState → TaskHandle S T → Graph S T N → Graph S T N
  change_state id s t g =
      let g1 = enqueue id (move_task id s t g) in
      let g2 = wake_parents id (is_satisfied t) (is_satisfied (moved_to s t)) g1 in
      let g3 = recount id (is_active t.state) (is_active s) g2 in
      notify_subscribers h id t.space t.path (state_changed s) g3

  unfoldable pub set_state : ℕ → TaskState → Graph S T N → Graph S T N
  set_state id s g = elim (get_task g id) [
    | none ↦ g
    | some t ↦ if state_eq t.state s then g else change_state id s t g
  ]
