-- ===== src/Graph/Reports.antt =====
-- What tasks report of their runs, of src/kernel/kernel.rs.
use dekit.Prelude.{ℕ, ◌-◌, ◌*◌, Bool, true, false, ◌&&◌, Option, none, some, ltb, if◌then◌else◌}
use dekit.Task.{
  TaskHandle, TaskState, starting, running, ready, stopping, TaskEffect, started, became_ready,
  stopped, ExitInfo, started_state, is_up, timeout,
}
use dekit.Graph.State.{Host, Graph, get_task, put_task}
use dekit.Graph.SetState.{set_state}
use dekit.Graph.Driving.{schedule, land_exit, land_stop}

-- Uptime after which the attempts are counted anew.
abbrev pub backoff_reset : ℕ
backoff_reset = 10 * 1000

-- `last_start.map(|t| now.duration_since(t))` above the limit
abbrev pub stayed_up : ℕ → Option ℕ → Bool
stayed_up now none = false
stayed_up now (some t) = ltb backoff_reset (now - t)

abbrev pub is_running : TaskState → Bool
is_running running = true
is_running _ = false

module _ {S T N : Type 0} (h : Host S T N) where
  abbrev pub started_in : TaskState → ℕ → TaskHandle S T → Graph S T N → Graph S T N
  started_in starting id t g =
      let s = started_state t in
      let g1 = set_state h id s g in
      if is_running s then schedule id (timeout t.ready_mode) g1 else g1
  started_in _ id t g = g

  unfoldable pub on_task_started : ℕ → Graph S T N → Graph S T N
  on_task_started id g = elim (get_task g id) [ none ↦ g | some t ↦ started_in t.state id t g ]

  abbrev pub ready_in : TaskState → ℕ → Graph S T N → Graph S T N
  ready_in running id g = set_state h id ready g
  ready_in _ id g = g

  unfoldable pub on_task_ready : ℕ → Graph S T N → Graph S T N
  on_task_ready id g = elim (get_task g id) [ none ↦ g | some t ↦ ready_in t.state id g ]

  -- A run that ends by itself: one that got up and stayed up ends the backoff.
  abbrev pub run_ended : ℕ → ExitInfo → TaskHandle S T → Graph S T N → Graph S T N
  run_ended id info t g =
      let t' =
        if is_up t.state t.kind && stayed_up g.now t.last_start
        then record t { attempts = 0 }
        else t in
      land_exit h id info (put_task id t' g)

  abbrev pub stopped_in : TaskState → ℕ → ExitInfo → TaskHandle S T → Graph S T N → Graph S T N
  stopped_in stopping id info t g = land_stop h id info g
  stopped_in starting id info t g = run_ended id info t g
  stopped_in running id info t g = run_ended id info t g
  stopped_in ready id info t g = run_ended id info t g
  stopped_in _ id info t g = g

  unfoldable pub on_task_stopped : ℕ → ExitInfo → Graph S T N → Graph S T N
  on_task_stopped id info g = elim (get_task g id) [
    | none ↦ g
    | some t ↦ stopped_in t.state id info t g
  ]

  unfoldable pub apply_effect : ℕ → TaskEffect → Graph S T N → Graph S T N
  apply_effect id started g = on_task_started id g
  apply_effect id became_ready g = on_task_ready id g
  apply_effect id (stopped info) g = on_task_stopped id info g
