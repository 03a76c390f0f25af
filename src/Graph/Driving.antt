-- ===== src/Graph/Driving.antt =====
-- Starting, stopping and killing a task, and its state timer, of src/kernel/kernel.rs.
use dekit.Prelude.{
  ℕ, ◌+◌, ◌-◌, ◌*◌, ◌^◌, min, Bool, true, false, Option, none, some, is_some, ◌==◌, if◌then◌else◌,
}
use dekit.Task.{
  TaskHandle, TaskState, idle, starting, running, stopping, backoff, start, stop, kill, Run, adopt,
  ExitInfo, exit_error, failed_start, exit_state, timeout,
}
use dekit.Graph.State.{
  Host, Graph, inc32, inc64, get_task, put_task, mark_changed, push_timer_change, panic, send_cmd,
  notify_changed,
}
use dekit.Graph.SetState.{set_state}

abbrev pub kill_wait : ℕ
kill_wait = 10 * 1000

abbrev pub backoff_min : ℕ
backoff_min = 100

abbrev pub backoff_max : ℕ
backoff_max = 30 * 1000

-- `attempts.saturating_sub(1).min(16)`, and a delay that doubles up to the cap.
unfoldable pub backoff_delay : ℕ → ℕ
backoff_delay attempts = min (backoff_min * 2 ^ min (attempts - 1) 16) backoff_max

abbrev pub run_of : {S T : Type 0} → TaskHandle S T → Option (Run S)
run_of t = elim t.spec [ none ↦ none | some spec ↦ some (record { spec = spec; path = t.path }) ]

-- What `start_task` makes of the task: a run starts from the definition as it is now.
abbrev pub take_next : {S T : Type 0} → ℕ → TaskHandle S T → Bool × TaskHandle S T
take_next now t = elim t.next [
  | none ↦ (false, record t { last_start = some now })
  | some n ↦ adopt (record t { last_start = some now; next = none }) n
]

module _ {S T : Type 0} where
  -- The delay of a backoff, with the attempt counted; no other state has one.
  abbrev pub count_attempt : TaskState → TaskHandle S T → TaskHandle S T
  count_attempt (backoff info) t = record t { attempts = inc32 t.attempts }
  count_attempt _ t = t

  abbrev pub delay_in : TaskState → TaskHandle S T → Option ℕ
  delay_in (backoff info) t = some (backoff_delay (inc32 t.attempts))
  delay_in _ t = none

module _ {S T N : Type 0} where
  -- Sets the timer on the task's current state, at its current epoch.
  unfoldable pub schedule_state_timeout : ℕ → ℕ → Graph S T N → Graph S T N
  schedule_state_timeout id delay g = elim (get_task g id) [
    | none ↦ g
    | some t ↦ push_timer_change id (put_task id (record t { deadline = some (g.now + delay) }) g)
  ]

  abbrev pub schedule : ℕ → Option ℕ → Graph S T N → Graph S T N
  schedule id none g = g
  schedule id (some delay) g = schedule_state_timeout id delay g

  -- A stop that was given up on is remembered where it landed in `Idle`.
  abbrev pub remember_give_up : ℕ → Bool → Graph S T N → Graph S T N
  remember_give_up id true g = g
  remember_give_up id false g = elim (get_task g id) [
    | none ↦ g
    | some t ↦ elim t.state [
      | idle ↦ mark_changed (put_task id (record t { stop_timed_out = true }) g)
      | _ ↦ g
    ]
  ]

module _ {S T N : Type 0} (h : Host S T N) where
  unfoldable pub start_task : ℕ → Graph S T N → Graph S T N
  start_task id g = elim (get_task g id) [
    | none ↦ panic g
    | some t ↦
        (let (changed, t') = take_next g.now t in
          let g1 = put_task id t' g in
          let g2 = if changed then notify_changed h id g1 else g1 in
          let g3 = set_state h id starting g2 in send_cmd h id (start (run_of t')) g3)
  ]

  -- The task after its stop was set on its way.
  unfoldable pub stop_task : ℕ → Bool → Graph S T N → Graph S T N
  stop_task id failed g =
      let g1 = set_state h id stopping g in
      elim (get_task g1 id) [
        | none ↦ panic g1
        | some t ↦
            (let g2 = put_task id (record t { start_failed = failed }) g1 in
              let g3 = schedule_state_timeout id t.stop_timeout g2 in send_cmd h id stop g3)
      ]

  unfoldable pub fail_start : ℕ → Graph S T N → Graph S T N
  fail_start id g = stop_task id true g

  unfoldable pub hard_kill : ℕ → Graph S T N → Graph S T N
  hard_kill id g = elim (get_task g id) [
    | none ↦ panic g
    | some t ↦
        (let g1 = put_task id (record t { killed = true; epoch = inc64 t.epoch }) g in
          let g2 = send_cmd h id kill g1 in schedule_state_timeout id kill_wait g2)
  ]

  unfoldable pub land_exit : ℕ → ExitInfo → Graph S T N → Graph S T N
  land_exit id info g = elim (get_task g id) [
    | none ↦ g
    | some t ↦
        (let s = exit_state t info in
          let g1 = put_task id (count_attempt s t) g in
          schedule id (delay_in s t) (set_state h id s g1))
  ]

  unfoldable pub land_stop : ℕ → ExitInfo → Graph S T N → Graph S T N
  land_stop id info g = elim (get_task g id) [
    | none ↦ g
    | some t ↦ if t.start_failed then land_exit id (failed_start info) g else set_state h id idle g
  ]

  -- What a timer that ran out does, by the task's state.
  abbrev pub timed_out_in : TaskState → ℕ → TaskHandle S T → Graph S T N → Graph S T N
  timed_out_in (backoff info) id t g = set_state h id idle g
  timed_out_in stopping id t g =
      if t.killed
      then remember_give_up id t.start_failed (land_stop id exit_error g)
      else hard_kill id g
  timed_out_in running id t g = if is_some (timeout t.ready_mode) then fail_start id g else g
  timed_out_in _ id t g = g

  unfoldable pub on_state_timeout : ℕ → ℕ → Graph S T N → Graph S T N
  on_state_timeout id epoch g = elim (get_task g id) [
    | none ↦ g
    | some t ↦
        (let t' = record t { deadline = none } in
          let g1 = push_timer_change id (put_task id t' g) in
          if t.epoch == epoch then timed_out_in t.state id t' g1 else g)
  ]
