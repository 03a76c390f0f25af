-- ===== src/Graph/Intent.antt =====
-- The verbs of src/kernel/kernel.rs: what the user asks of a task.
use dekit.Prelude.{
  ℕ, zero, suc, Bool, true, false, ◌&&◌, none, some, List, [], ◌∷◌, ◌++◌, contains, length, ◌==◌,
  if◌then◌else◌,
}
use dekit.Task.{
  TaskHandle, TaskState, idle, starting, running, ready, stopping, backoff, done, exited, bool_eq,
  init_task_id,
}
use dekit.Graph.State.{Host, Graph, get_task, put_task, with_task, mark_changed, deps_of, enqueue}
use dekit.Graph.Edges.{add_edge, remove_edge}
use dekit.Graph.SetState.{set_state}
use dekit.Graph.Driving.{stop_task, hard_kill}

-- The deps that are not listed yet, each once: `seen.insert` in the loop of `closure`.
unfoldable pub fresh : List ℕ → List ℕ → List ℕ
fresh seen [] = []
fresh seen (dep ∷ deps) = elim (contains dep seen) [
  | true ↦ fresh seen deps
  | false ↦ dep ∷ fresh (dep ∷ seen) deps
]

-- Whether a start takes a task out of its state, to be run again.
abbrev pub revives : TaskState → Bool → Bool
revives (backoff info) again = true
revives (exited info) again = true
revives (done info) again = again
revives _ again = false

module _ {S T N : Type 0} where
  -- A failed start's stop lands in `Idle` after all.
  abbrev pub forgive : ℕ → TaskHandle S T → Graph S T N → Graph S T N
  forgive id t g =
      if t.start_failed then mark_changed (put_task id (record t { start_failed = false }) g) else g

  unfoldable pub set_pin : ℕ → Bool → Graph S T N → Graph S T N
  set_pin id pinned g =
      let g1 = with_task id (λ t. record t { saved_pin = false }) g in
      if pinned then add_edge init_task_id id g1 else remove_edge init_task_id id g1

  unfoldable pub set_vetoed : ℕ → Bool → Graph S T N → Graph S T N
  set_vetoed id value g = elim (get_task g id) [
    | none ↦ g
    | some t ↦
        if bool_eq t.vetoed value
        then g
        else enqueue id (put_task id (record t { vetoed = value }) g)
  ]

  -- The loop of `closure`: `todo` is what is listed and not yet looked at, `seen` all that is
  -- listed, on fuel for the tasks that are looked at.
  unfoldable pub closure_loop : ℕ → Graph S T N → List ℕ → List ℕ → List ℕ
  closure_loop zero g todo seen = todo
  closure_loop (suc fuel) g [] seen = []
  closure_loop (suc fuel) g (id ∷ todo) seen =
      let more = fresh seen (deps_of g id) in id ∷ closure_loop fuel g (todo ++ more) (more ++ seen)

  unfoldable pub closure : Graph S T N → ℕ → List ℕ
  closure g id = closure_loop (suc (length g.tasks)) g (id ∷ []) (id ∷ [])

  unfoldable pub requires : Graph S T N → ℕ → ℕ → Bool
  requires g from to = contains to (closure g from)

module _ {S T N : Type 0} (h : Host S T N) where
  abbrev pub demand_one : ℕ → Bool → ℕ → Graph S T N → Graph S T N
  demand_one target rerun_done id g = elim (get_task g id) [
    | none ↦ g
    | some t ↦
        (let g1 = set_vetoed id false (forgive id t g) in
          if revives t.state (rerun_done && (id == target)) then set_state h id idle g1 else g1)
  ]

  unfoldable pub demand_each : ℕ → Bool → List ℕ → Graph S T N → Graph S T N
  demand_each target rerun_done [] g = g
  demand_each target rerun_done (id ∷ ids) g =
      demand_each target rerun_done ids (demand_one target rerun_done id g)

  unfoldable pub demand : ℕ → Bool → Graph S T N → Graph S T N
  demand id rerun_done g = demand_each id rerun_done (closure g id) g

  unfoldable pub cmd_start : ℕ → Graph S T N → Graph S T N
  cmd_start id g = demand id true (set_pin id true g)

  unfoldable pub cmd_up : ℕ → Graph S T N → Graph S T N
  cmd_up id g = demand id false (set_pin id true g)

  abbrev pub stop_in : TaskState → ℕ → Graph S T N → Graph S T N
  stop_in starting id g = stop_task h id false g
  stop_in running id g = stop_task h id false g
  stop_in ready id g = stop_task h id false g
  stop_in _ id g = g

  unfoldable pub stop_if_active : ℕ → Graph S T N → Graph S T N
  stop_if_active id g = elim (get_task g id) [ none ↦ g | some t ↦ stop_in t.state id g ]

  unfoldable pub cmd_stop : ℕ → Graph S T N → Graph S T N
  cmd_stop id g = stop_if_active id (set_pin id false g)

  abbrev pub kill_in : TaskState → ℕ → Graph S T N → Graph S T N
  kill_in starting id g = hard_kill h id (set_state h id stopping g)
  kill_in running id g = hard_kill h id (set_state h id stopping g)
  kill_in ready id g = hard_kill h id (set_state h id stopping g)
  kill_in stopping id g = hard_kill h id g
  kill_in _ id g = g

  unfoldable pub kill_now : ℕ → Graph S T N → Graph S T N
  kill_now id g = elim (get_task g id) [ none ↦ g | some t ↦ kill_in t.state id g ]

  unfoldable pub cmd_kill : ℕ → Graph S T N → Graph S T N
  cmd_kill id g = kill_now id (set_pin id false g)

  unfoldable pub cmd_veto : ℕ → Graph S T N → Graph S T N
  cmd_veto id g = set_vetoed id true (set_pin id false g)

  unfoldable pub cmd_restart : ℕ → Graph S T N → Graph S T N
  cmd_restart id g = stop_if_active id (cmd_start id g)

  -- `ForceRestart` of `act`
  unfoldable pub cmd_force_restart : ℕ → Graph S T N → Graph S T N
  cmd_force_restart id g = cmd_start id (cmd_kill id g)
