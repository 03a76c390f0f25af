-- ===== src/Graph/Reconcile.antt =====
-- The reconciler of src/kernel/kernel.rs: it brings the cached `wanted` and `supported` of the
-- dirty tasks to a fixed point, then drives the tasks to match. The loops run on fuel: when it is
-- spent what is left stays queued.
use dekit.Prelude.{
  ℕ, zero, suc, ◌+◌, ◌*◌, Bool, true, false, not, ◌&&◌, Option, none, some, List, [], ◌∷◌, ◌++◌,
  contains, length, ltb, if◌then◌else◌,
}
use dekit.Task.{
  TaskHandle, TaskState, idle, starting, running, ready, backoff, bool_eq, is_satisfied,
}
use dekit.Graph.State.{
  Host, Graph, get_task, put_task, mark_changed, panic, deps_of, enqueue_parents, pop_dirty,
}
use dekit.Graph.Edges.{count_wanted}
use dekit.Graph.SetState.{set_state}
use dekit.Graph.Driving.{start_task, stop_task}
use dekit.Graph.Reports.{apply_effect}

module _ {S T : Type 0} where
  abbrev pub supports : Option (TaskHandle S T) → Bool
  supports none = false
  supports (some t) = t.supported && is_satisfied t

module _ {S T N : Type 0} where
  unfoldable pub compute_wanted : Graph S T N → TaskHandle S T → Bool
  compute_wanted g t = not g.quitting && (not t.vetoed && ltb 0 t.wanted_parents)

  unfoldable pub all_support : Graph S T N → List ℕ → Bool
  all_support g [] = true
  all_support g (dep ∷ deps) = supports (get_task g dep) && all_support g deps

  unfoldable pub compute_supported : Graph S T N → ℕ → TaskHandle S T → Bool
  compute_supported g id t = t.wanted && all_support g (deps_of g id)

  abbrev pub refresh_wanted : ℕ → TaskHandle S T → Graph S T N → Graph S T N
  refresh_wanted id t g =
      let new_wanted = compute_wanted g t in
      if bool_eq t.wanted new_wanted
      then g
      else count_wanted new_wanted (deps_of g id)
          (mark_changed (put_task id (record t { wanted = new_wanted }) g))

  -- After the change of `wanted`: `tasks[&id]` panics if the task is gone.
  unfoldable pub refresh_supported : ℕ → Graph S T N → Graph S T N
  refresh_supported id g = elim (get_task g id) [
    | none ↦ panic g
    | some t ↦
        (let new_supported = compute_supported g id t in
          if bool_eq t.supported new_supported
          then g
          else enqueue_parents id (put_task id (record t { supported = new_supported }) g))
  ]

  unfoldable pub recompute_caches : ℕ → Graph S T N → Graph S T N
  recompute_caches id g = elim (get_task g id) [
    | none ↦ g
    | some t ↦ refresh_supported id (refresh_wanted id t g)
  ]

  -- The first loop of a round: the ids that were popped, each once, and the graph.
  unfoldable pub propagate : ℕ → List ℕ → Graph S T N → List ℕ × Graph S T N
  propagate zero seen g = (seen, g)
  propagate (suc fuel) seen g = elim (pop_dirty g) [
    | none ↦ (seen, g)
    | some (id, g') ↦
        propagate fuel (if contains id seen then seen else seen ++ id ∷ []) (recompute_caches id g')
  ]

  unfoldable pub has_active_dependent : Graph S T N → ℕ → Bool
  has_active_dependent g id = elim (get_task g id) [
    | none ↦ false
    | some t ↦ ltb 0 t.active_dependents
  ]

  unfoldable pub settle_budget : Graph S T N → ℕ
  settle_budget g = length g.tasks * 16 + 64

  abbrev pub is_clean : Graph S T N → Bool
  is_clean g = elim (g.dirty) [ [] ↦ true | id ∷ ids ↦ false ]

module _ {S T N : Type 0} (h : Host S T N) where
  abbrev pub drive_up : TaskState → ℕ → Graph S T N → Graph S T N
  drive_up idle id g = start_task h id g
  drive_up _ id g = g

  -- Ordered shutdown: dependents go down first.
  abbrev pub drive_down : TaskState → ℕ → Graph S T N → Graph S T N
  drive_down starting id g = if has_active_dependent g id then g else stop_task h id false g
  drive_down running id g = if has_active_dependent g id then g else stop_task h id false g
  drive_down ready id g = if has_active_dependent g id then g else stop_task h id false g
  drive_down (backoff info) id g = set_state h id idle g
  drive_down _ id g = g

  unfoldable pub drive_task : ℕ → Graph S T N → Graph S T N
  drive_task id g = elim (get_task g id) [
    | none ↦ panic g
    | some t ↦ if t.supported then drive_up t.state id g else drive_down t.state id g
  ]

  unfoldable pub drive_all : List ℕ → Graph S T N → Graph S T N
  drive_all [] g = g
  drive_all (id ∷ ids) g = drive_all ids (drive_task id g)

  unfoldable pub reconcile_round : ℕ → Graph S T N → Graph S T N
  reconcile_round fuel g = let (to_drive, g') = propagate fuel [] g in drive_all to_drive g'

  -- The loop of `settle`, on the steps that its budget leaves; each round of reconciling has fuel
  -- of its own.
  unfoldable pub settle_loop : ℕ → ℕ → Graph S T N → Graph S T N
  settle_loop fuel zero g = g
  settle_loop fuel (suc steps) g = elim (g.pending_effects) [
    | (id, effect) ∷ rest ↦
        settle_loop fuel steps (apply_effect h id effect (record g { pending_effects = rest }))
    | [] ↦ elim (is_clean g) [ true ↦ g | false ↦ settle_loop fuel steps (reconcile_round fuel g) ]
  ]

  unfoldable pub settle : ℕ → Graph S T N → Graph S T N
  settle fuel g = settle_loop fuel (suc (settle_budget g)) g
