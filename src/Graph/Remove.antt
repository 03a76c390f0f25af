-- ===== src/Graph/Remove.antt =====
-- `remove_task` and `begin_quit` of src/kernel/kernel.rs. What a removed task
-- does with its last command is lost with it.
use dekit.Prelude.{
  ℕ, Bool, true, false, none, some, List, [], ◌∷◌, contains, set_remove, is_some, if◌then◌else◌,
}
use dekit.Prelude.Maps
use dekit.Prelude.Maps.{Map}
use dekit.Task.{TaskHandle, is_active, removed}
use dekit.Graph.State.{
  Host, Graph, get_task, with_task, mark_changed, push_timer_change, deps_of, parents_of, enqueue,
  enqueue_all, notify_subscribers,
}
use dekit.Graph.Edges.{count_down}

-- `set.remove` in the set under a key, which is kept when it is left empty.
abbrev take_from : ℕ → ℕ → Map (List ℕ) → Map (List ℕ)
take_from k v m = Maps.modify k (set_remove v) m

-- `tasks.keys()`
abbrev ids_in : {V : Type 0} → Map V → List ℕ
ids_in [] = []
ids_in ((id, t) ∷ m) = id ∷ ids_in m

module _ {S T N : Type 0} where
  -- The task is off the map and off the queue.
  unfoldable pub unlist : ℕ → TaskHandle S T → Graph S T N → Graph S T N
  unlist id t g =
      let g1 = mark_changed (record g { tasks = Maps.remove id g.tasks }) in
      let g2 = if is_some t.deadline then push_timer_change id g1 else g1 in
      record g2 {
        in_queue = set_remove id g2.in_queue;
        dirty = if contains id g2.in_queue then set_remove id g2.dirty else g2.dirty;
      }

  -- The dep loses a parent that was wanted, or active.
  abbrev release : ℕ → Bool → Bool → ℕ → Graph S T N → Graph S T N
  release id was_wanted was_active dep g = enqueue dep (
      with_task dep (count_down was_wanted was_active)
        (record g { redges = take_from dep id g.redges }))

  unfoldable pub drop_deps : ℕ → Bool → Bool → List ℕ → Graph S T N → Graph S T N
  drop_deps id was_wanted was_active [] g = g
  drop_deps id was_wanted was_active (dep ∷ deps) g =
      drop_deps id was_wanted was_active deps (release id was_wanted was_active dep g)

  unfoldable pub drop_dependents : ℕ → List ℕ → Graph S T N → Graph S T N
  drop_dependents id [] g = g
  drop_dependents id (from ∷ froms) g =
      drop_dependents id froms (enqueue from (record g { edges = take_from from id g.edges }))

  unfoldable pub unlink_task : ℕ → TaskHandle S T → Graph S T N → Graph S T N
  unlink_task id t g =
      let deps = deps_of g id in
      let g1 =
        drop_deps id t.wanted (is_active t.state) deps
          (record g { edges = Maps.remove id g.edges }) in
      let froms = parents_of g1 id in
      drop_dependents id froms (record g1 { redges = Maps.remove id g1.redges })

  -- Whether a quit was in progress already, and the graph.
  unfoldable pub begin_quit : Graph S T N → Bool × Graph S T N
  begin_quit g =
      if g.quitting
      then (true, g)
      else (false, enqueue_all (ids_in g.tasks) (record g { quitting = true }))

module _ {S T N : Type 0} (h : Host S T N) where
  unfoldable pub remove_task : ℕ → Graph S T N → Graph S T N
  remove_task id g = elim (get_task g id) [
    | none ↦ g
    | some t ↦
        (let g1 = unlink_task id t (unlist id t g) in
          notify_subscribers h id t.space t.path removed
            (record g1 { ns = h.forget g1.ns id t.space t.path }))
  ]
