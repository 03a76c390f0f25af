-- ===== src/Graph/Edges.antt =====
-- The requirement edges of src/kernel/kernel.rs, and the counters that they keep.
use dekit.Prelude.{
  ℕ, Bool, true, false, not, ◌&&◌, ◌||◌, Option, none, some, List, [], ◌∷◌, contains, set_insert,
  set_remove, ◌==◌, if◌then◌else◌,
}
use dekit.Prelude.Maps
use dekit.Prelude.Maps.{Map}
use dekit.Task.{TaskHandle, is_active, init_task_id}
use dekit.Graph.State.{
  Graph, inc32, dec32, get_task, is_registered, with_task, mark_changed, ids_of, deps_of, enqueue,
}

-- `entry(k).or_default().insert(v)` and a removal that drops a set it empties.
abbrev pub edge_insert : ℕ → ℕ → Map (List ℕ) → Map (List ℕ)
edge_insert k v m = Maps.insert k (set_insert v (ids_of (Maps.lookup k m))) m

abbrev pub put_or_drop : ℕ → List ℕ → Map (List ℕ) → Map (List ℕ)
put_or_drop k [] m = Maps.remove k m
put_or_drop k (v ∷ vs) m = Maps.insert k (v ∷ vs) m

abbrev pub edge_remove : ℕ → ℕ → Map (List ℕ) → Map (List ℕ)
edge_remove k v m = elim (Maps.lookup k m) [
  | none ↦ m
  | some vs ↦ put_or_drop k (set_remove v vs) m
]

module _ {S T : Type 0} where
  abbrev pub wants : Option (TaskHandle S T) → Bool
  wants none = false
  wants (some t) = t.wanted

  abbrev pub active : Option (TaskHandle S T) → Bool
  active none = false
  active (some t) = is_active t.state

  -- The two counters of the required task, for an edge that comes or goes.
  abbrev pub count_up : Bool → Bool → TaskHandle S T → TaskHandle S T
  count_up w a t = record t {
    wanted_parents = if w then inc32 t.wanted_parents else t.wanted_parents;
    active_dependents = if a then inc32 t.active_dependents else t.active_dependents;
  }

  abbrev pub count_down : Bool → Bool → TaskHandle S T → TaskHandle S T
  count_down w a t = record t {
    wanted_parents = if w then dec32 t.wanted_parents else t.wanted_parents;
    active_dependents = if a then dec32 t.active_dependents else t.active_dependents;
  }

module _ {S T N : Type 0} where
  unfoldable pub parent_wanted : Graph S T N → ℕ → Bool
  parent_wanted g from = from == init_task_id || wants (get_task g from)

  unfoldable pub parent_active : Graph S T N → ℕ → Bool
  parent_active g from = not (from == init_task_id) && active (get_task g from)

  abbrev pub link : ℕ → ℕ → Graph S T N → Graph S T N
  link from to g = record g {
    edges = edge_insert from to g.edges;
    redges = edge_insert to from g.redges;
  }

  abbrev pub unlink : ℕ → ℕ → Graph S T N → Graph S T N
  unlink from to g = record g {
    edges = edge_remove from to g.edges;
    redges = edge_remove to from g.redges;
  }

  -- A refused edge changes nothing; one that is there already only queues its ends.
  unfoldable pub add_edge : ℕ → ℕ → Graph S T N → Graph S T N
  add_edge from to g =
      if from == to || to == init_task_id
      then g
      else if not (is_registered g to) || not (from == init_task_id) && not (is_registered g from)
      then g
      else (let g1 =
            if contains to (deps_of g from)
            then g
            else (let l = mark_changed (link from to g) in
                with_task to (count_up (parent_wanted l from) (parent_active l from)) l) in
          enqueue from (enqueue to g1))

  unfoldable pub remove_edge : ℕ → ℕ → Graph S T N → Graph S T N
  remove_edge from to g =
      let g1 =
        if contains to (deps_of g from)
        then (let l = mark_changed (unlink from to g) in
            with_task to (count_down (parent_wanted l from) (parent_active l from)) l)
        else g in
      enqueue from (enqueue to g1)

  -- The loops over a task's deps that move one counter and queue the dep.
  unfoldable pub count_active : Bool → List ℕ → Graph S T N → Graph S T N
  count_active up [] g = g
  count_active up (dep ∷ deps) g =
      count_active up deps
        (enqueue dep (with_task dep (if up then count_up false true else count_down false true) g))

  unfoldable pub count_wanted : Bool → List ℕ → Graph S T N → Graph S T N
  count_wanted up [] g = g
  count_wanted up (dep ∷ deps) g =
      count_wanted up deps
        (enqueue dep (with_task dep (if up then count_up true false else count_down true false) g))
