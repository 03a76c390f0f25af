-- ===== src/Graph/State.antt =====
-- `Graph` of src/kernel/kernel.rs, its queue of dirty tasks, and what it tells the tasks.
-- The tasks' objects and the namespace are the host's: `handle_cmd` is what a task does with a
-- command, `factory` makes a task's object, `without_deps` and `set_label` are of the
-- definitions' files, and `claim` (its `insert`), `before`, `collect` and `forget` are `Namespace`'s. Of the fields, those of
-- folders, tags, watches, waits and the upgrade freeze are left out. `panicked` stands for a
-- failed `expect`.
use dekit.Prelude.{
  ℕ, ◌+◌, ◌-◌, ◌^◌, ◌%◌, Bool, true, not, ◌&&◌, Option, none, some, List, [], ◌∷◌, ◌++◌, contains,
  set_remove, is_some, ◌==◌, if◌then◌else◌,
}
use dekit.Prelude.Maps
use dekit.Prelude.Maps.{Map}
use dekit.Prelude.Text.{Text}
use dekit.TaskPath.{TaskPath}
use dekit.Task.{TaskHandle, TaskCmd, msg, TaskEffect, TaskNotify, changed, TaskState, init_task_id}

pub record Host (S T N : Type 0) : Type 0 where
  pub handle_cmd : T → TaskCmd S → T × List TaskEffect
  pub factory : ℕ → T
  pub without_deps : S → S
  pub set_label : Option Text → S → S
  pub claim : N → ℕ → Text → TaskPath → Option N
  pub before : N → Text → TaskPath → Option ℕ
  pub collect : N → Text → TaskPath → List ℕ
  pub forget : N → ℕ → Text → Option TaskPath → N

-- A state change as the graph logs it: whose, from, to, and whether its start had failed.
pub record Transition : Type 0 where
  pub id : ℕ
  pub from : TaskState
  pub to : TaskState
  pub start_failed : Bool

pub record Graph (S T N : Type 0) : Type 0 where
  pub quitting : Bool
  pub tasks : Map (TaskHandle S T)
  pub edges : Map (List ℕ)
  pub redges : Map (List ℕ)
  pub ns : N
  pub dirty : List ℕ
  pub in_queue : List ℕ
  pub now : ℕ
  pub timer_changes : List ℕ
  pub pending_effects : List (ℕ × TaskEffect)
  pub state_changed : Bool
  pub transitions : List Transition
  pub panicked : Bool

-- `u32` and `u64` counters: `+= 1` and `-= 1` of a release build.
abbrev pub inc32 : ℕ → ℕ
inc32 n = (n + 1) % 2 ^ 32

abbrev pub dec32 : ℕ → ℕ
dec32 n = (n + 2 ^ 32 - 1) % 2 ^ 32

abbrev pub inc64 : ℕ → ℕ
inc64 n = (n + 1) % 2 ^ 64

abbrev pub ids_of : Option (List ℕ) → List ℕ
ids_of none = []
ids_of (some ids) = ids

abbrev pub tag_effects : ℕ → List TaskEffect → List (ℕ × TaskEffect)
tag_effects id [] = []
tag_effects id (e ∷ es) = (id, e) ∷ tag_effects id es

module _ {S T N : Type 0} where
  abbrev pub get_task : Graph S T N → ℕ → Option (TaskHandle S T)
  get_task g id = Maps.lookup id g.tasks

  abbrev pub is_registered : Graph S T N → ℕ → Bool
  is_registered g id = is_some (Maps.lookup id g.tasks)

  unfoldable pub put_task : ℕ → TaskHandle S T → Graph S T N → Graph S T N
  put_task id t g = record g { tasks = Maps.insert id t g.tasks }

  -- `if let Some(task) = self.tasks.get_mut(&id) { ... }`
  unfoldable pub with_task : ℕ → (TaskHandle S T → TaskHandle S T) → Graph S T N → Graph S T N
  with_task id f g = elim (get_task g id) [ none ↦ g | some t ↦ put_task id (f t) g ]

  unfoldable pub mark_changed : Graph S T N → Graph S T N
  mark_changed g = record g { state_changed = true }

  unfoldable pub push_timer_change : ℕ → Graph S T N → Graph S T N
  push_timer_change id g = record g { timer_changes = g.timer_changes ++ id ∷ [] }

  unfoldable pub log_transition : Transition → Graph S T N → Graph S T N
  log_transition tr g = record g { transitions = g.transitions ++ tr ∷ [] }

  -- A failed `expect`.
  unfoldable pub panic : Graph S T N → Graph S T N
  panic g = record g { panicked = true }

  -- `edges.get(&id)` and `redges.get(&id)`, where none is read as empty.
  abbrev pub deps_of : Graph S T N → ℕ → List ℕ
  deps_of g id = ids_of (Maps.lookup id g.edges)

  abbrev pub parents_of : Graph S T N → ℕ → List ℕ
  parents_of g id = ids_of (Maps.lookup id g.redges)

  unfoldable pub enqueue : ℕ → Graph S T N → Graph S T N
  enqueue id g =
      if not (id == init_task_id) && is_registered g id && not (contains id g.in_queue)
      then record g { dirty = g.dirty ++ id ∷ []; in_queue = g.in_queue ++ id ∷ [] }
      else g

  unfoldable pub enqueue_all : List ℕ → Graph S T N → Graph S T N
  enqueue_all [] g = g
  enqueue_all (id ∷ ids) g = enqueue_all ids (enqueue id g)

  unfoldable pub enqueue_parents : ℕ → Graph S T N → Graph S T N
  enqueue_parents id g = enqueue_all (parents_of g id) g

  abbrev pub popped : ℕ → List ℕ → Graph S T N → Graph S T N
  popped id rest g = record g { dirty = rest; in_queue = set_remove id g.in_queue }

  unfoldable pub pop_dirty : Graph S T N → Option (ℕ × Graph S T N)
  pop_dirty g = elim (g.dirty) [ [] ↦ none | id ∷ rest ↦ some (id, popped id rest g) ]

  unfoldable pub queue_effects : ℕ → List TaskEffect → Graph S T N → Graph S T N
  queue_effects id fx g = record g { pending_effects = g.pending_effects ++ tag_effects id fx }

module _ {S T N : Type 0} (h : Host S T N) where
  unfoldable pub send_cmd : ℕ → TaskCmd S → Graph S T N → Graph S T N
  send_cmd id cmd g = elim (get_task g id) [
    | none ↦ g
    | some t ↦
        (let (task', fx) = h.handle_cmd t.task cmd in
          queue_effects id fx (put_task id (record t { task = task' }) g))
  ]

  -- Each listener that is still there gets the notification as a command.
  unfoldable pub deliver : ℕ → TaskNotify → List ℕ → Graph S T N → Graph S T N
  deliver from notify [] g = g
  deliver from notify (id ∷ ids) g = deliver from notify ids (send_cmd id (msg from notify) g)

  unfoldable pub notify_subscribers :
      ℕ → Text → Option TaskPath → TaskNotify → Graph S T N → Graph S T N
  notify_subscribers from space none notify g = deliver from notify [] g
  notify_subscribers from space (some path) notify g =
      deliver from notify (h.collect g.ns space path) g

  unfoldable pub notify_changed : ℕ → Graph S T N → Graph S T N
  notify_changed id g = elim (get_task g id) [
    | none ↦ g
    | some t ↦ notify_subscribers id t.space t.path (changed t.label t.kind) g
  ]
