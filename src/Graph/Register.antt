-- ===== src/Graph/Register.antt =====
-- `register_task_with_id` of src/kernel/kernel.rs: a new task, or one that comes back from a
-- snapshot (`snap::Task`). The selectors of its deps are resolved already.
use dekit.Prelude.{
  ℕ, ◌-◌, ◌*◌, Bool, false, not, ◌&&◌, ◌||◌, Option, none, some, List, [], ◌∷◌, is_some, ltb,
  if◌then◌else◌,
}
use dekit.Prelude.Result.{Result, ok, err}
use dekit.Prelude.Text.{Text}
use dekit.TaskPath.{TaskPath}
use dekit.Task.{
  TaskHandle, TaskState, idle, starting, running, ready, stopping, backoff, done, exited, state_eq,
  TaskKind, is_job, ReadyMode, RestartMode, NextRun, ExitInfo, started_state, exit_state, timeout,
  added, init_task_id,
}
use dekit.Task.Legal.{is_idle, is_stopping}
use dekit.Graph.State.{
  Host, Graph, is_registered, put_task, mark_changed, enqueue, notify_subscribers,
}
use dekit.Graph.Edges.{add_edge}
use dekit.Graph.Driving.{schedule}

-- Of `TaskDef`, what the handle and the graph take from it.
pub record TaskDef (S : Type 0) : Type 0 where
  pub kind : TaskKind
  pub ready_mode : ReadyMode
  pub stop_timeout : ℕ
  pub next : Option (NextRun S)
  pub restart : RestartMode
  pub space : Text
  pub path : Option TaskPath
  pub label : Option Text
  pub spec : Option S
  pub saved_pin : Bool
  pub pinned : Bool

-- The lifecycle of a task in a snapshot.
pub record SavedTask : Type 0 where
  pub state : TaskState
  pub vetoed : Bool
  pub stop_timed_out : Bool
  pub saved_pin : Bool
  pub killed : Bool
  pub start_failed : Bool
  pub attempts : ℕ
  pub last_start_secs_ago : Option ℕ
  pub timer_ms : Option ℕ

pub data RegisterError : Type 0 where
  id_taken missing_dep path_conflict : RegisterError

abbrev pub map_some : {A B : Type 0} → (A → B) → Option A → Option B
map_some f none = none
map_some f (some a) = some (f a)

abbrev pub map_ok : {E A B : Type 0} → (A → B) → Result E A → Result E B
map_ok f (ok a) = ok (f a)
map_ok f (err e) = err e

abbrev or_zero : Option ℕ → ℕ
or_zero none = 0
or_zero (some n) = n

-- `now.checked_sub(...)`, or now
abbrev back_by : ℕ → ℕ → ℕ
back_by now secs = if ltb now (secs * 1000) then now else now - secs * 1000

abbrev saved_timer : Option SavedTask → ℕ
saved_timer none = 0
saved_timer (some s) = or_zero s.timer_ms

abbrev elapsed : ℕ → Option ℕ → ℕ
elapsed now none = 0
elapsed now (some start) = now - start

module _ {S T N : Type 0} (h : Host S T N) where
  abbrev next_without_deps : NextRun S → NextRun S
  next_without_deps n = record n { spec = map_some h.without_deps n.spec }

  abbrev pub new_handle : ℕ → TaskDef S → TaskHandle S T
  new_handle id def = record {
    task = h.factory id;
    state = idle;
    epoch = 0;
    vetoed = false;
    killed = false;
    attempts = 0;
    last_start = none;
    deadline = none;
    wanted = false;
    supported = false;
    wanted_parents = 0;
    active_dependents = 0;
    start_failed = false;
    stop_timed_out = false;
    saved_pin = def.saved_pin;
    kind = def.kind;
    ready_mode = def.ready_mode;
    stop_timeout = def.stop_timeout;
    next = map_some next_without_deps def.next;
    restart = def.restart;
    space = def.space;
    path = def.path;
    label = def.label;
    spec = map_some h.without_deps def.spec;
  }

module _ {S T : Type 0} where
  -- An end state that the task as it is now would not be filed under is dropped.
  abbrev kept_end : ExitInfo → TaskState → TaskHandle S T → TaskState
  kept_end info s t =
      if state_eq (exit_state t info) s
        && (not info.ready_timeout || is_some (timeout t.ready_mode))
      then s
      else idle

  -- A state that the task can be in as it is now.
  unfoldable pub restored_state : TaskState → TaskHandle S T → TaskState
  restored_state running t = started_state t
  restored_state ready t = if is_job t.kind then running else ready
  restored_state (backoff info) t = kept_end info (backoff info) t
  restored_state (done info) t = kept_end info (done info) t
  restored_state (exited info) t = kept_end info (exited info) t
  restored_state idle t = idle
  restored_state starting t = starting
  restored_state stopping t = stopping

  unfoldable pub restored : ℕ → Option SavedTask → TaskHandle S T → TaskHandle S T
  restored now none t = t
  restored now (some s) t =
      let state = restored_state s.state t in
      record t {
        state = state;
        vetoed = s.vetoed;
        stop_timed_out = s.stop_timed_out && is_idle state;
        saved_pin = s.saved_pin;
        killed = s.killed;
        start_failed = s.start_failed && is_stopping state && is_some (timeout t.ready_mode);
        attempts = s.attempts;
        last_start = map_some (back_by now) s.last_start_secs_ago;
      }

  -- A ready timeout counts from the start; the other timers go on with what was left of them.
  abbrev timer_in : TaskState → ℕ → Option SavedTask → TaskHandle S T → Option ℕ
  timer_in running now saved t = map_some (λ d. d - elapsed now t.last_start) (timeout t.ready_mode)
  timer_in stopping now saved t = some (saved_timer saved)
  timer_in (backoff info) now saved t = some (saved_timer saved)
  timer_in _ now saved t = none

module _ {S T N : Type 0} where
  unfoldable pub add_edges : ℕ → List ℕ → Graph S T N → Graph S T N
  add_edges id [] g = g
  add_edges id (dep ∷ deps) g = add_edges id deps (add_edge id dep g)

module _ {S T N : Type 0} (h : Host S T N) where
  -- A path that is taken refuses the registration.
  abbrev pub claim_path :
      ℕ → Text → Option TaskPath → Graph S T N → Result RegisterError (Graph S T N)
  claim_path id space none g = ok g
  claim_path id space (some p) g = elim (h.claim g.ns id space p) [
    | none ↦ err path_conflict
    | some ns ↦ ok (record g { ns = ns })
  ]

  abbrev after_path : Graph S T N → Text → Option TaskPath → Option ℕ
  after_path g space none = none
  after_path g space (some p) = h.before g.ns space p

  -- What is done once nothing refuses the task.
  unfoldable pub place_task : ℕ → TaskDef S → Option SavedTask → List ℕ → Graph S T N → Graph S T N
  place_task id def saved deps g =
      let t = restored g.now saved (new_handle h id def) in
      let after = after_path g def.space def.path in
      let g1 = schedule id (timer_in t.state g.now saved t) (mark_changed (put_task id t g)) in
      let g2 = add_edges id deps g1 in
      let g3 = if def.pinned then add_edge init_task_id id g2 else g2 in
      notify_subscribers h id def.space def.path (added def.path def.label after def.kind t.state)
        (enqueue id g3)

  unfoldable pub register_task :
      ℕ
      → TaskDef S
      → Option SavedTask
      → Option (List ℕ)
      → Graph S T N
      → Result RegisterError (Graph S T N)
  register_task id def saved none g = if is_registered g id then err id_taken else err missing_dep
  register_task id def saved (some deps) g =
      if is_registered g id
      then err id_taken
      else map_ok (place_task id def saved deps) (claim_path id def.space def.path g)
