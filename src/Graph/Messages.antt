-- ===== src/Graph/Messages.antt =====
-- The kernel's loop of src/kernel/kernel.rs: each message is dispatched, then the graph settles.
-- The selectors of a message are resolved to ids, and what its sender may register and change is
-- checked (`can_register`, `mutable_matching_ids`), before it is a message here. `quit_msg` is every
-- quit that saves nothing: `QuitWithoutSave`, and `Quit` and `QuitWithin` where they do not save.
-- Of `KernelCommand` the quits that save, `RegisterTasks` (a batch), `DropFolder`, `SetFolder`,
-- `Duplicate`, `Update`, `SetOrigin`, `Move`, `Query`, `SubscribePath`, `UnsubscribePath`,
-- `WatchActive`, `Wait`, `Freeze`, `TaskFrozen`, `FreezeTimeout` and `Thaw` are left out, and of
-- `Remove` the folders; no message is deferred by a freeze. Answers to the senders are left out.
use dekit.Prelude.{ℕ, Bool, true, false, not, ◌&&◌, Option, List, [], ◌∷◌, if◌then◌else◌}
use dekit.Prelude.Result.{Result, ok, err}
use dekit.Prelude.Maps.{Map}
use dekit.Prelude.Text.{Text}
use dekit.Task.{TaskHandle, is_active, TaskEffect, passed_on}
use dekit.Graph.State.{Host, Graph, send_cmd}
use dekit.Graph.Labels.{set_task_label}
use dekit.Graph.Driving.{on_state_timeout}
use dekit.Graph.Reports.{apply_effect}
use dekit.Graph.Intent.{
  set_pin, cmd_start, cmd_up, cmd_stop, cmd_kill, cmd_veto, cmd_restart, cmd_force_restart,
}
use dekit.Graph.Reconcile.{settle}
use dekit.Graph.Register.{TaskDef, SavedTask, register_task}
use dekit.Graph.Remove.{remove_task, begin_quit}

pub data Verb : Type 0 where
  start_verb up_verb stop_verb kill_verb veto_verb restart_verb force_restart_verb : Verb

pub data Message (S : Type 0) : Type 0 where
  register_msg : ℕ → TaskDef S → Option SavedTask → Option (List ℕ) → Message S
  act_msg : Verb → List ℕ → Message S
  unpin_msg : List ℕ → Message S
  remove_msg : List ℕ → Message S
  report_msg : ℕ → TaskEffect → Message S
  timeout_msg : ℕ → ℕ → Message S
  set_label_msg : List ℕ → Option Text → Message S
  task_msg : ℕ → ℕ → Message S
  quit_msg : Message S

abbrev pub each : {A G : Type 0} → (A → G → G) → List A → G → G
each f [] g = g
each f (a ∷ rest) g = each f rest (f a g)

-- The graph after a registration: a refused one leaves it as it was.
abbrev pub kept : {E G : Type 0} → G → Result E G → G
kept g (ok g') = g'
kept g (err e) = g

unfoldable pub no_active_tasks : {S T : Type 0} → Map (TaskHandle S T) → Bool
no_active_tasks [] = true
no_active_tasks ((id, t) ∷ m) = not (is_active t.state) && no_active_tasks m

module _ {S T N : Type 0} where
  abbrev pub new_graph : N → ℕ → Graph S T N
  new_graph ns now = record {
    quitting = false;
    tasks = [];
    edges = [];
    redges = [];
    ns = ns;
    dirty = [];
    in_queue = [];
    now = now;
    timer_changes = [];
    pending_effects = [];
    state_changed = false;
    transitions = [];
    panicked = false;
  }

module _ {S T N : Type 0} (h : Host S T N) where
  abbrev pub act_one : Verb → ℕ → Graph S T N → Graph S T N
  act_one start_verb id g = cmd_start h id g
  act_one up_verb id g = cmd_up h id g
  act_one stop_verb id g = cmd_stop h id g
  act_one kill_verb id g = cmd_kill h id g
  act_one veto_verb id g = cmd_veto h id g
  act_one restart_verb id g = cmd_restart h id g
  act_one force_restart_verb id g = cmd_force_restart h id g

  unfoldable pub act : Verb → List ℕ → Graph S T N → Graph S T N
  act verb ids g = each (act_one verb) ids g

  -- Whether the loop exits at once (a second quit), and the graph.
  unfoldable pub dispatch_now : Message S → Graph S T N → Bool × Graph S T N
  dispatch_now (register_msg id def saved deps) g =
      (false, kept g (register_task h id def saved deps g))
  dispatch_now (act_msg verb ids) g = (false, act verb ids g)
  dispatch_now (unpin_msg ids) g = (false, each (λ id. set_pin id false) ids g)
  dispatch_now (remove_msg ids) g = (false, each (remove_task h) ids g)
  dispatch_now (report_msg id effect) g = (false, apply_effect h id effect g)
  dispatch_now (timeout_msg id epoch) g = (false, on_state_timeout h id epoch g)
  dispatch_now (set_label_msg ids label) g = (false, each (λ id. set_task_label h id label) ids g)
  dispatch_now (task_msg id m) g = (false, send_cmd h id (passed_on m) g)
  dispatch_now quit_msg g = begin_quit g

  -- Settles, and takes the changes, which the watches and the timers go by. `check_active_watches`
  -- and `check_waits` are left out: they tell those who asked, and change nothing but the lists of
  -- watches and waits. (The first indexes `tasks` in `any_active`, by the ids that
  -- the namespace has for a selector.)
  unfoldable pub after_dispatch : ℕ → Graph S T N → Graph S T N
  after_dispatch fuel g = record (settle h fuel g) { state_changed = false; timer_changes = [] }

  unfoldable pub kernel_loop : ℕ → List (ℕ × Message S) → Graph S T N → Graph S T N
  kernel_loop fuel [] g = g
  kernel_loop fuel ((now, m) ∷ ms) g =
      let (at_once, g1) = dispatch_now m (record g { now = now }) in
      let g2 = after_dispatch fuel g1 in
      let rest = kernel_loop fuel ms g2 in
      if at_once then g1 else if g2.quitting && no_active_tasks g2.tasks then g2 else rest

  unfoldable pub run : ℕ → List (ℕ × Message S) → Graph S T N → Graph S T N
  run fuel ms g = kernel_loop fuel ms (after_dispatch fuel g)
