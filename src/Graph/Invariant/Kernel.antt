-- ===== src/Graph/Invariant/Kernel.antt =====
-- The kernel's loop keeps the invariant, whatever the messages.
use dekit.Prelude.{
  ℕ, ◌≡◌, refl, true, false, ◌&&◌, List, [], ◌∷◌, All, Distinct, if_elim, option_elim, Option,
}
use dekit.Prelude.Text.{Text}
use dekit.Task.{passed_on}
use dekit.Task.Legal.{IsPlainEffect}
use dekit.Graph.State.{Host, Graph, get_task, is_registered}
use dekit.Graph.Intent.{set_pin}
use dekit.Graph.Remove.{remove_task}
use dekit.Graph.Messages.{
  Verb, start_verb, up_verb, stop_verb, kill_verb, veto_verb, restart_verb, force_restart_verb,
  Message, register_msg, act_msg, unpin_msg, remove_msg, report_msg, timeout_msg, set_label_msg,
  task_msg, quit_msg, each, act_one, act, dispatch_now, after_dispatch, kernel_loop, run, new_graph,
  no_active_tasks,
}
use dekit.Graph.Invariant.{
  IsLegal, IsPlainHost, Inv, IsFlagged-at, put_task-Inv, mark_changed-Inv, send_cmd-Inv,
  notify_changed-Inv,
}
use dekit.Graph.Labels.{label_eq, relabelled, set_task_label}
use dekit.Graph.Invariant.Verbs.{
  set_pin-Inv, cmd_start-Inv, cmd_up-Inv, cmd_stop-Inv, cmd_kill-Inv, cmd_veto-Inv, cmd_restart-Inv,
  cmd_force_restart-Inv,
}
use dekit.Graph.Invariant.Landing.{on_state_timeout-Inv, apply_effect-Inv}
use dekit.Graph.Invariant.Settle.{settle-Inv}
use dekit.Graph.Invariant.Members.{IsSaved, register_task-Inv, remove_task-Inv, begin_quit-Inv}

-- A task does not report a ready timeout, and a snapshot's flags fit its state.
unfoldable pub IsSound : {S : Type 0} → Message S → Type 0
IsSound (register_msg id def saved deps) = IsSaved saved
IsSound (report_msg id effect) = IsPlainEffect effect
IsSound _ = Unit

abbrev pub IsSoundAt : {S : Type 0} → ℕ × Message S → Type 0
IsSoundAt m = IsSound m.1

module _ {S T N : Type 0} where
  each-Inv :
      {A : Type 0} (f : A → Graph S T N → Graph S T N)
      → ((a : A) (g : Graph S T N) → Inv [] g → Inv [] (f a g))
      → (l : List A) (g : Graph S T N) → Inv [] g
      → Inv [] (each f l g)
  each-Inv f keep [] g v = v
  each-Inv f keep (a ∷ l) g v = each-Inv f keep l _ (keep a g v)

  new_graph-Inv : (ns : N) (now : ℕ) → Inv [] (new_graph {S = S} {T = T} ns now)
  new_graph-Inv ns now = record {
    flags = tt;
    legal = tt;
    queued = tt;
    listed = tt;
    lined = refl;
    distinct = tt;
    calm = refl;
    plain = tt;
  }

  at_time-Inv : (now : ℕ) (g : Graph S T N) → Inv [] g → Inv [] (record g { now = now })
  at_time-Inv now g v = record {
    flags = v.flags;
    legal = v.legal;
    queued = v.queued;
    listed = tt;
    lined = v.lined;
    distinct = v.distinct;
    calm = v.calm;
    plain = v.plain;
  }

module _ {S T N : Type 0} (h : Host S T N) (p : IsPlainHost h) where
  act_one-Inv : (verb : Verb) (id : ℕ) (g : Graph S T N) → Inv [] g → Inv [] (act_one h verb id g)
  act_one-Inv start_verb = cmd_start-Inv h p
  act_one-Inv up_verb = cmd_up-Inv h p
  act_one-Inv stop_verb = cmd_stop-Inv h p
  act_one-Inv kill_verb = cmd_kill-Inv h p
  act_one-Inv veto_verb = cmd_veto-Inv h p
  act_one-Inv restart_verb = cmd_restart-Inv h p
  act_one-Inv force_restart_verb = cmd_force_restart-Inv h p

  set_task_label-Inv :
      (id : ℕ) (label : Option Text) (g : Graph S T N)
      → Inv [] g
      → Inv [] (set_task_label h id label g)
  unfolding set_task_label
  set_task_label-Inv id label g v = option_elim (Inv []) (get_task g id) v (λ t at.
      if_elim (Inv []) (label_eq t.label label) (λ same. v)
        (λ other. notify_changed-Inv h p id _ (
          mark_changed-Inv _
            (put_task-Inv id (relabelled h label t) g (IsFlagged-at g id t v at) v))))

  pub dispatch_now-Inv :
      (m : Message S) (g : Graph S T N) → IsSound m → Inv [] g → Inv [] (dispatch_now h m g).1
  unfolding dispatch_now IsSound act
  dispatch_now-Inv (register_msg id def saved deps) g s v =
      register_task-Inv h p id def saved deps g s v
  dispatch_now-Inv (act_msg verb ids) g s v = each-Inv (act_one h verb) (act_one-Inv verb) ids g v
  dispatch_now-Inv (unpin_msg ids) g s v =
      each-Inv (λ id. set_pin id false) (λ id g' v'. set_pin-Inv id false g' v') ids g v
  dispatch_now-Inv (remove_msg ids) g s v = each-Inv (remove_task h) (remove_task-Inv h p) ids g v
  dispatch_now-Inv (report_msg id effect) g s v = apply_effect-Inv h p id effect g s v
  dispatch_now-Inv (timeout_msg id epoch) g s v = on_state_timeout-Inv h p id epoch g v
  dispatch_now-Inv (set_label_msg ids label) g s v =
      each-Inv (λ id. set_task_label h id label) (λ id. set_task_label-Inv id label) ids g v
  dispatch_now-Inv (task_msg id m) g s v = send_cmd-Inv h p id (passed_on m) g v
  dispatch_now-Inv quit_msg g s v = begin_quit-Inv g v

  after_dispatch-Inv : (fuel : ℕ) (g : Graph S T N) → Inv [] g → Inv [] (after_dispatch h fuel g)
  unfolding after_dispatch
  after_dispatch-Inv fuel g v =
      let v1 = settle-Inv h p fuel g v in
      record {
        flags = v1.flags;
        legal = v1.legal;
        queued = v1.queued;
        listed = tt;
        lined = v1.lined;
        distinct = v1.distinct;
        calm = v1.calm;
        plain = v1.plain;
      }

  kernel_loop-Inv :
      (fuel : ℕ) (ms : List (ℕ × Message S)) (g : Graph S T N)
      → All IsSoundAt ms
      → Inv [] g
      → Inv [] (kernel_loop h fuel ms g)
  unfolding kernel_loop
  kernel_loop-Inv fuel [] g s v = v
  kernel_loop-Inv fuel ((now, m) ∷ ms) g s v =
      let r = dispatch_now h m (record g { now = now }) in
      let g2 = after_dispatch h fuel r.1 in
      let v1 = dispatch_now-Inv m _ s.0 (at_time-Inv now g v) in
      let v2 = after_dispatch-Inv fuel r.1 v1 in
      if_elim (Inv []) r.0 (λ y. v1)
        (λ n.
          if_elim (Inv []) (g2.quitting && no_active_tasks g2.tasks) (λ y. v2)
            (λ n'. kernel_loop-Inv fuel ms g2 s.1 v2))

  run-Inv :
      (fuel : ℕ) (ms : List (ℕ × Message S)) (ns : N) (now : ℕ)
      → All IsSoundAt ms
      → Inv [] (run h fuel ms (new_graph ns now))
  unfolding run
  run-Inv fuel ms ns now s =
      kernel_loop-Inv fuel ms _ s (after_dispatch-Inv fuel _ (new_graph-Inv ns now))

  -- From an empty graph and whatever the messages, every state change that the kernel logs is one
  -- of the legal diagram: for tasks that report no ready timeout, and snapshots in which only a
  -- task that is stopping is marked as killed.
  pub run-IsLegal :
      (fuel : ℕ) (ms : List (ℕ × Message S)) (ns : N) (now : ℕ)
      → All IsSoundAt ms
      → All IsLegal (run h fuel ms (new_graph ns now)).transitions
  run-IsLegal fuel ms ns now s = (run-Inv fuel ms ns now s).legal

  -- From an empty graph and whatever the messages, no lookup that the code expects to succeed
  -- fails: `tasks[&id]` while reconciling, and the `expect`s of starting, stopping and killing: for
  -- tasks that report no ready timeout, and snapshots in which only a task that is stopping is
  -- marked as killed.
  pub run-never_panics :
      (fuel : ℕ) (ms : List (ℕ × Message S)) (ns : N) (now : ℕ)
      → All IsSoundAt ms
      → (run h fuel ms (new_graph ns now)).panicked ≡ false
  run-never_panics fuel ms ns now s = (run-Inv fuel ms ns now s).calm

  -- From an empty graph and whatever the messages, the queue of dirty tasks repeats no id, and each
  -- of them is registered: for tasks that report no ready timeout, and snapshots in which only a
  -- task that is stopping is marked as killed.
  pub run-Distinct :
      (fuel : ℕ) (ms : List (ℕ × Message S)) (ns : N) (now : ℕ)
      → All IsSoundAt ms
      → let g = run h fuel ms (new_graph ns now) in
        Distinct g.dirty × All (λ id. is_registered g id ≡ true) g.dirty
  run-Distinct fuel ms ns now s = let v = run-Inv fuel ms ns now s in (v.distinct, v.queued)
