-- ===== src/Graph/Invariant/Verbs.antt =====
-- The verbs keep the invariant.
use dekit.Prelude.{
  ℕ, ◌≡◌, refl, ◌∙◌, Bool, true, false, some, List, [], ◌∷◌, arith, if◌then◌else◌, if_elim,
  option_elim,
}
use dekit.Task.{
  TaskHandle, TaskState, idle, starting, running, ready, stopping, backoff, done, exited, bool_eq,
  init_task_id,
}
use dekit.Task.Legal.{legal_transition, flags_fit, IsFlagged}
use dekit.Graph.State.{Host, Graph, get_task}
use dekit.Graph.SetState.{set_state}
use dekit.Graph.Intent.{
  set_pin, set_vetoed, revives, forgive, demand_one, demand_each, demand, cmd_start, cmd_up,
  stop_in, stop_if_active, cmd_stop, kill_in, kill_now, cmd_kill, cmd_veto, cmd_restart,
  cmd_force_restart,
}
use dekit.Graph.Driving.{hard_kill}
use dekit.Graph.Invariant.{
  IsPlainHost, Inv, put_task-Inv, IsFlagged-at, with_task-Inv, mark_changed-Inv, enqueue-Inv,
  add_edge-Inv, remove_edge-Inv,
}
use dekit.Graph.Invariant.States.{
  state_at, state-put, state-enqueue, state-mark_changed, state-set_state,
}
use dekit.Graph.Invariant.Moves.{state_of_get, state_registered, set_state_from}
use dekit.Graph.Invariant.Drives.{
  is_run, run_not_stopping, run_may_stop, stop_task-Inv, hard_kill-Inv,
}

module _ {S T : Type 0} where
  forgiven-IsFlagged :
      (t : TaskHandle S T) → IsFlagged t → IsFlagged (record t { start_failed = false })
  unfolding flags_fit
  forgiven-IsFlagged t f = ground arith

module _ {S T N : Type 0} where
  state-set_vetoed :
      (id : ℕ) (value : Bool) (g : Graph S T N) (j : ℕ)
      → state_at (set_vetoed id value g) j ≡ state_at g j
  unfolding set_vetoed
  state-set_vetoed id value g j =
      option_elim (λ (g' : Graph S T N). state_at g' j ≡ state_at g j) (get_task g id) refl
        (λ t at.
          if_elim (λ (g' : Graph S T N). state_at g' j ≡ state_at g j) (bool_eq t.vetoed value)
            (λ e. refl) (λ e. state-enqueue id _ j ∙ state-put id t _ g j at refl))

  state-forgive :
      (id : ℕ) (t : TaskHandle S T) (g : Graph S T N)
      → get_task g id ≡ some t
      → (j : ℕ) → state_at (forgive id t g) j ≡ state_at g j
  state-forgive id t g at j =
      if_elim (λ (g' : Graph S T N). state_at g' j ≡ state_at g j) t.start_failed
        (λ e. state-mark_changed _ j ∙ state-put id t _ g j at refl) (λ e. refl)

module _ {S T N : Type 0} {ids : List ℕ} where
  pub set_pin-Inv :
      (id : ℕ) (pinned : Bool) (g : Graph S T N) → Inv ids g → Inv ids (set_pin id pinned g)
  unfolding set_pin
  set_pin-Inv id pinned g v =
      let v' = with_task-Inv id (λ t. record t { saved_pin = false }) g (λ t f. f) v in
      if_elim (Inv ids) pinned (λ e. add_edge-Inv init_task_id id _ v')
        (λ e. remove_edge-Inv init_task_id id _ v')

  set_vetoed-Inv :
      (id : ℕ) (value : Bool) (g : Graph S T N) → Inv ids g → Inv ids (set_vetoed id value g)
  unfolding set_vetoed
  set_vetoed-Inv id value g v = option_elim (Inv ids) (get_task g id) v (λ t at.
      if_elim (Inv ids) (bool_eq t.vetoed value) (λ e. v)
        (λ e. enqueue-Inv id _ (put_task-Inv id _ g (IsFlagged-at g id t v at) v)))

  forgive-Inv :
      (id : ℕ) (t : TaskHandle S T) (g : Graph S T N)
      → get_task g id ≡ some t
      → Inv ids g
      → Inv ids (forgive id t g)
  forgive-Inv id t g at v =
      if_elim (Inv ids) t.start_failed
        (λ e.
          mark_changed-Inv _
            (put_task-Inv id _ g (forgiven-IsFlagged t (IsFlagged-at g id t v at)) v))
        (λ e. v)

module _ {S T N : Type 0} (h : Host S T N) (p : IsPlainHost h) {ids : List ℕ} where
  revived-Inv :
      (s : TaskState) (id : ℕ) (again : Bool) (g : Graph S T N)
      → state_at g id ≡ some s
      → Inv ids g
      → Inv ids (if revives s again then set_state h id idle g else g)
  revived-Inv (backoff info) id again g e v =
      set_state_from h p id (backoff info) idle g refl (unfold legal_transition in refl) e v
  revived-Inv (exited info) id again g e v =
      set_state_from h p id (exited info) idle g refl (unfold legal_transition in refl) e v
  revived-Inv (done info) id again g e v =
      if_elim (Inv ids) again
        (λ y. set_state_from h p id (done info) idle g refl (unfold legal_transition in refl) e v)
        (λ n. v)
  revived-Inv _ id again g e v = v

  demand_one-Inv :
      (target : ℕ) (again : Bool) (id : ℕ) (g : Graph S T N)
      → Inv ids g
      → Inv ids (demand_one h target again id g)
  demand_one-Inv target again id g v = option_elim (Inv ids) (get_task g id) v (λ t at.
      revived-Inv t.state id _ _
        (state-set_vetoed id false _ id ∙ state-forgive id t g at id ∙ state_of_get g id t at)
        (set_vetoed-Inv id false _ (forgive-Inv id t g at v)))

  demand_each-Inv :
      (target : ℕ) (again : Bool) (js : List ℕ) (g : Graph S T N)
      → Inv ids g
      → Inv ids (demand_each h target again js g)
  unfolding demand_each
  demand_each-Inv target again [] g v = v
  demand_each-Inv target again (j ∷ js) g v =
      demand_each-Inv target again js _ (demand_one-Inv target again j g v)

  stop_in-Inv :
      (s : TaskState) (id : ℕ) (g : Graph S T N)
      → state_at g id ≡ some s
      → Inv ids g
      → Inv ids (stop_in h s id g)
  stop_in-Inv starting id g e v = stop_task-Inv h p id false starting g refl e v
  stop_in-Inv running id g e v = stop_task-Inv h p id false running g refl e v
  stop_in-Inv ready id g e v = stop_task-Inv h p id false ready g refl e v
  stop_in-Inv _ id g e v = v

  stop_if_active-Inv : (id : ℕ) (g : Graph S T N) → Inv ids g → Inv ids (stop_if_active h id g)
  unfolding stop_if_active
  stop_if_active-Inv id g v =
      option_elim (Inv ids) (get_task g id) v
        (λ t at. stop_in-Inv t.state id g (state_of_get g id t at) v)

  killed_run :
      (s : TaskState) (id : ℕ) (g : Graph S T N)
      → is_run s ≡ true
      → state_at g id ≡ some s
      → Inv ids g
      → Inv ids (hard_kill h id (set_state h id stopping g))
  killed_run s id g r e v =
      hard_kill-Inv h p id _ (state-set_state h id stopping g (state_registered g id s e))
        (set_state_from h p id s stopping g (run_not_stopping s r) (run_may_stop s r) e v)

  kill_in-Inv :
      (s : TaskState) (id : ℕ) (g : Graph S T N)
      → state_at g id ≡ some s
      → Inv ids g
      → Inv ids (kill_in h s id g)
  kill_in-Inv starting id g e v = killed_run starting id g refl e v
  kill_in-Inv running id g e v = killed_run running id g refl e v
  kill_in-Inv ready id g e v = killed_run ready id g refl e v
  kill_in-Inv stopping id g e v = hard_kill-Inv h p id g e v
  kill_in-Inv _ id g e v = v

  kill_now-Inv : (id : ℕ) (g : Graph S T N) → Inv ids g → Inv ids (kill_now h id g)
  unfolding kill_now
  kill_now-Inv id g v =
      option_elim (Inv ids) (get_task g id) v
        (λ t at. kill_in-Inv t.state id g (state_of_get g id t at) v)

  pub cmd_start-Inv : (id : ℕ) (g : Graph S T N) → Inv ids g → Inv ids (cmd_start h id g)
  unfolding cmd_start demand
  cmd_start-Inv id g v = demand_each-Inv id true _ _ (set_pin-Inv id true g v)

  pub cmd_up-Inv : (id : ℕ) (g : Graph S T N) → Inv ids g → Inv ids (cmd_up h id g)
  unfolding cmd_up demand
  cmd_up-Inv id g v = demand_each-Inv id false _ _ (set_pin-Inv id true g v)

  pub cmd_stop-Inv : (id : ℕ) (g : Graph S T N) → Inv ids g → Inv ids (cmd_stop h id g)
  unfolding cmd_stop
  cmd_stop-Inv id g v = stop_if_active-Inv id _ (set_pin-Inv id false g v)

  pub cmd_kill-Inv : (id : ℕ) (g : Graph S T N) → Inv ids g → Inv ids (cmd_kill h id g)
  unfolding cmd_kill
  cmd_kill-Inv id g v = kill_now-Inv id _ (set_pin-Inv id false g v)

  pub cmd_veto-Inv : (id : ℕ) (g : Graph S T N) → Inv ids g → Inv ids (cmd_veto h id g)
  unfolding cmd_veto
  cmd_veto-Inv id g v = set_vetoed-Inv id true _ (set_pin-Inv id false g v)

  pub cmd_restart-Inv : (id : ℕ) (g : Graph S T N) → Inv ids g → Inv ids (cmd_restart h id g)
  unfolding cmd_restart
  cmd_restart-Inv id g v = stop_if_active-Inv id _ (cmd_start-Inv id g v)

  pub cmd_force_restart-Inv :
      (id : ℕ) (g : Graph S T N) → Inv ids g → Inv ids (cmd_force_restart h id g)
  unfolding cmd_force_restart
  cmd_force_restart-Inv id g v = cmd_start-Inv id _ (cmd_kill-Inv id g v)
