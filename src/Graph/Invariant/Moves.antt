-- ===== src/Graph/Invariant/Moves.antt =====
-- The operations that move a task from state to state keep the invariant: `set_state`, starting,
-- stopping, killing, and how a run lands.
use dekit.Prelude.{
  ℕ, ◌≡◌, refl, sym, ap, ◌∙◌, Bool, true, false, Option, none, some, List, arith, is_some,
  if◌then◌else◌, if_elim, option_elim,
}
use dekit.Prelude.Maps.{lookup-insert, some_injective}
use dekit.Task.{TaskHandle, TaskState, state_eq, bool_eq}
use dekit.Task.Legal.{legal_transition, flags_fit, IsFlagged, is_stopping}
use dekit.Graph.State.{Host, Graph, get_task, put_task, push_timer_change, deps_of}
use dekit.Graph.SetState.{moved_to, move_task, wake_parents, recount, change_state, set_state}
use dekit.Graph.Driving.{schedule_state_timeout, schedule}
use dekit.Graph.Invariant.{
  IsPlainHost, Inv, put_task-Inv, IsFlagged-at, mark_changed-Inv, push_timer_change-Inv,
  log_transition-Inv, enqueue-Inv, enqueue_parents-Inv, count_active-Inv, notify_subscribers-Inv,
}
use dekit.Graph.Invariant.States.{state_of, state_at}

module _ {S T : Type 0} where
  moved_to-IsFlagged : (s : TaskState) (t : TaskHandle S T) → IsFlagged (moved_to s t)
  unfolding flags_fit
  moved_to-IsFlagged s t = refl

  pub not_failed :
      (t : TaskHandle S T) → IsFlagged t → is_stopping t.state ≡ false → t.start_failed ≡ false
  unfolding flags_fit
  not_failed t f n = ground arith

module _ {S T N : Type 0} where
  -- A task in a state is there.
  pub get_of_state :
      (g : Graph S T N) (id : ℕ) (s : TaskState)
      → state_at g id ≡ some s
      → (t : TaskHandle S T) × (get_task g id ≡ some t) × (t.state ≡ s)
  unfolding state_at
  get_of_state g id s e = go (get_task g id) e refl
    where
      go :
          (o : Option (TaskHandle S T))
          → state_of o ≡ some s
          → get_task g id ≡ o
          → (t : TaskHandle S T) × (get_task g id ≡ some t) × (t.state ≡ s)
      go none e' q = absurd (cc)
      go (some t) e' q = (t, q, some_injective e')

  pub state_of_get :
      (g : Graph S T N) (id : ℕ) (t : TaskHandle S T)
      → get_task g id ≡ some t
      → state_at g id ≡ some t.state
  unfolding state_at
  state_of_get g id t at = ap state_of at

  pub absent :
      (g : Graph S T N) (id : ℕ) (s : TaskState) → state_at g id ≡ some s → get_task g id ≡ none → ⊥
  absent g id s e gone = let (t, at, is) = get_of_state g id s e in cc (gone, at)

  pub get-put :
      (id : ℕ) (t : TaskHandle S T) (g : Graph S T N) → get_task (put_task id t g) id ≡ some t
  unfolding put_task
  get-put id t g = ground (arith, lookup-insert id id t g.tasks)

  pub state_registered :
      (g : Graph S T N) (id : ℕ) (s : TaskState)
      → state_at g id ≡ some s
      → is_some (get_task g id) ≡ true
  state_registered g id s e = let (t, at, is) = get_of_state g id s e in ap is_some at

module _ {S T N : Type 0} {ids : List ℕ} where
  timer-Inv :
      (b : Bool) (id : ℕ) (g : Graph S T N)
      → Inv ids g
      → Inv ids (if b then push_timer_change id g else g)
  timer-Inv true id g v = push_timer_change-Inv id g v
  timer-Inv false id g v = v

  move_task-Inv :
      (id : ℕ) (s : TaskState) (t : TaskHandle S T) (g : Graph S T N)
      → legal_transition t.state s t.start_failed ≡ true
      → Inv ids g
      → Inv ids (move_task id s t g)
  unfolding move_task
  move_task-Inv id s t g l v = log_transition-Inv _ _ l (
      mark_changed-Inv _ (
        timer-Inv (is_some t.deadline) id _
          (put_task-Inv id (moved_to s t) g (moved_to-IsFlagged s t) v)))

  wake_parents-Inv :
      (id : ℕ) (was now : Bool) (g : Graph S T N) → Inv ids g → Inv ids (wake_parents id was now g)
  unfolding wake_parents
  wake_parents-Inv id was now g v =
      if_elim (Inv ids) (bool_eq was now) (λ e. v) (λ e. enqueue_parents-Inv id g v)

  recount-Inv :
      (id : ℕ) (was now : Bool) (g : Graph S T N) → Inv ids g → Inv ids (recount id was now g)
  unfolding recount
  recount-Inv id was now g v =
      if_elim (Inv ids) (bool_eq was now) (λ e. v) (λ e. count_active-Inv now (deps_of g id) g v)

  pub schedule_state_timeout-Inv :
      (id delay : ℕ) (g : Graph S T N) → Inv ids g → Inv ids (schedule_state_timeout id delay g)
  unfolding schedule_state_timeout
  schedule_state_timeout-Inv id delay g v =
      option_elim (Inv ids) (get_task g id) v
        (λ t at. push_timer_change-Inv id _ (put_task-Inv id _ g (IsFlagged-at g id t v at) v))

  pub schedule-Inv :
      (id : ℕ) (delay : Option ℕ) (g : Graph S T N) → Inv ids g → Inv ids (schedule id delay g)
  schedule-Inv id none g v = v
  schedule-Inv id (some d) g v = schedule_state_timeout-Inv id d g v

module _ {S T N : Type 0} (h : Host S T N) (p : IsPlainHost h) {ids : List ℕ} where
  change_state-Inv :
      (id : ℕ) (s : TaskState) (t : TaskHandle S T) (g : Graph S T N)
      → legal_transition t.state s t.start_failed ≡ true
      → Inv ids g
      → Inv ids (change_state h id s t g)
  unfolding change_state
  change_state-Inv id s t g l v = notify_subscribers-Inv h p id t.space t.path _ _ (
      recount-Inv id _ _ _
        (wake_parents-Inv id _ _ _ (enqueue-Inv id _ (move_task-Inv id s t g l v))))

  -- A legal change of state keeps the invariant.
  pub set_state-Inv :
      (id : ℕ) (s : TaskState) (g : Graph S T N)
      → ((t : TaskHandle S T)
          → get_task g id ≡ some t
          → legal_transition t.state s t.start_failed ≡ true)
      → Inv ids g
      → Inv ids (set_state h id s g)
  unfolding set_state
  set_state-Inv id s g legal v = option_elim (Inv ids) (get_task g id) v (λ t at.
      if_elim (Inv ids) (state_eq t.state s) (λ e. v)
        (λ e. change_state-Inv id s t g (legal t at) v))

  -- From a state other than `Stopping` no start has failed.
  pub set_state_from :
      (id : ℕ) (from s : TaskState) (g : Graph S T N)
      → is_stopping from ≡ false
      → legal_transition from s false ≡ true
      → state_at g id ≡ some from
      → Inv ids g
      → Inv ids (set_state h id s g)
  set_state_from id from s g n l e v =
      set_state-Inv id s g
        (λ t at.
          let is : t.state ≡ from = some_injective (sym (state_of_get g id t at) ∙ e) in
          let ok : t.start_failed ≡ false = not_failed t (IsFlagged-at g id t v at) (rw is n) in
          rw (is, ok) l)
        v
