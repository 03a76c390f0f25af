-- ===== src/Graph/Invariant/States.antt =====
-- Which operations leave every task in its state, and that `set_state` ends in the state asked.
use dekit.Prelude.{
  ℕ, ◌≡◌, refl, ◌∙◌, Bool, true, false, Option, none, some, List, [], ◌∷◌, arith, is_some, ◌==◌,
  if◌then◌else◌, if_elim, option_elim, ==_refl, option_elim_eq,
}
use dekit.Prelude.Maps.{lookup-insert}
use dekit.Prelude.Text.{Text}
use dekit.TaskPath.{TaskPath}
use dekit.Task.{
  TaskHandle, TaskState, state_eq, TaskCmd, TaskEffect, TaskNotify, msg, state_changed,
  is_satisfied, is_active, bool_eq,
}
use dekit.Task.Equality.{state_eq_sound}
use dekit.Graph.State.{
  Host, Graph, Transition, get_task, is_registered, put_task, with_task, mark_changed,
  push_timer_change, log_transition, deps_of, parents_of, enqueue, enqueue_all, enqueue_parents,
  queue_effects, send_cmd, deliver, notify_subscribers, notify_changed,
}
use dekit.Graph.Edges.{count_active}
use dekit.Graph.SetState.{moved_to, move_task, wake_parents, recount, change_state, set_state}

registered_none {ℓ} : {A : Type ℓ} (o : Option A) → is_some o ≡ true → o ≡ none → ⊥
registered_none none r e = absurd (cc)
registered_none (some a) r e = absurd (cc)

if_refl : {A : Type 0} (id : ℕ) (x y : A) → (if id == id then x else y) ≡ x
if_refl id x y = rw (==_refl id)

module _ {S T : Type 0} where
  abbrev pub state_of : Option (TaskHandle S T) → Option TaskState
  state_of none = none
  state_of (some t) = some t.state

module _ {S T N : Type 0} where
  unfoldable pub state_at : Graph S T N → ℕ → Option TaskState
  state_at g j = state_of (get_task g j)

  pub state-put_self :
      (id : ℕ) (t : TaskHandle S T) (g : Graph S T N) → state_at (put_task id t g) id ≡ some t.state
  unfolding state_at put_task
  state-put_self id t g = ground (arith, lookup-insert id id t g.tasks)

  pub state-put :
      (id : ℕ) (t t' : TaskHandle S T) (g : Graph S T N) (j : ℕ)
      → get_task g id ≡ some t
      → t'.state ≡ t.state
      → state_at (put_task id t' g) j ≡ state_at g j
  unfolding state_at put_task
  state-put id t t' g j at e = ground (arith, lookup-insert id j t' g.tasks)

  pub state-with :
      (id : ℕ) (f : TaskHandle S T → TaskHandle S T) (g : Graph S T N) (j : ℕ)
      → ((t : TaskHandle S T) → (f t).state ≡ t.state)
      → state_at (with_task id f g) j ≡ state_at g j
  unfolding with_task
  state-with id f g j keep =
      option_elim (λ (g' : Graph S T N). state_at g' j ≡ state_at g j) (get_task g id) refl
        (λ t at. state-put id t (f t) g j at (keep t))

  pub state-enqueue : (id : ℕ) (g : Graph S T N) (j : ℕ) → state_at (enqueue id g) j ≡ state_at g j
  unfolding state_at enqueue
  state-enqueue id g j =
      if_elim (λ (g' : Graph S T N). state_at g' j ≡ state_at g j) _ (λ e. refl) (λ e. refl)

  pub state-enqueue_all :
      (js : List ℕ) (g : Graph S T N) (j : ℕ) → state_at (enqueue_all js g) j ≡ state_at g j
  unfolding enqueue_all
  state-enqueue_all [] g j = refl
  state-enqueue_all (i ∷ js) g j = state-enqueue_all js (enqueue i g) j ∙ state-enqueue i g j

  pub state-enqueue_parents :
      (id : ℕ) (g : Graph S T N) (j : ℕ) → state_at (enqueue_parents id g) j ≡ state_at g j
  unfolding enqueue_parents
  state-enqueue_parents id g j = state-enqueue_all (parents_of g id) g j

  pub state-count_active :
      (up : Bool) (deps : List ℕ) (g : Graph S T N) (j : ℕ)
      → state_at (count_active up deps g) j ≡ state_at g j
  unfolding count_active
  state-count_active up [] g j = refl
  state-count_active true (d ∷ deps) g j =
      state-count_active true deps _ j ∙ state-enqueue d _ j ∙ state-with d _ g j (λ t. refl)
  state-count_active false (d ∷ deps) g j =
      state-count_active false deps _ j ∙ state-enqueue d _ j ∙ state-with d _ g j (λ t. refl)

  state-queue_effects :
      (id : ℕ) (fx : List TaskEffect) (g : Graph S T N) (j : ℕ)
      → state_at (queue_effects id fx g) j ≡ state_at g j
  unfolding state_at queue_effects
  state-queue_effects id fx g j = refl

  pub state-mark_changed : (g : Graph S T N) (j : ℕ) → state_at (mark_changed g) j ≡ state_at g j
  unfolding state_at mark_changed
  state-mark_changed g j = refl

  pub state-push_timer_change :
      (id : ℕ) (g : Graph S T N) (j : ℕ) → state_at (push_timer_change id g) j ≡ state_at g j
  unfolding state_at push_timer_change
  state-push_timer_change id g j = refl

  state-log_transition :
      (tr : Transition) (g : Graph S T N) (j : ℕ) → state_at (log_transition tr g) j ≡ state_at g j
  unfolding state_at log_transition
  state-log_transition tr g j = refl

  pub state-put_any :
      (id : ℕ) (t : TaskHandle S T) (g : Graph S T N) (j : ℕ)
      → state_at (put_task id t g) j ≡ (if id == j then some t.state else state_at g j)
  unfolding state_at put_task
  state-put_any id t g j = ground (arith, lookup-insert id j t g.tasks)

  state-wake_parents :
      (id : ℕ) (was now : Bool) (g : Graph S T N) (j : ℕ)
      → state_at (wake_parents id was now g) j ≡ state_at g j
  unfolding wake_parents
  state-wake_parents id was now g j =
      if_elim (λ (g' : Graph S T N). state_at g' j ≡ state_at g j) (bool_eq was now) (λ e. refl)
        (λ e. state-enqueue_parents id g j)

  state-recount :
      (id : ℕ) (was now : Bool) (g : Graph S T N) (j : ℕ)
      → state_at (recount id was now g) j ≡ state_at g j
  unfolding recount
  state-recount id was now g j =
      if_elim (λ (g' : Graph S T N). state_at g' j ≡ state_at g j) (bool_eq was now) (λ e. refl)
        (λ e. state-count_active now (deps_of g id) g j)

  state-timer :
      (b : Bool) (id : ℕ) (g : Graph S T N) (j : ℕ)
      → state_at (if b then push_timer_change id g else g) j ≡ state_at g j
  state-timer true id g j = state-push_timer_change id g j
  state-timer false id g j = refl

  state-move_task :
      (id : ℕ) (s : TaskState) (t : TaskHandle S T) (g : Graph S T N) (j : ℕ)
      → state_at (move_task id s t g) j ≡ (if id == j then some s else state_at g j)
  unfolding move_task
  state-move_task id s t g j =
      state-log_transition _ _ j
      ∙ state-mark_changed _ j
      ∙ state-timer (is_some t.deadline) id (put_task id (moved_to s t) g) j
      ∙ state-put_any id (moved_to s t) g j

  state_there :
      (g : Graph S T N) (id : ℕ) (t : TaskHandle S T) (s : TaskState)
      → get_task g id ≡ some t
      → t.state ≡ s
      → state_at g id ≡ some s
  unfolding state_at
  state_there g id t s at e = rw at (cc)

module _ {S T N : Type 0} (h : Host S T N) where
  pub state-send_cmd :
      (id : ℕ) (cmd : TaskCmd S) (g : Graph S T N) (j : ℕ)
      → state_at (send_cmd h id cmd g) j ≡ state_at g j
  unfolding send_cmd
  state-send_cmd id cmd g j =
      option_elim (λ (g' : Graph S T N). state_at g' j ≡ state_at g j) (get_task g id) refl
        (λ t at. state-queue_effects id _ _ j ∙ state-put id t _ g j at refl)

  pub state-deliver :
      (from : ℕ) (notify : TaskNotify) (to : List ℕ) (g : Graph S T N) (j : ℕ)
      → state_at (deliver h from notify to g) j ≡ state_at g j
  unfolding deliver
  state-deliver from notify [] g j = refl
  state-deliver from notify (id ∷ to) g j =
      state-deliver from notify to _ j ∙ state-send_cmd id (msg from notify) g j

  pub state-notify_subscribers :
      (from : ℕ) (space : Text) (path : Option TaskPath) (notify : TaskNotify) (g : Graph S T N)
      (j : ℕ)
      → state_at (notify_subscribers h from space path notify g) j ≡ state_at g j
  unfolding notify_subscribers
  state-notify_subscribers from space none notify g j = state-deliver from notify [] g j
  state-notify_subscribers from space (some path) notify g j = state-deliver from notify _ g j

  pub state-notify_changed :
      (id : ℕ) (g : Graph S T N) (j : ℕ) → state_at (notify_changed h id g) j ≡ state_at g j
  unfolding notify_changed
  state-notify_changed id g j =
      option_elim (λ (g' : Graph S T N). state_at g' j ≡ state_at g j) (get_task g id) refl
        (λ t at. state-notify_subscribers id t.space t.path _ g j)

  -- The change of state is the one asked for, and no other task changes state.
  pub state-change_state :
      (id : ℕ) (s : TaskState) (t : TaskHandle S T) (g : Graph S T N) (j : ℕ)
      → state_at (change_state h id s t g) j ≡ (if id == j then some s else state_at g j)
  unfolding change_state
  state-change_state id s t g j =
      state-notify_subscribers id t.space t.path (state_changed s) _ j
      ∙ state-recount id (is_active t.state) (is_active s) _ j
      ∙ state-wake_parents id (is_satisfied t) (is_satisfied (moved_to s t)) _ j
      ∙ state-enqueue id _ j
      ∙ state-move_task id s t g j

  pub state-set_state :
      (id : ℕ) (s : TaskState) (g : Graph S T N)
      → is_registered g id ≡ true
      → state_at (set_state h id s g) id ≡ some s
  unfolding set_state
  state-set_state id s g r =
      option_elim_eq (λ (g' : Graph S T N). state_at g' id ≡ some s) (get_task g id)
        (λ gone. absurd (registered_none (get_task g id) r gone))
        (λ t at.
          if_elim (λ (g' : Graph S T N). state_at g' id ≡ some s) (state_eq t.state s)
            (λ e. state_there g id t s at (state_eq_sound t.state s e))
            (λ e. state-change_state id s t g id ∙ if_refl id _ _))
