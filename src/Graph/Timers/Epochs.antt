-- ===== src/Graph/Timers/Epochs.antt =====
-- Which operations leave every task's epoch, which its timer is set at, as it is, and that a change
-- of state counts it up.
use dekit.Prelude.{
  ℕ, ◌≡◌, refl, ◌∙◌, Bool, true, false, Option, none, some, List, [], ◌∷◌, arith, is_some, ◌==◌,
  if◌then◌else◌, if_elim, option_elim,
}
use dekit.Prelude.Maps.{lookup-insert}
use dekit.Prelude.Text.{Text}
use dekit.TaskPath.{TaskPath}
use dekit.Task.{
  TaskHandle, TaskState, TaskCmd, TaskEffect, TaskNotify, msg, state_changed, is_satisfied,
  is_active, bool_eq,
}
use dekit.Graph.State.{
  Host, Graph, Transition, inc64, get_task, put_task, with_task, mark_changed, push_timer_change,
  log_transition, deps_of, parents_of, enqueue, enqueue_all, enqueue_parents, queue_effects,
  send_cmd, deliver, notify_subscribers,
}
use dekit.Graph.Edges.{count_active}
use dekit.Graph.SetState.{moved_to, move_task, wake_parents, recount, change_state}

module _ {S T : Type 0} where
  abbrev pub epoch_of : Option (TaskHandle S T) → Option ℕ
  epoch_of none = none
  epoch_of (some t) = some t.epoch

module _ {S T N : Type 0} where
  unfoldable pub epoch_at : Graph S T N → ℕ → Option ℕ
  epoch_at g j = epoch_of (get_task g j)

  epoch-put :
      (id : ℕ) (t t' : TaskHandle S T) (g : Graph S T N) (j : ℕ)
      → get_task g id ≡ some t
      → t'.epoch ≡ t.epoch
      → epoch_at (put_task id t' g) j ≡ epoch_at g j
  unfolding epoch_at put_task
  epoch-put id t t' g j at e = ground (arith, lookup-insert id j t' g.tasks)

  epoch-with :
      (id : ℕ) (f : TaskHandle S T → TaskHandle S T) (g : Graph S T N) (j : ℕ)
      → ((t : TaskHandle S T) → (f t).epoch ≡ t.epoch)
      → epoch_at (with_task id f g) j ≡ epoch_at g j
  unfolding with_task
  epoch-with id f g j keep =
      option_elim (λ (g' : Graph S T N). epoch_at g' j ≡ epoch_at g j) (get_task g id) refl
        (λ t at. epoch-put id t (f t) g j at (keep t))

  epoch-enqueue : (id : ℕ) (g : Graph S T N) (j : ℕ) → epoch_at (enqueue id g) j ≡ epoch_at g j
  unfolding epoch_at enqueue
  epoch-enqueue id g j =
      if_elim (λ (g' : Graph S T N). epoch_at g' j ≡ epoch_at g j) _ (λ e. refl) (λ e. refl)

  epoch-enqueue_all :
      (js : List ℕ) (g : Graph S T N) (j : ℕ) → epoch_at (enqueue_all js g) j ≡ epoch_at g j
  unfolding enqueue_all
  epoch-enqueue_all [] g j = refl
  epoch-enqueue_all (i ∷ js) g j = epoch-enqueue_all js (enqueue i g) j ∙ epoch-enqueue i g j

  epoch-enqueue_parents :
      (id : ℕ) (g : Graph S T N) (j : ℕ) → epoch_at (enqueue_parents id g) j ≡ epoch_at g j
  unfolding enqueue_parents
  epoch-enqueue_parents id g j = epoch-enqueue_all (parents_of g id) g j

  epoch-count_active :
      (up : Bool) (deps : List ℕ) (g : Graph S T N) (j : ℕ)
      → epoch_at (count_active up deps g) j ≡ epoch_at g j
  unfolding count_active
  epoch-count_active up [] g j = refl
  epoch-count_active true (d ∷ deps) g j =
      epoch-count_active true deps _ j ∙ epoch-enqueue d _ j ∙ epoch-with d _ g j (λ t. refl)
  epoch-count_active false (d ∷ deps) g j =
      epoch-count_active false deps _ j ∙ epoch-enqueue d _ j ∙ epoch-with d _ g j (λ t. refl)

  epoch-queue_effects :
      (id : ℕ) (fx : List TaskEffect) (g : Graph S T N) (j : ℕ)
      → epoch_at (queue_effects id fx g) j ≡ epoch_at g j
  unfolding epoch_at queue_effects
  epoch-queue_effects id fx g j = refl

  epoch-mark_changed : (g : Graph S T N) (j : ℕ) → epoch_at (mark_changed g) j ≡ epoch_at g j
  unfolding epoch_at mark_changed
  epoch-mark_changed g j = refl

  epoch-push_timer_change :
      (id : ℕ) (g : Graph S T N) (j : ℕ) → epoch_at (push_timer_change id g) j ≡ epoch_at g j
  unfolding epoch_at push_timer_change
  epoch-push_timer_change id g j = refl

  epoch-log_transition :
      (tr : Transition) (g : Graph S T N) (j : ℕ) → epoch_at (log_transition tr g) j ≡ epoch_at g j
  unfolding epoch_at log_transition
  epoch-log_transition tr g j = refl

  epoch-put_any :
      (id : ℕ) (t : TaskHandle S T) (g : Graph S T N) (j : ℕ)
      → epoch_at (put_task id t g) j ≡ (if id == j then some t.epoch else epoch_at g j)
  unfolding epoch_at put_task
  epoch-put_any id t g j = ground (arith, lookup-insert id j t g.tasks)

  epoch-wake_parents :
      (id : ℕ) (was now : Bool) (g : Graph S T N) (j : ℕ)
      → epoch_at (wake_parents id was now g) j ≡ epoch_at g j
  unfolding wake_parents
  epoch-wake_parents id was now g j =
      if_elim (λ (g' : Graph S T N). epoch_at g' j ≡ epoch_at g j) (bool_eq was now) (λ e. refl)
        (λ e. epoch-enqueue_parents id g j)

  epoch-recount :
      (id : ℕ) (was now : Bool) (g : Graph S T N) (j : ℕ)
      → epoch_at (recount id was now g) j ≡ epoch_at g j
  unfolding recount
  epoch-recount id was now g j =
      if_elim (λ (g' : Graph S T N). epoch_at g' j ≡ epoch_at g j) (bool_eq was now) (λ e. refl)
        (λ e. epoch-count_active now (deps_of g id) g j)

  epoch-timer :
      (b : Bool) (id : ℕ) (g : Graph S T N) (j : ℕ)
      → epoch_at (if b then push_timer_change id g else g) j ≡ epoch_at g j
  epoch-timer true id g j = epoch-push_timer_change id g j
  epoch-timer false id g j = refl

  epoch-move_task :
      (id : ℕ) (s : TaskState) (t : TaskHandle S T) (g : Graph S T N) (j : ℕ)
      → epoch_at (move_task id s t g) j ≡ (if id == j then some (inc64 t.epoch) else epoch_at g j)
  unfolding move_task
  epoch-move_task id s t g j =
      epoch-log_transition _ _ j
      ∙ epoch-mark_changed _ j
      ∙ epoch-timer (is_some t.deadline) id (put_task id (moved_to s t) g) j
      ∙ epoch-put_any id (moved_to s t) g j

module _ {S T N : Type 0} (h : Host S T N) where
  epoch-send_cmd :
      (id : ℕ) (cmd : TaskCmd S) (g : Graph S T N) (j : ℕ)
      → epoch_at (send_cmd h id cmd g) j ≡ epoch_at g j
  unfolding send_cmd
  epoch-send_cmd id cmd g j =
      option_elim (λ (g' : Graph S T N). epoch_at g' j ≡ epoch_at g j) (get_task g id) refl
        (λ t at. epoch-queue_effects id _ _ j ∙ epoch-put id t _ g j at refl)

  epoch-deliver :
      (from : ℕ) (notify : TaskNotify) (to : List ℕ) (g : Graph S T N) (j : ℕ)
      → epoch_at (deliver h from notify to g) j ≡ epoch_at g j
  unfolding deliver
  epoch-deliver from notify [] g j = refl
  epoch-deliver from notify (id ∷ to) g j =
      epoch-deliver from notify to _ j ∙ epoch-send_cmd id (msg from notify) g j

  epoch-notify_subscribers :
      (from : ℕ) (space : Text) (path : Option TaskPath) (notify : TaskNotify) (g : Graph S T N)
      (j : ℕ)
      → epoch_at (notify_subscribers h from space path notify g) j ≡ epoch_at g j
  unfolding notify_subscribers
  epoch-notify_subscribers from space none notify g j = epoch-deliver from notify [] g j
  epoch-notify_subscribers from space (some path) notify g j = epoch-deliver from notify _ g j

  -- A change of state counts the task's epoch up, and no other's.
  pub epoch-change_state :
      (id : ℕ) (s : TaskState) (t : TaskHandle S T) (g : Graph S T N) (j : ℕ)
      → epoch_at (change_state h id s t g) j
        ≡ (if id == j then some (inc64 t.epoch) else epoch_at g j)
  unfolding change_state
  epoch-change_state id s t g j =
      epoch-notify_subscribers id t.space t.path (state_changed s) _ j
      ∙ epoch-recount id (is_active t.state) (is_active s) _ j
      ∙ epoch-wake_parents id (is_satisfied t) (is_satisfied (moved_to s t)) _ j
      ∙ epoch-enqueue id _ j
      ∙ epoch-move_task id s t g j
