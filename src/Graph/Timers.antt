-- ===== src/Graph/Timers.antt =====
-- State timers of src/kernel/kernel.rs: each is set at its task's epoch.
mod Epochs
use dekit.Prelude.{
  ℕ, ◌≡◌, refl, sym, ap, ◌∙◌, ◌<◌, ◌^◌, Bool, true, false, Option, none, some, arith, ◌==◌,
  if◌then◌else◌, if_elim, option_elim_eq, ==_refl,
}
use dekit.Prelude.Maps.{some_injective}
use dekit.Task.{TaskHandle, TaskState, state_eq}
use dekit.Graph.State.{Host, Graph, inc64, get_task}
use dekit.Graph.SetState.{change_state, set_state}
use dekit.Graph.Driving.{on_state_timeout}
use dekit.Graph.Timers.Epochs.{epoch_of, epoch_at, epoch-change_state}

inc64_ne : (n : ℕ) → n < 2 ^ 64 → (inc64 n == n) ≡ false
inc64_ne n small = ground arith

module _ {S T N : Type 0} (h : Host S T N) where
  -- A timer of another epoch than the task's does nothing.
  other_epoch :
      (id epoch e : ℕ) (g : Graph S T N)
      → epoch_at g id ≡ some epoch
      → (epoch == e) ≡ false
      → on_state_timeout h id e g ≡ g
  unfolding epoch_at on_state_timeout
  other_epoch id epoch e g at ne =
      option_elim_eq (λ (g' : Graph S T N). g' ≡ g) (get_task g id) (λ gone. refl)
        (λ t here.
          let is : t.epoch ≡ epoch = some_injective (sym (ap epoch_of here) ∙ at) in
          if_elim (λ (g' : Graph S T N). g' ≡ g) (t.epoch == e) (λ y. absurd (cc (is, ne)))
            (λ n. refl))

  set_state_moves :
      (id : ℕ) (s : TaskState) (t : TaskHandle S T) (g : Graph S T N)
      → get_task g id ≡ some t
      → state_eq t.state s ≡ false
      → set_state h id s g ≡ change_state h id s t g
  unfolding set_state
  set_state_moves id s t g at moves = rw (set_state, at) (rw moves refl)

  -- Once a task has changed state, the timer that was set in its old state does nothing when it
  -- runs out: for an epoch of 64 bits.
  pub on_state_timeout-set_state :
      (id : ℕ) (s : TaskState) (t : TaskHandle S T) (g : Graph S T N)
      → get_task g id ≡ some t
      → state_eq t.state s ≡ false
      → t.epoch < 2 ^ 64
      → on_state_timeout h id t.epoch (set_state h id s g) ≡ set_state h id s g
  on_state_timeout-set_state id s t g at moves small = rw (set_state_moves id s t g at moves) (
      other_epoch id (inc64 t.epoch) t.epoch _
        (epoch-change_state h id s t g id ∙ rw (==_refl id) refl) (inc64_ne t.epoch small))
