-- ===== src/Graph/Waits.antt =====
-- Waits of src/kernel/kernel.rs: where each task of a wait stands, and what that makes of the wait.
-- `is_live` looks at a task's deps, on fuel for the depth; the code's memo only saves looking twice.
pub mod Live
mod Tests
use dekit.Prelude.{
  ℕ, zero, suc, ◌≡◌, ◌↔◌, refl, Bool, true, false, not, ◌&&◌, ◌||◌, Bool-cases, inl, inr, Option,
  none, some, List, [], ◌∷◌, map, All, arith, if◌then◌else◌, Option-cases,
}
use dekit.Task.{
  TaskHandle, TaskState, idle, starting, running, ready, stopping, backoff, done, exited, success,
  is_active, is_satisfied, has_ended,
}
use dekit.Graph.State.{Graph, get_task, deps_of}

pub data WaitCond : Type 0 where
  ready_cond exit_cond down_cond : WaitCond

pub data WaitMark : Type 0 where
  pending met failed : WaitMark

pub data WaitVerdict : Type 0 where
  met_verdict failed_verdict : WaitVerdict

pub record Standing : Type 0 where
  pub mark : WaitMark
  pub removed : Bool

abbrev pub mark_eq : WaitMark → WaitMark → Bool
mark_eq pending pending = true
mark_eq met met = true
mark_eq failed failed = true
mark_eq _ _ = false

unfoldable pub any_mark : WaitMark → List Standing → Bool
any_mark m [] = false
any_mark m (s ∷ ss) = mark_eq s.mark m || any_mark m ss

-- `Ready` and `Down` fail at once; `Exit` only when no task is pending.
abbrev fails_at_once : WaitCond → Bool
fails_at_once exit_cond = false
fails_at_once _ = true

unfoldable pub wait_verdict : WaitCond → List Standing → Option WaitVerdict
wait_verdict cond ss =
    if fails_at_once cond && any_mark failed ss
    then some failed_verdict
    else if any_mark pending ss
    then none
    else if any_mark failed ss
    then some failed_verdict
    else some met_verdict

abbrev pub bad_end : TaskState → Bool → Bool → Bool
bad_end (exited info) timed_out wanted = not (success info)
bad_end (backoff info) timed_out wanted = not (success info)
bad_end idle timed_out wanted = timed_out || wanted
bad_end _ timed_out wanted = false

abbrev pub satisfied_task : {S T : Type 0} → Option (TaskHandle S T) → Bool
satisfied_task none = false
satisfied_task (some t) = is_satisfied t

abbrev active_task : {S T : Type 0} → Option (TaskHandle S T) → Bool
active_task none = false
active_task (some t) = is_active t.state

-- A removed task never gets ready, and no longer runs.
abbrev mark_of_removed : WaitCond → WaitMark
mark_of_removed ready_cond = failed
mark_of_removed _ = met

module _ {S T : Type 0} where
  unfoldable pub ended_badly : TaskHandle S T → Bool
  ended_badly t = bad_end t.state t.stop_timed_out t.wanted

  abbrev mark_of : WaitCond → TaskHandle S T → Bool → WaitMark
  mark_of ready_cond t live = if is_satisfied t then met else if not live then failed else pending
  mark_of exit_cond t live =
      if is_active t.state || live then pending else if ended_badly t then failed else met
  mark_of down_cond t live =
      if live
      then failed
      else if is_active t.state
      then pending
      else if t.stop_timed_out
      then failed
      else met

module _ {S T N : Type 0} where
  abbrev pub deps_serve : (ℕ → Bool) → Graph S T N → List ℕ → Bool
  deps_serve live g [] = true
  deps_serve live g (dep ∷ deps) =
      (satisfied_task (get_task g dep) || live dep) && deps_serve live g deps

  unfoldable pub is_live : ℕ → Graph S T N → ℕ → Bool
  is_live zero g id = false
  is_live (suc fuel) g id = elim (get_task g id) [
    | none ↦ false
    | some t ↦ t.wanted && not (has_ended t) && deps_serve (is_live fuel g) g (deps_of g id)
  ]

  unfoldable pub wait_standing : ℕ → Graph S T N → WaitCond → ℕ → Standing
  wait_standing fuel g cond id = elim (get_task g id) [
    | none ↦ record { mark = mark_of_removed cond; removed = true }
    | some t ↦ record { mark = mark_of cond t (is_live fuel g id); removed = false }
  ]

  unfoldable pub standings : ℕ → Graph S T N → WaitCond → List ℕ → List Standing
  standings fuel g cond [] = []
  standings fuel g cond (id ∷ ids) = wait_standing fuel g cond id ∷ standings fuel g cond ids

quiet_marks :
    (ss : List Standing)
    → All (λ s. s.mark ≡ met) ss
    → (m : WaitMark) → mark_eq met m ≡ false
    → any_mark m ss ≡ false
unfolding any_mark
quiet_marks [] a m n = refl
quiet_marks (s ∷ ss) a m n = rw (a.0, n) (quiet_marks ss a.1 m n)

met_of : (m : WaitMark) → mark_eq m failed ≡ false → mark_eq m pending ≡ false → m ≡ met
met_of met f p = refl
met_of pending f p = absurd (cc)
met_of failed f p = absurd (cc)

All-met :
    (ss : List Standing)
    → any_mark failed ss ≡ false
    → any_mark pending ss ≡ false
    → All (λ s. s.mark ≡ met) ss
unfolding any_mark
All-met [] f p = tt
All-met (s ∷ ss) f p =
    (met_of s.mark (ground arith) (ground arith), All-met ss (ground arith) (ground arith))

-- A wait is met when, and only when, every task of it is.
pub wait_verdict_met :
    (cond : WaitCond) (ss : List Standing)
    → (wait_verdict cond ss ≡ some met_verdict) ↔ All (λ s. s.mark ≡ met) ss
unfolding wait_verdict
wait_verdict_met cond ss = (forth, back)
  where
    back : All (λ s. s.mark ≡ met) ss → wait_verdict cond ss ≡ some met_verdict
    back a =
        let no_fail = quiet_marks ss a failed refl in
        let no_wait = quiet_marks ss a pending refl in ground arith

    forth : wait_verdict cond ss ≡ some met_verdict → All (λ s. s.mark ≡ met) ss
    forth h = All-met ss (ground arith) (ground arith)

-- What a wait that is met has waited for: the task is ready or done, or has no process.
abbrev pub is_as_asked : {S T : Type 0} → Option (TaskHandle S T) → WaitCond → Bool
is_as_asked o ready_cond = satisfied_task o
is_as_asked o _ = not (active_task o)

mark_of_met :
    {S T : Type 0} (t : TaskHandle S T) (live : Bool) (cond : WaitCond)
    → mark_of cond t live ≡ met
    → is_as_asked (some t) cond ≡ true
mark_of_met t live ready_cond e = ground arith
mark_of_met t live exit_cond e = ground arith
mark_of_met t live down_cond e = ground arith

module _ {S T N : Type 0} where
  standing_met :
      (fuel : ℕ) (g : Graph S T N) (cond : WaitCond) (id : ℕ)
      → (wait_standing fuel g cond id).mark ≡ met
      → is_as_asked (get_task g id) cond ≡ true
  unfolding wait_standing
  standing_met fuel g cond id e = elim (Option-cases (get_task g id)) [
    | inl gone ↦ rw gone (gone_met cond (rw (wait_standing, gone) at e))
    | inr (t, at) ↦ rw at (mark_of_met t (is_live fuel g id) cond (rw (wait_standing, at) at e))
  ]
    where
      gone_met :
          (c : WaitCond) → mark_of_removed c ≡ met → is_as_asked {S = S} {T = T} none c ≡ true
      gone_met ready_cond w = absurd (cc)
      gone_met exit_cond w = refl
      gone_met down_cond w = refl

  -- A wait that is met is so for a reason: each task that it waited to be ready is there, and is
  -- ready, or done if it is a job; and each that it waited to end, or to go down, has no process.
  pub wait_verdict-standings :
      (fuel : ℕ) (g : Graph S T N) (cond : WaitCond) (ids : List ℕ)
      → wait_verdict cond (standings fuel g cond ids) ≡ some met_verdict
      → All (λ id. is_as_asked (get_task g id) cond ≡ true) ids
  unfolding standings
  wait_verdict-standings fuel g cond ids h =
      each_met ids ((wait_verdict_met cond (standings fuel g cond ids)).0 h)
    where
      each_met :
          (js : List ℕ)
          → All (λ s. s.mark ≡ met) (standings fuel g cond js)
          → All (λ id. is_as_asked (get_task g id) cond ≡ true) js
      each_met [] a = tt
      each_met (j ∷ js) a = (standing_met fuel g cond j a.0, each_met js a.1)
