-- ===== src/Graph/Tests.antt =====
-- The theorems about the graph at concrete inputs, on tasks that report at once.
use dekit.Prelude.{
  ℕ, suc, ◌≡◌, ◌↔◌, refl, true, false, none, some, List, [], ◌∷◌, All, Distinct, ◌≤◌, ◌*◌, arith,
}
use dekit.Task.{
  TaskHandle, state_eq, starting, TaskCmd, start, stop, kill, TaskEffect, started, stopped,
  exit_error, service, immediate, never,
}
use dekit.Task.Legal.{IsPlainEffect}
use dekit.Graph.State.{Graph, put_task, Host, is_registered}
use dekit.Graph.Register.{new_handle, TaskDef}
use dekit.Graph.Messages.{
  Message, register_msg, act_msg, report_msg, remove_msg, start_verb, stop_verb, run, new_graph,
}
use dekit.Graph.SetState.{set_state}
use dekit.Graph.Reconcile.{}
use dekit.Graph.Intent.{requires, closure, closure_loop, fresh}
use dekit.Graph.Closure.{AreDepsRegistered, Reaches, requires_iff}
use dekit.Graph.Timers.{on_state_timeout-set_state}
use dekit.Prelude.Maps.{insert, lookup}
use dekit.Graph.Driving.{on_state_timeout, backoff_delay, backoff_min, backoff_max}
use dekit.Graph.Backoff.{backoff_delay_lem}
use dekit.Graph.Invariant.{IsLegal, IsPlainHost}
use dekit.Graph.Invariant.Members.{IsSaved}
use dekit.Graph.Invariant.Kernel.{IsSound, IsSoundAt, run-IsLegal, run-never_panics, run-Distinct}

abbrev reports : ℕ → TaskCmd ℕ → ℕ × List TaskEffect
reports t (start r) = (suc t, started ∷ [])
reports t stop = (t, stopped exit_error ∷ [])
reports t kill = (t, stopped exit_error ∷ [])
reports t _ = (t, [])

abbrev test_host : Host ℕ ℕ ℕ
test_host = record {
  handle_cmd = reports;
  factory = λ id. 0;
  without_deps = λ s. s;
  set_label = λ l s. s;
  claim = λ n id space p. some n;
  before = λ n space p. none;
  collect = λ n space p. [];
  forget = λ n id space p. n;
}

test_host-IsPlainHost : IsPlainHost test_host
test_host-IsPlainHost = record { plain = reports_plain }
  where
    reports_plain : (t : ℕ) (cmd : TaskCmd ℕ) → All IsPlainEffect (reports t cmd).1
    reports_plain t (start r) = (tt, tt)
    reports_plain t stop = (refl, tt)
    reports_plain t kill = (refl, tt)
    reports_plain t _ = tt

abbrev test_def : TaskDef ℕ
test_def = record {
  kind = service;
  ready_mode = immediate;
  stop_timeout = 5;
  next = none;
  restart = never;
  space = [];
  path = none;
  label = none;
  spec = some 7;
  saved_pin = false;
  pinned = false;
}

-- Two services, the second of which needs the first; the second is started, then stopped, and the
-- first is removed.
abbrev test_messages : List (ℕ × Message ℕ)
test_messages =
    (1, register_msg 1 test_def none (some []))
    ∷ (2, register_msg 2 test_def none (some (1 ∷ [])))
    ∷ (3, act_msg start_verb (2 ∷ []))
    ∷ (4, act_msg stop_verb (2 ∷ []))
    ∷ (5, report_msg 2 (stopped exit_error))
    ∷ (6, remove_msg (1 ∷ []))
    ∷ []

test_messages-IsSound : All IsSoundAt test_messages
unfolding IsSound IsSaved
test_messages-IsSound = (tt, (tt, (tt, (tt, (refl, (tt, tt))))))

run-IsLegal_example : All IsLegal (run test_host 20 test_messages (new_graph 0 0)).transitions
run-IsLegal_example =
    run-IsLegal test_host test_host-IsPlainHost 20 test_messages 0 0 test_messages-IsSound

run-never_panics_example : (run test_host 20 test_messages (new_graph 0 0)).panicked ≡ false
run-never_panics_example =
    run-never_panics test_host test_host-IsPlainHost 20 test_messages 0 0 test_messages-IsSound

run-Distinct_example :
    let g = run test_host 20 test_messages (new_graph 0 0) in
    Distinct g.dirty × All (λ id. is_registered g id ≡ true) g.dirty
run-Distinct_example =
    run-Distinct test_host test_host-IsPlainHost 20 test_messages 0 0 test_messages-IsSound

backoff_delay_lem_example :
    (backoff_delay 1 ≡ backoff_min)
    × (backoff_min ≤ backoff_delay 3)
    × (backoff_delay 3 ≤ backoff_max)
    × (backoff_delay 3 ≤ backoff_delay 4)
    × (backoff_delay 4 ≤ 2 * backoff_delay 3)
    × (backoff_delay 13 ≡ backoff_max)
backoff_delay_lem_example = backoff_delay_lem 3

abbrev idle_task : TaskHandle ℕ ℕ
idle_task = new_handle test_host 1 test_def

abbrev one_task : Graph ℕ ℕ ℕ
one_task = put_task 1 idle_task (new_graph 0 0)

on_state_timeout-set_state_example :
    on_state_timeout test_host 1 0 (set_state test_host 1 starting one_task)
    ≡ set_state test_host 1 starting one_task
on_state_timeout-set_state_example =
    on_state_timeout-set_state test_host 1 starting idle_task one_task
      (unfold put_task in unfold insert in unfold lookup in refl) (unfold state_eq in refl)
      (omega arith)

-- 1 needs 2, which needs 3.
abbrev chain : Graph ℕ ℕ ℕ
chain = record (new_graph 0 0) {
  tasks = (1, idle_task) ∷ (2, idle_task) ∷ (3, idle_task) ∷ [];
  edges = (1, 2 ∷ []) ∷ (2, 3 ∷ []) ∷ [];
}

chain-AreDepsRegistered : AreDepsRegistered chain
unfolding lookup
chain-AreDepsRegistered = ((refl, tt), ((refl, tt), tt))

requires_iff_example : (requires chain 1 3 ≡ true) ↔ Reaches chain 1 3
requires_iff_example = requires_iff chain 1 3 chain-AreDepsRegistered

chain-requires : (requires chain 1 3 ≡ true) × (requires chain 3 1 ≡ false)
unfolding requires closure closure_loop fresh lookup
chain-requires = (refl, refl)
