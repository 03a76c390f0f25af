-- ===== src/Graph/Waits/Tests.antt =====
-- The theorems about waits at a concrete graph: a service that is ready, and one that needs it and
-- is not running.
use dekit.Prelude.{ℕ, ◌+◌, ◌≡◌, ◌↔◌, refl, true, false, none, some, List, [], ◌∷◌, All}
use dekit.Prelude.Maps.{lookup}
use dekit.Task.{TaskHandle, TaskState, idle, ready, service, immediate, never, is_satisfied}
use dekit.Graph.State.{Graph, get_task}
use dekit.Graph.Waits.{
  Standing, met, ready_cond, met_verdict, any_mark, wait_verdict, is_as_asked, is_live,
  wait_standing, standings, wait_verdict_met, wait_verdict-standings,
}
use dekit.Graph.Waits.Live.{Live, is_live_iff}

abbrev in_state : TaskState → TaskHandle ℕ ℕ
in_state s = record {
  task = 0;
  state = s;
  epoch = 1;
  vetoed = false;
  killed = false;
  attempts = 0;
  last_start = none;
  deadline = none;
  wanted = true;
  supported = true;
  wanted_parents = 1;
  active_dependents = 0;
  start_failed = false;
  stop_timed_out = false;
  saved_pin = false;
  kind = service;
  ready_mode = immediate;
  stop_timeout = 5;
  next = none;
  restart = never;
  space = [];
  path = none;
  label = none;
  spec = some 7;
}

abbrev two_tasks : Graph ℕ ℕ ℕ
two_tasks = record {
  quitting = false;
  tasks = (1, in_state ready) ∷ (2, in_state idle) ∷ [];
  edges = (2, 1 ∷ []) ∷ [];
  redges = (1, 2 ∷ []) ∷ [];
  ns = 0;
  dirty = [];
  in_queue = [];
  now = 0;
  timer_changes = [];
  pending_effects = [];
  state_changed = false;
  transitions = [];
  panicked = false;
}

abbrev two_standings : List Standing
two_standings = standings 5 two_tasks ready_cond (1 ∷ 2 ∷ [])

wait_verdict_met_example :
    (wait_verdict ready_cond two_standings ≡ some met_verdict)
    ↔ All (λ s. s.mark ≡ met) two_standings
wait_verdict_met_example = wait_verdict_met ready_cond two_standings

wait_verdict-standings_example :
    All (λ id. is_as_asked (get_task two_tasks id) ready_cond ≡ true) (1 ∷ [])
wait_verdict-standings_example =
    wait_verdict-standings 5 two_tasks ready_cond (1 ∷ [])
      (unfold wait_verdict standings wait_standing any_mark lookup is_satisfied in refl)

is_live_iff_example :
    ((fuel : ℕ) → is_live fuel two_tasks 2 ≡ true → Live two_tasks 2)
    × (Live two_tasks 2 → (n : ℕ) × ((k : ℕ) → is_live (n + k) two_tasks 2 ≡ true))
is_live_iff_example = is_live_iff two_tasks 2
