-- ===== src/Task.antt =====
-- src/kernel/task.rs: what a task is to the kernel, and how its runs end. Durations and instants
-- are counted in milliseconds; an exit code or a signal is an `i32`, of which only the test
-- against 0 is made, so the type of codes is `ℤ`. The definition as written (`TaskSpec`), which
-- the kernel keeps and does not read here, is the type parameter `S`; the task object behind
-- `Box<dyn Task>` is `T`.
pub mod Outcome
mod Tests
pub mod Legal
pub mod Equality
use dekit.Prelude.{
  ℕ, zero, ◌*◌, Bool, true, false, not, ◌&&◌, ◌||◌, Option, none, some, List, [], ◌∷◌, arith, ◌==◌,
  if◌then◌else◌,
}
use dekit.Prelude.Text.{Text, codes, text_eq}
use dekit.TaskPath.{TaskPath}

-- `i32`: `negsuc n` is -(n + 1).
pub data ℤ : Type 0 where
  pos : ℕ → ℤ
  negsuc : ℕ → ℤ

abbrev pub int_eq : ℤ → ℤ → Bool
int_eq (pos a) (pos b) = a == b
int_eq (negsuc a) (negsuc b) = a == b
int_eq _ _ = false

abbrev pub code_eq : Option ℤ → Option ℤ → Bool
code_eq none none = true
code_eq (some a) (some b) = int_eq a b
code_eq _ _ = false

abbrev pub bool_eq : Bool → Bool → Bool
bool_eq true b = b
bool_eq false b = not b

abbrev pub init_task_id : ℕ
init_task_id = 0

abbrev pub stop_timeout : ℕ
stop_timeout = 10 * 1000

pub record ExitInfo : Type 0 where
  pub code : Option ℤ
  pub signal : Option ℤ
  pub ready_timeout : Bool

abbrev pub exit_code : ℤ → ExitInfo
exit_code c = record { code = some c; signal = none; ready_timeout = false }

abbrev pub exit_signal : ℤ → ExitInfo
exit_signal s = record { code = none; signal = some s; ready_timeout = false }

abbrev pub exit_error : ExitInfo
exit_error = record { code = none; signal = none; ready_timeout = false }

unfoldable pub success : ExitInfo → Bool
success info = code_eq info.code (some (pos 0)) && not info.ready_timeout

abbrev pub exit_eq : ExitInfo → ExitInfo → Bool
exit_eq a b =
    code_eq a.code b.code && code_eq a.signal b.signal && bool_eq a.ready_timeout b.ready_timeout

pub data StateReason : Type 0 where
  ready_timeout kill_timeout : StateReason

pub data TaskState : Type 0 where
  idle starting running ready stopping : TaskState
  backoff done exited : ExitInfo → TaskState

-- The derived `==`.
unfoldable pub state_eq : TaskState → TaskState → Bool
state_eq idle idle = true
state_eq starting starting = true
state_eq running running = true
state_eq ready ready = true
state_eq stopping stopping = true
state_eq (backoff a) (backoff b) = exit_eq a b
state_eq (done a) (done b) = exit_eq a b
state_eq (exited a) (exited b) = exit_eq a b
state_eq _ _ = false

unfoldable pub is_active : TaskState → Bool
is_active starting = true
is_active running = true
is_active ready = true
is_active stopping = true
is_active _ = false

pub data TaskKind : Type 0 where
  service job : TaskKind

unfoldable pub is_up : TaskState → TaskKind → Bool
is_up ready service = true
is_up running job = true
is_up _ _ = false

pub data ReadyMode : Type 0 where
  immediate : ReadyMode
  reported : Option ℕ → ReadyMode

abbrev pub timeout : ReadyMode → Option ℕ
timeout immediate = none
timeout (reported t) = t

pub data RestartMode : Type 0 where
  never on_failure always : RestartMode

abbrev pub all_modes : List RestartMode
all_modes = never ∷ on_failure ∷ always ∷ []

abbrev pub mode_name : RestartMode → Text
mode_name never = codes "never"
mode_name on_failure = codes "on-failure"
mode_name always = codes "always"

-- `into_iter().find(...)`
unfoldable pub find_mode : Text → List RestartMode → Option RestartMode
find_mode n [] = none
find_mode n (m ∷ ms) = let rest = find_mode n ms in if text_eq (mode_name m) n then some m else rest

unfoldable pub from_name : Text → Option RestartMode
unfolding find_mode text_eq
from_name n = find_mode n all_modes

unfoldable pub takes_ready : TaskKind → Bool
takes_ready service = true
takes_ready job = false

unfoldable pub takes_restart : TaskKind → RestartMode → Bool
takes_restart service restart = true
takes_restart job always = false
takes_restart job _ = true

pub record Run (S : Type 0) : Type 0 where
  pub spec : S
  pub path : Option TaskPath

pub record NextRun (S : Type 0) : Type 0 where
  pub kind : TaskKind
  pub ready : ReadyMode
  pub stop_timeout : ℕ
  pub spec : Option S

pub data TaskEffect : Type 0 where
  started became_ready : TaskEffect
  stopped : ExitInfo → TaskEffect

-- What the modelled operations tell the subscribers. `added` has the path, the label, the task
-- listed just before, the kind and the state, but not the screen.
pub data TaskNotify : Type 0 where
  state_changed : TaskState → TaskNotify
  removed : TaskNotify
  added : Option TaskPath → Option Text → Option ℕ → TaskKind → TaskState → TaskNotify
  changed : Option Text → TaskKind → TaskNotify

-- `Msg` carries either a notification of the kernel's, with the task it is from (`msg`), or what a
-- task's `KernelCommand::TaskMsg` passes on, which the kernel does not look into (`passed_on`).
pub data TaskCmd (S : Type 0) : Type 0 where
  start : Option (Run S) → TaskCmd S
  stop kill thaw : TaskCmd S
  msg : ℕ → TaskNotify → TaskCmd S
  passed_on : ℕ → TaskCmd S
  freeze : ℕ → TaskCmd S

-- The fields of `TaskHandle`, but for `vt`, `tags`, `origin` and `make_copy`, which the modelled
-- operations neither read nor write.
pub record TaskHandle (S T : Type 0) : Type 0 where
  pub task : T
  pub state : TaskState
  pub epoch : ℕ
  pub vetoed : Bool
  pub killed : Bool
  pub attempts : ℕ
  pub last_start : Option ℕ
  pub deadline : Option ℕ
  pub wanted : Bool
  pub supported : Bool
  pub wanted_parents : ℕ
  pub active_dependents : ℕ
  pub start_failed : Bool
  pub stop_timed_out : Bool
  pub saved_pin : Bool
  pub kind : TaskKind
  pub ready_mode : ReadyMode
  pub stop_timeout : ℕ
  pub next : Option (NextRun S)
  pub restart : RestartMode
  pub space : Text
  pub path : Option TaskPath
  pub label : Option Text
  pub spec : Option S

-- `kind != kind`
abbrev pub kind_ne : TaskKind → TaskKind → Bool
kind_ne service job = true
kind_ne job service = true
kind_ne _ _ = false

-- Where an exit lands, by the task's kind and restart mode.
abbrev pub retries : RestartMode → ExitInfo → Bool
retries never info = false
retries on_failure info = not (success info)
retries always info = true

abbrev pub is_job : TaskKind → Bool
is_job service = false
is_job job = true

abbrev pub exit_state_of : TaskKind → RestartMode → ExitInfo → TaskState
exit_state_of kind restart info =
    if is_job kind && success info
    then done info
    else if retries restart info
    then backoff info
    else exited info

abbrev pub satisfied_in : TaskKind → TaskState → Bool
satisfied_in service ready = true
satisfied_in job (done info) = true
satisfied_in _ _ = false

abbrev pub started_state_of : TaskKind → ReadyMode → TaskState
started_state_of service immediate = ready
started_state_of _ _ = running

-- The exit that the stop of a failed start lands with.
abbrev pub failed_start : ExitInfo → ExitInfo
failed_start info = record info { ready_timeout = true }

abbrev pub is_exited : TaskState → Bool
is_exited (exited info) = true
is_exited _ = false

abbrev pub has_ended_in : TaskState → Bool → TaskKind → RestartMode → Bool
has_ended_in (exited info) failed kind restart = true
has_ended_in (done info) failed kind restart = true
has_ended_in stopping failed kind restart =
    failed && is_exited (exit_state_of kind restart (failed_start exit_error))
has_ended_in _ failed kind restart = false

abbrev pub reason_in : TaskState → Bool → Bool → Option StateReason
reason_in (backoff info) failed timed_out = if info.ready_timeout then some ready_timeout else none
reason_in (done info) failed timed_out = if info.ready_timeout then some ready_timeout else none
reason_in (exited info) failed timed_out = if info.ready_timeout then some ready_timeout else none
reason_in stopping failed timed_out = if failed then some ready_timeout else none
reason_in idle failed timed_out = if timed_out then some kill_timeout else none
reason_in _ failed timed_out = none

module _ {S T : Type 0} where
  -- Returns whether the kind changed, and the task that runs start from now.
  unfoldable pub adopt : TaskHandle S T → NextRun S → Bool × TaskHandle S T
  adopt t n = (
    kind_ne t.kind n.kind,
    record t { kind = n.kind; ready_mode = n.ready; stop_timeout = n.stop_timeout; spec = n.spec },
  )

  unfoldable pub def_spec : TaskHandle S T → Option S
  def_spec t = elim t.next [ some n ↦ n.spec | none ↦ t.spec ]

  unfoldable pub started_state : TaskHandle S T → TaskState
  started_state t = started_state_of t.kind t.ready_mode

  unfoldable pub has_ended : TaskHandle S T → Bool
  has_ended t = has_ended_in t.state t.start_failed t.kind t.restart

  unfoldable pub reason : TaskHandle S T → Option StateReason
  reason t = reason_in t.state t.start_failed t.stop_timed_out

  unfoldable pub is_satisfied : TaskHandle S T → Bool
  is_satisfied t = satisfied_in t.kind t.state

  unfoldable pub exit_state : TaskHandle S T → ExitInfo → TaskState
  exit_state t info = exit_state_of t.kind t.restart info
