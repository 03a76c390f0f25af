-- ===== src/Task/Legal.antt =====
-- The legal state diagram of src/kernel/kernel_prop.rs, with which the property harness checks
-- every transition that the kernel makes.
use dekit.Prelude.{Bool, true, false, not, ◌&&◌, ◌||◌, ◌≡◌, if◌then◌else◌}
use dekit.Task.{
  TaskState, idle, starting, running, ready, stopping, backoff, done, exited, TaskHandle,
  TaskEffect, stopped,
}

-- The part of the diagram for a task whose start has not failed.
abbrev pub plain_transition : TaskState → TaskState → Bool
plain_transition idle starting = true
plain_transition starting running = true
plain_transition starting ready = true
plain_transition starting stopping = true
plain_transition starting (backoff info) = true
plain_transition starting (done info) = true
plain_transition starting (exited info) = true
plain_transition running ready = true
plain_transition running stopping = true
plain_transition running (backoff info) = true
plain_transition running (done info) = true
plain_transition running (exited info) = true
plain_transition ready stopping = true
plain_transition ready (backoff info) = true
plain_transition ready (done info) = true
plain_transition ready (exited info) = true
plain_transition (backoff info) idle = true
plain_transition (done info) idle = true
plain_transition (exited info) idle = true
plain_transition _ _ = false

-- The exit that a state to move to says was a ready timeout.
abbrev pub says_ready_timeout : TaskState → Bool
says_ready_timeout (backoff info) = info.ready_timeout
says_ready_timeout (exited info) = info.ready_timeout
says_ready_timeout _ = false

unfoldable pub legal_transition : TaskState → TaskState → Bool → Bool
legal_transition stopping idle start_failed = not start_failed
legal_transition stopping (backoff info) start_failed = start_failed && info.ready_timeout
legal_transition stopping (exited info) start_failed = start_failed && info.ready_timeout
legal_transition from to start_failed =
    if says_ready_timeout to
    then false
    else if start_failed
    then false
    else plain_transition from to

abbrev pub is_stopping : TaskState → Bool
is_stopping stopping = true
is_stopping _ = false

abbrev pub is_idle : TaskState → Bool
is_idle idle = true
is_idle _ = false

-- The comments on `TaskHandle`'s fields: `start_failed` only in `Stopping`, `stop_timed_out` only
-- in `Idle`; and a hard kill only of a task that is stopping.
unfoldable pub flags_fit : TaskState → Bool → Bool → Bool → Bool
flags_fit s start_failed killed stop_timed_out =
    (not start_failed || is_stopping s)
    && (not killed || is_stopping s)
    && (not stop_timed_out || is_idle s)

abbrev pub IsFlagged : {S T : Type 0} → TaskHandle S T → Type 0
IsFlagged t = flags_fit t.state t.start_failed t.killed t.stop_timed_out ≡ true

-- A task never reports a ready timeout: only the kernel marks an exit with it.
abbrev pub IsPlainEffect : TaskEffect → Type 0
IsPlainEffect (stopped info) = info.ready_timeout ≡ false
IsPlainEffect _ = Unit
