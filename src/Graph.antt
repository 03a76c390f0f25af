-- ===== src/Graph.antt =====
-- src/kernel/kernel.rs: the kernel's graph of tasks, one child for each part of `impl Graph`.
pub mod State
pub mod Edges
pub mod SetState
pub mod Driving
pub mod Reports
pub mod Intent
pub mod Reconcile
pub mod Register
pub mod Remove
pub mod Labels
pub mod Fresh
pub mod Closure
pub mod Messages
pub mod Invariant
pub mod Backoff
pub mod Timers
pub mod Waits
mod Tests
