-- ===== src/Lifecycle.antt =====
-- The lifecycle of agents (internal/core): which agents run, what the store says of them, the emergency stop
-- and the vacation mode.
pub mod State
pub mod Start
pub mod Stop
pub mod Vacation
pub mod Reconcile
pub mod Requests
pub mod Calm
pub mod Halted
pub mod Quiet
pub mod Routing
pub mod Return
mod Tests
