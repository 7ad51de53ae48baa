-- ===== src/Breaker.antt =====
-- The circuit breakers of agents (internal/circuitbreaker). A breaker's lock makes each of its
-- operations one step; the clock, the fingerprint of a message and the floating-point numbers of costs
-- are parameters.
pub mod Config
pub mod State
pub mod Window
pub mod Loop
pub mod Manager
mod Tests
