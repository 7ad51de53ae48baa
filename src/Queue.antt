-- ===== src/Queue.antt =====
-- The message queue of a node (internal/queue): messages stored in a table and delivered through
-- bounded channels in memory.
pub mod State
pub mod Deliver
pub mod Settle
pub mod Requests
pub mod Bounds
pub mod Table
pub mod Durable
pub mod Retry
pub mod Kill
mod Tests
