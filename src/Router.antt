-- ===== src/Router.antt =====
-- The routing of messages between the model slots of an agent (internal/router). Texts are lists of
-- bytes.
pub mod Prefix
pub mod Slots
pub mod Stats
pub mod Classifier
pub mod Route
pub mod Named
pub mod Decision
pub mod Routed
pub mod Counted
mod Tests
