-- ===== src/Context.antt =====
-- The prompt of an agent within its token budget (internal/ctxbudget), and the compression of its
-- conversation (internal/compression). Texts are lists of bytes.
pub mod Tokens
pub mod Memories
pub mod Message
pub mod Answers
pub mod Pairing
pub mod Kept
pub mod Estimate
pub mod Assemble
pub mod Compressed
pub mod Total
pub mod Finish
pub mod Build
pub mod Convert
pub mod Trim
pub mod Budget
pub mod Store
pub mod Compress
mod Tests
