-- ===== src/Worktree/Cache.antt =====
-- The caches of crates/worktree/src/lib.rs: blob contents and sizes, and the speculative fetches
-- that fill them.
pub mod Flight
pub mod Sizes
pub mod Priority
mod Tests
