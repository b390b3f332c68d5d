-- ===== src/Journal.antt =====
-- crates/worktree/src/journal.rs: the durable change journal behind git's FSMonitor hook.
pub mod Token
pub mod Log
pub mod Query
pub mod Races
mod Tests
