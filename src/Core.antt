-- ===== src/Core.antt =====
-- crates/core: the types that every other crate shares.
pub mod RepoPath
pub mod GitMode
pub mod ObjectId
pub mod Tree
pub mod Error
mod Tests
