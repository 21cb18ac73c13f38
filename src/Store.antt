-- ===== src/Store.antt =====
-- internal/store/sqlite: the persistent state and the operations on it.
pub mod Tables
pub mod Db
pub mod Queue
pub mod Callbacks
pub mod Tasks
pub mod Eligible
pub mod Claim
pub mod Evolution
pub mod Barriers
pub mod Stages
pub mod Cancel
pub mod Remote
pub mod Queries
pub mod Uploads
pub mod Routes
pub mod NewTasks
pub mod Details
pub mod Create
