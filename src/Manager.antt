-- ===== src/Manager.antt =====
-- controller/base_env_manager.py: the manager that every backend shares.
pub mod State
pub mod Branches
pub mod Snapshot
pub mod Ancestry
pub mod Exec
pub mod Copy
pub mod Tree
pub mod Restore
pub mod Stable
pub mod Sound
pub mod Attach
pub mod Replay
