-- ===== src/Forkable.antt =====
-- controller/forkable_env_manager.py: managers with several live environments.
pub mod State
pub mod Branches
pub mod Restore
pub mod Park
pub mod Listing
pub mod Sound
pub mod Behaviour
