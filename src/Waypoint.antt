-- ===== src/Waypoint.antt =====
-- controller/waypoint_env_manager.py: the backend that drives the `waypoint` program.
pub mod State
pub mod Process
pub mod Parse
pub mod Snapshots
pub mod Hooks
pub mod Kept
pub mod Contract
pub mod Hydrate
pub mod Hydrated
pub mod Synced
pub mod Attach
pub mod Attached
pub mod Standing
pub mod Sessions
pub mod Build
pub mod Built
pub mod Unsupported
