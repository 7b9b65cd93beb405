-- ===== src/Tests.antt =====
-- The tests, and the theorems applied at concrete inputs.
mod Unfold
mod Box
mod Replays
mod Memory
mod Forks
mod Graphs
mod Waypoints
mod Shells
mod Docker
mod Backends
mod Machines
mod Searches
mod Trees
