-- ===== src/Forkable/Behaviour.antt =====
-- What the operations on forks do, by outcome.
pub mod Discard
pub mod Fork
pub mod Refused
pub mod Park
