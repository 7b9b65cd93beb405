-- ===== src/Shell.antt =====
-- interface/shell.py: the interactive shell.
pub mod Api
pub mod Commands
pub mod Loop
pub mod Exits
pub mod Main
