-- ===== src/Cmd.antt =====
-- cmd: what the command line reads and prints.
pub mod Lines
