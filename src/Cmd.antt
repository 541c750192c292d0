-- ===== src/Cmd.antt =====
-- The commands, cmd.
pub mod Flags
pub mod Eidovela
pub mod Conformance
