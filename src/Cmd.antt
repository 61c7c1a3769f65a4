-- ===== src/Cmd.antt =====
-- The screens of the command line program (the package cmd).
pub mod Monitor
pub mod Update
