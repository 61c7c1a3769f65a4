-- ===== src/Tui.antt =====
-- Lists on the screen (the package tui) and the session selector that uses them (the package sshd).
pub mod Cursor
pub mod Selector
