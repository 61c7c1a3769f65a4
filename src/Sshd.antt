-- ===== src/Sshd.antt =====
-- The SSH server (the package sshd).
pub mod ShellEscape
pub mod Channel
pub mod Pty
