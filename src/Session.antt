-- ===== src/Session.antt =====
-- Terminal sessions that outlive their clients (the package session).
pub mod Crlf
pub mod Client
pub mod Hub
pub mod Manager
pub mod Cleanup
