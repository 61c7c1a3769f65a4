-- ===== src/Proxy.antt =====
-- The filtering proxy (the package proxy).
pub mod Pattern
pub mod Allowlist
pub mod LogBuffer
pub mod Cidr
pub mod Http
pub mod Dns
pub mod ControlApi
pub mod Presets
