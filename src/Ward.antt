-- ===== src/Ward.antt =====
-- The terminal wrapper with its protected bar row (the package ward).
pub mod Scanner
pub mod Osc133
pub mod Bar
pub mod Command
