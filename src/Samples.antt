-- ===== src/Samples.antt =====
-- Runs on concrete inputs, and the theorems at inputs that meet their hypotheses.
mod Proxy
mod Traffic
mod Session
mod Ward
mod Tui
mod Presets
mod Sshd
mod Config
mod Setup
mod Monitor
mod Server
mod Input
mod Cleanup
mod Update
mod Install
