-- ===== src/Selfupdate.antt =====
-- The releases of the program itself (the package selfupdate).
pub mod Version
pub mod Releases
pub mod Changelog
pub mod Install
