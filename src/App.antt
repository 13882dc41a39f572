-- ===== src/App.antt =====
-- src/src/main.rs and its modules: the application around the engine.
pub mod Approver
pub mod Rows
pub mod Fields
pub mod Disk
pub mod Vault
pub mod Server
