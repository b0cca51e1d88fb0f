-- ===== src/Server.antt =====
-- server/: the backup server.
pub mod Sqlite
pub mod Table
pub mod Database
pub mod Session
pub mod Push
pub mod SessionManager
pub mod Handlers
pub mod Config
